-- ===== src/Graph/Routes/Unique.antt =====
-- How many routes out of a node are legal in a state.
use recertia.Prelude.{◌≡◌, ◌≢◌, ◌↔◌, ◌⊎◌, none, some, length, arith}
use recertia.Contracts.Run.{RunState, reusable, one_off}
use recertia.Graph.Routes.{
  Node, intake, retrieve, plan, fan_out, solve, validate, join, classify_failure, evolve, distill,
  review, store, record_dead_end, reject_draft, finalize, legal_routes,
}

-- What a node has to leave in the state for the table to name exactly one way on.
abbrev pub Decides : Node → RunState → Type 0
Decides plan s = s.strategy ≢ none
Decides solve s = (s.failure_signal ≢ none) ⊎ (s.transcript_ref ≢ none)
Decides distill s = (s.reusability ≡ some reusable) ⊎ (s.reusability ≡ some one_off)
Decides review s = ⊥
Decides finalize s = ⊥
Decides _ s = Unit {0}

legal_routes_unique : (n : Node) (s : RunState) → Decides n s → length (legal_routes n s) ≡ 1
unfolding legal_routes
legal_routes_unique intake s d = ground arith
legal_routes_unique retrieve s d = ground arith
legal_routes_unique plan s d = ground arith
legal_routes_unique fan_out s d = ground arith
legal_routes_unique solve s d = ground arith
legal_routes_unique validate s d = ground arith
legal_routes_unique join s d = ground arith
legal_routes_unique classify_failure s d = ground arith
legal_routes_unique evolve s d = ground arith
legal_routes_unique distill s d = ground arith
legal_routes_unique review s d = absurd d
legal_routes_unique store s d = ground arith
legal_routes_unique record_dead_end s d = ground arith
legal_routes_unique reject_draft s d = ground arith
legal_routes_unique finalize s d = absurd d

legal_routes-Decides : (n : Node) (s : RunState) → length (legal_routes n s) ≡ 1 → Decides n s
unfolding legal_routes
legal_routes-Decides plan s h = λ e. ground arith
legal_routes-Decides solve s h = ground arith
legal_routes-Decides distill s h = ground arith
legal_routes-Decides review s h = ground arith
legal_routes-Decides finalize s h = ground arith
legal_routes-Decides _ s h = tt

-- Out of every node, the number of routes that are legal in a state is exactly one if and only if
-- the node has left what decides it: a strategy after `plan`, a failure signal or a transcript after
-- `solve`, a verdict `reusable` or `one_off` after `distill`, nothing after the ten nodes of which
-- the table covers every state; never after `review` and `finalize`.
pub legal_routes-unique_iff :
    (n : Node) (s : RunState) → (length (legal_routes n s) ≡ 1) ↔ Decides n s
legal_routes-unique_iff n s = (legal_routes-Decides n s, legal_routes_unique n s)
