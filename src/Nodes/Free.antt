-- ===== src/Nodes/Free.antt =====
-- The nodes that do not charge the run.
use recertia.Prelude.{Bool, true, false, Outcome, ok, raised, raise_if, ◌>>=◌, ◌≡◌, if◌then◌else◌}
use recertia.Contracts.Run.{RunState}
use recertia.Graph.Engine.{NodeOutcome}
use recertia.Nodes.{NodeError}

-- Outcomes that leave the spend and the budget of a run as they are.
abbrev pub IsFree : RunState → Outcome NodeError NodeOutcome → Type 0
IsFree s (ok out) = (out.state.spent ≡ s.spent) × (out.state.budget ≡ s.budget)
IsFree s (raised e) = Unit

pub IsFree-bind :
    {A : Type 0} (s : RunState) (x : Outcome NodeError A) (f : A → NodeOutcome)
    → ((a : A) → IsFree s (ok (f a)))
    → IsFree s (x >>= λ a. ok (f a))
IsFree-bind s (ok a) f h = h a
IsFree-bind s (raised e) f h = tt

pub IsFree-if :
    (s : RunState) (b : Bool) (x y : Outcome NodeError NodeOutcome)
    → IsFree s x
    → IsFree s y
    → IsFree s (if b then x else y)
IsFree-if s true x y h k = h
IsFree-if s false x y h k = k

pub IsFree-raise_if :
    (s : RunState) (b : Bool) (e : NodeError) (x : Outcome NodeError NodeOutcome)
    → IsFree s x
    → IsFree s (raise_if b e x)
IsFree-raise_if s true e x h = tt
IsFree-raise_if s false e x h = h
