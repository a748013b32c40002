-- ===== src/Graph/Engine/Termination.antt =====
-- The loop of `_execute` ends: no run that starts within its attempts budget takes more rounds than
-- five for each attempt and eleven more.
use recertia.Prelude.{
  ℕ, zero, suc, ◌+◌, ◌-◌, ◌*◌, ◌≤◌, ◌<◌, ◌≡◌, ◌≢◌, max, Option, none, some, ok, String, All, arith,
  refl, ap, sym, subst,
}
use recertia.Contracts.Run.{RunState}
use recertia.Graph.Routes.{
  Node, intake, retrieve, plan, fan_out, solve, validate, join, classify_failure, evolve, distill,
  review, store, record_dead_end, reject_draft, finalize, Route, legal_routes,
  budget_remains_with_progress,
}
use recertia.Graph.Store.{HopDb, Checkpoint, latest, latest_seq}
use recertia.Graph.Engine.{
  NodeOutcome, Engine, Host, Loop, Round, finished, moved, failed, round, ran_out, execute,
  ensure_pre_solve_snapshot, prepare, attempt_for, one_less, max_graph_steps, start, resume,
  resume_from,
}
use recertia.Graph.Engine.Rounds.{round-Moved}
use recertia.Graph.Engine.Choice.{choose_route-All}

-- The attempts that are left to a run.
unfoldable pub attempts_left : RunState → ℕ
attempts_left s = s.budget.max_attempts - s.spent.attempts

-- How many hops a run can still make from a node, by the attempts that are left.
pub hops : Node → ℕ → ℕ
hops intake a = 5 * a + 10
hops retrieve a = 5 * a + 9
hops plan a = 5 * a + 8
hops fan_out a = 5 * a + 7
hops solve a = max 6 (5 * a + 1)
hops validate a = 5 * a + 5
hops join a = 5 * a + 4
hops classify_failure a = 5 * a + 3
hops evolve a = max 7 (5 * a + 2)
hops distill a = 3
hops review a = 2
hops store a = 1
hops record_dead_end a = 1
hops reject_draft a = 1
hops finalize a = 0

-- The same once the node has run, and with it, for `solve`, an attempt is spent.
pub hops_after : Node → ℕ → ℕ
unfolding hops
hops_after solve a = 5 * a + 6
hops_after n a = hops n a

-- Every legal route leads closer to the end.
legal_routes-descend :
    (n : Node) (s : RunState)
    → All (λ r. hops r.target (attempts_left s) < hops_after n (attempts_left s)) (legal_routes n s)
unfolding legal_routes hops_after attempts_left budget_remains_with_progress
legal_routes-descend intake s = ground arith
legal_routes-descend retrieve s = ground arith
legal_routes-descend plan s = ground arith
legal_routes-descend fan_out s = ground arith
legal_routes-descend solve s = ground arith
legal_routes-descend validate s = ground arith
legal_routes-descend join s = ground arith
legal_routes-descend classify_failure s = ground arith
legal_routes-descend evolve s = ground arith
legal_routes-descend distill s = ground arith
legal_routes-descend review s = ground arith
legal_routes-descend store s = ground arith
legal_routes-descend record_dead_end s = ground arith
legal_routes-descend reject_draft s = ground arith
legal_routes-descend finalize s = ground arith

hops_mono : (n : Node) (a b : ℕ) → a ≤ b → hops n a ≤ hops n b
unfolding hops
hops_mono intake a b h = omega arith
hops_mono n a b h = omega arith

hops-bound : (n : Node) (a : ℕ) → hops n a ≤ 5 * a + 10
unfolding hops
hops-bound intake a = omega arith
hops-bound n a = omega arith

module _ (host : Host) where
  -- What the loop relies on: a node that returns leaves no more attempts than it found, `solve`
  -- one fewer, and a state hop leaves no more than it found.
  pub record Spends : Type 0 where
    pub node_keeps :
        (n : Node) (s : RunState) (k : ℕ) (w w' : host.World) (out : NodeOutcome)
        → host.node_func n s k w ≡ (ok out, w')
        → attempts_left out.state ≤ attempts_left s
    pub solve_spends :
        (s : RunState) (k : ℕ) (w w' : host.World) (out : NodeOutcome)
        → host.node_func solve s k w ≡ (ok out, w')
        → attempts_left out.state ≤ attempts_left s - 1
    pub adjust_keeps :
        (n : Node) (k : ℕ) (s : RunState) (w : host.World)
        → attempts_left (host.adjust n k s w).0 ≤ attempts_left s

  module _ (laws : Spends) where
    snapshot-attempts_left :
        (s : RunState) (n : Node) (w : host.World)
        → attempts_left (ensure_pre_solve_snapshot host s n w).0 ≡ attempts_left s
    unfolding ensure_pre_solve_snapshot attempts_left
    snapshot-attempts_left s n w = ground arith

    prepare-attempts_left :
        (l : Loop host) (out : NodeOutcome) (r : Route) (w : host.World)
        → attempts_left (prepare host l out r w).state ≤ attempts_left out.state
    unfolding prepare attempts_left
    prepare-attempts_left l out r w =
        subst (λ a. attempts_left (prepare host l out r w).state ≤ a)
          (snapshot-attempts_left out.state r.target w)
          (laws.adjust_keeps l.node (attempt_for l.node l.state) _ _)

    hops_after-node :
        (n : Node) (s : RunState) (k : ℕ) (w w' : host.World) (out : NodeOutcome)
        → host.node_func n s k w ≡ (ok out, w')
        → hops_after n (attempts_left out.state) ≤ hops n (attempts_left s)
    unfolding hops hops_after
    hops_after-node solve s k w w' out ran =
        let h = laws.solve_spends s k w w' out ran in omega arith
    hops_after-node n s k w w' out ran =
        hops_mono n (attempts_left out.state) (attempts_left s) (laws.node_keeps n s k w w' out ran)

    -- Every round that moves on comes closer to the end.
    moved-descends :
        (e : Engine) (l l' : Loop host)
        → round host e l ≡ moved l'
        → hops l'.node (attempts_left l'.state) < hops l.node (attempts_left l.state)
    moved-descends e l l' h =
        let m = round-Moved host e l l' h in
        let kept =
          subst (λ s. attempts_left s ≤ attempts_left m.outcome.state) (sym m.committed)
            (prepare-attempts_left l m.outcome m.chosen m.hop_world) in
        let nearer =
          choose_route-All
            (λ r.
              hops r.target (attempts_left m.outcome.state)
              < hops_after l.node (attempts_left m.outcome.state))
            l.node m.outcome m.chosen (legal_routes-descend l.node m.outcome.state) m.chose in
        let ran = hops_after-node l.node l.state _ _ _ m.outcome m.ran in
        let mono =
          hops_mono l'.node (attempts_left l'.state) (attempts_left m.outcome.state) kept in
        let there = ap (λ n. hops n (attempts_left m.outcome.state)) m.to in omega arith

    -- A loop that starts with fewer hops ahead of it than rounds left never runs out of rounds, with or
    -- without a limit on its steps.
    execute-enough :
        (e : Engine) (left : ℕ) (limit : Option ℕ) (l : Loop host) (db : HopDb) (w : host.World)
        → hops l.node (attempts_left l.state) < left
        → execute host e left limit l ≢ ran_out db w
    unfolding execute
    execute-enough e zero limit l db w enough h = omega arith
    execute-enough e (suc left) (some zero) l db w enough h = cc
    execute-enough e (suc left) limit l db w enough h =
        split (round host e l) refl (execute-enough e left (one_less limit))
      where
        split :
            (r : Round host)
            → round host e l ≡ r
            → ((l' : Loop host) (d : HopDb) (v : host.World)
                → hops l'.node (attempts_left l'.state) < left
                → execute host e left (one_less limit) l' ≢ ran_out d v)
            → ⊥
        split (finished s d v) q later = cc (rw (q, execute) at h)
        split (moved l') q later =
            let nearer = moved-descends e l l' q in
            later l' db w (omega arith) (rw (q, execute) at h)
        split (failed err d v) q later = cc (rw (q, execute) at h)

    -- A run that is started with at most 97 attempts left never stops because its 500 rounds are used
    -- up, if its nodes and state hops spend attempts as `Spends` says.
    pub start-enough :
        (e : Engine) (limit : Option ℕ) (s : RunState) (db d : HopDb) (w v : host.World)
        → attempts_left s ≤ 97
        → start host e limit s db w ≢ ran_out d v
    unfolding start hops
    start-enough e limit s db d w v few h = split (latest_seq s.run_id db) refl
      where
        split : (o : Option ℕ) → latest_seq s.run_id db ≡ o → ⊥
        split (some _) q = cc (rw (q, start) at h)
        split none q =
            execute-enough e max_graph_steps limit
              (record { state = s; node = intake; next_seq = 0; db = db; world = w }) d v
              (omega arith) (rw (q, start) at h)

    -- A run that is resumed never stops because its 500 rounds are used up, if its last checkpoint,
    -- where there is one, leaves at most 97 attempts, and nodes and state hops spend attempts as
    -- `Spends` says.
    pub resume-enough :
        (e : Engine) (limit : Option ℕ) (run : String) (db d : HopDb) (w v : host.World)
        → ((c : Checkpoint) → latest run db ≡ some c → attempts_left c.state ≤ 97)
        → resume host e limit run db w ≢ ran_out d v
    unfolding resume resume_from
    resume-enough e limit run db d w v few h = split (latest run db) refl
      where
        from :
            (c : Checkpoint) (o : Option Node)
            → attempts_left c.state ≤ 97
            → resume_from host e limit run db w c o ≢ ran_out d v
        from c none few h = cc
        from c (some n) few h =
            let bound = hops-bound n (attempts_left c.state) in
            execute-enough e max_graph_steps limit
              (record {
                state = c.state;
                node = n;
                next_seq = c.seq + 1;
                db = db;
                world = host.restore_idle run w;
              })
              d v (omega arith) h

        split : (o : Option Checkpoint) → latest run db ≡ o → ⊥
        split none q = cc (rw (q, resume) at h)
        split (some c) q = from c c.next_node (few c q) (rw (q, resume) at h)
