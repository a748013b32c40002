-- ===== src/Graph/Engine/Tests.antt =====
-- The theorems on the loop at a run that abstains: intake, retrieve, plan, finalize.
use recertia.Prelude.{
  ℕ, ◌+◌, ◌-◌, ◌≤◌, ◌≡◌, true, String, false, Option, none, some, [], ◌∷◌, Outcome, ok, raised,
  refl, arith, ap, subst,
}
use recertia.Contracts.Common.{abstain, abstained}
use recertia.Contracts.Run.{RunState}
use recertia.Persistence.Fence.{
  require_lease_token, check, on_missing, stored_status, token_matches,
}
use recertia.Graph.Routes.{
  Node, intake, solve, plan, validate, finalize, Route, routes, legal_routes,
}
use recertia.Graph.Store.{
  HopDb, Checkpoint, latest, latest_seq, save, commit_hop, key_taken, insert_hop, latest_row,
}
use recertia.Graph.Engine.{
  NodeOutcome, Engine, Host, Loop, Ending, done, paused, start, execute, Round, moved, round,
  attempt_for, before_node, run_node, after_node, after_choice, follow, commit_prepared,
  after_commit, prepare, hop_write, ensure_pre_solve_snapshot, finish_hop, after_finalize,
  choose_route,
}
use recertia.Graph.Engine.Termination.{attempts_left, Spends}
use recertia.Graph.Engine.Legal.{IsRow, round-IsRow}
use recertia.Graph.Engine.Resume.{Resumable}
use recertia.Graph.Engine.Held.{
  Owner, lease_key, HeldEnding, run_refused, ended, held_run, hold_lease, start_held, resume_held,
}
use recertia.Graph.Engine.Held.Bare.{bare_db}
use recertia.Graph.Engine.Held.Alike.{resume_held-ends_alike}
use recertia.Graph.Lease.{
  LockFile, RunBusy, Held, acquire, record_acquire, next_incarnation, held_row, upsert, release,
}
use recertia.Samples.{run_state}

-- What the nodes do to the state of this run.
abbrev runs : Node → RunState → RunState
runs plan s = record s { strategy = some abstain }
runs solve s = record s { spent = record s.spent { attempts = s.spent.attempts + 1 } }
runs finalize s = record s { terminal = some abstained }
runs _ s = s

abbrev host : Host
host = record {
  World = ℕ;
  before = λ _ w. (false, w);
  node_func = λ n s _ w. (ok (record { state = runs n s; route = none; note = none }), w + 1);
  after = λ _ _ w. w;
  snapshot = λ _ w. ("snapshot", w);
  adjust = λ _ _ s w. (s, [], w);
  trajectory = λ _ _ _ _ _ _. [];
  node_name = λ _. "node";
  now = λ _. "now";
  on_finalize = λ _ w. w;
  offload_idle = λ _ w. w;
  restore_idle = λ _ w. w;
}

abbrev engine : Engine
engine = record { tenant_id = "local"; fencing_token = none }

abbrev empty_db : HopDb
empty_db = record {
  checkpoints = [];
  run_summaries = [];
  eval_outbox = [];
  trajectory_events = [];
  route_entries = [];
  run_leases = [];
}

runs-keeps : (n : Node) (s : RunState) → attempts_left (runs n s) ≤ attempts_left s
unfolding attempts_left
runs-keeps plan s = omega arith
runs-keeps solve s = omega arith
runs-keeps finalize s = omega arith
runs-keeps _ s = omega arith

-- The state that a node returned.
abbrev returned : Outcome String NodeOutcome × ℕ → RunState
returned (ok out, w) = out.state
returned (raised e, w) = run_state

node-returned :
    (n : Node) (s : RunState) (k w w' : ℕ) (out : NodeOutcome)
    → host.node_func n s k w ≡ (ok out, w')
    → runs n s ≡ out.state
node-returned n s k w w' out h = ap returned h

runs-run_id : (n : Node) (s : RunState) → (runs n s).run_id ≡ s.run_id
runs-run_id plan s = refl
runs-run_id solve s = refl
runs-run_id finalize s = refl
runs-run_id _ s = refl

solve-spends : (s : RunState) → attempts_left (runs solve s) ≤ attempts_left s - 1
unfolding attempts_left
solve-spends s = omega arith

spends : Spends host
spends = record {
  node_keeps = λ n s k w w' out h.
      subst (λ x. attempts_left x ≤ attempts_left s) (node-returned n s k w w' out h)
        (runs-keeps n s);
  solve_spends = λ s k w w' out h.
      subst (λ x. attempts_left x ≤ attempts_left s - 1) (node-returned solve s k w w' out h)
        (solve-spends s);
  adjust_keeps = λ n k s w. omega arith;
}

resumable : Resumable host
resumable = record {
  node_keeps_id = λ n s k w w' out h.
      subst (λ (x : RunState). x.run_id ≡ s.run_id) (node-returned n s k w w' out h)
        (runs-run_id n s);
  adjust_keeps_id = λ n k s w. refl;
  restore_undoes = λ s w. refl;
}

abbrev initial : Loop host
initial = record { state = run_state; node = intake; next_seq = 0; db = empty_db; world = 0 }

-- What a run returned, and what it left.
abbrev paused_loop : Ending host → Loop host
paused_loop (paused l) = l
paused_loop _ = initial

abbrev end_state : Ending host → RunState
end_state (done s db w) = s
end_state _ = run_state

abbrev end_db : Ending host → HopDb
end_db (done s db w) = db
end_db _ = empty_db

abbrev ending_of : HeldEnding host → Ending host
ending_of run_refused = paused initial
ending_of (ended x) = x

abbrev owner : Owner
owner = record { tenant_id = "local"; owner_id = "worker"; ttl_s = 30 }

-- A lock file that no one holds, and that does not say who held it before.
abbrev lock_file : ℕ → LockFile
lock_file now = record {
  thread_free = true;
  flock_free = true;
  path_existed = false;
  prior_token = 0;
  prior_gen = none;
  new_gen = "gen";
  now_wall = now;
  now_mono = now;
}

abbrev stopped_early : Loop host
stopped_early =
    paused_loop (ending_of (start_held host owner (lock_file 1) (some 1) run_state empty_db 0))

abbrev in_one_go : Ending host
in_one_go = ending_of (start_held host owner (lock_file 2) none run_state empty_db 0)

abbrev held_or_none : Outcome RunBusy Held → Held
held_or_none (ok h) = h
held_or_none (raised e) = record { token = 0; incarnation = 0; rows = [] }

abbrev second_lease : Held
second_lease =
    held_or_none (acquire (lease_key owner "run-1") (lock_file 9) stopped_early.db.run_leases)

pauses :
    start_held host owner (lock_file 1) (some 1) run_state empty_db 0 ≡ ended (paused stopped_early)
unfolding start_held hold_lease held_run acquire record_acquire next_incarnation held_row upsert
    release stored_status token_matches start execute round before_node run_node after_node
    after_choice follow commit_prepared after_commit choose_route legal_routes save commit_hop
    key_taken require_lease_token check on_missing latest_seq latest latest_row hop_write prepare
pauses = refl

ends :
    start_held host owner (lock_file 2) none run_state empty_db 0
    ≡ ended (done (end_state in_one_go) (end_db in_one_go) 4)
unfolding start_held hold_lease held_run acquire record_acquire next_incarnation held_row upsert
    release stored_status token_matches start execute round before_node run_node after_node
    after_choice follow commit_prepared after_commit choose_route legal_routes save commit_hop
    key_taken require_lease_token check on_missing latest_seq latest latest_row hop_write finish_hop
    after_finalize prepare ensure_pre_solve_snapshot insert_hop
ends = refl

grants :
    acquire (lease_key owner "run-1") (lock_file 9) stopped_early.db.run_leases ≡ ok second_lease
unfolding start_held hold_lease held_run acquire record_acquire next_incarnation held_row upsert
    release stored_status token_matches start execute round before_node run_node after_node
    after_choice follow commit_prepared after_commit choose_route legal_routes save commit_hop
    key_taken require_lease_token check on_missing latest_seq latest latest_row hop_write insert_hop
    prepare
grants = refl

-- The second lease has a token of its own.
next_token : second_lease.token ≡ 2
unfolding start_held hold_lease held_run acquire record_acquire next_incarnation held_row upsert
    release stored_status token_matches start execute round before_node run_node after_node
    after_choice follow commit_prepared after_commit choose_route legal_routes save commit_hop
    key_taken require_lease_token check on_missing latest_seq latest latest_row hop_write insert_hop
    prepare
next_token = refl

resume_held-ends_alike_example :
    (d' : HopDb) × (resume_held host owner
        (lock_file 9)
        none
        "run-1"
        stopped_early.db
        stopped_early.world
      ≡ ended (done (end_state in_one_go) d' 4))
    × (bare_db d' ≡ bare_db (end_db in_one_go))
resume_held-ends_alike_example =
    resume_held-ends_alike host resumable owner (lock_file 1) (lock_file 2) (lock_file 9) 0
      run_state (end_state in_one_go) empty_db (end_db in_one_go) 0 4 stopped_early second_lease
      pauses ends grants

abbrev stored_db : HopDb
stored_db = record empty_db {
  checkpoints =
      record {
        run_id = "run-1";
        seq = 3;
        node = solve;
        next_node = some validate;
        state = run_state;
        fencing_token = none;
      }
      ∷ [];
}

some-injective : (a b : Checkpoint) → ◌≡◌ {A = Option Checkpoint} (some a) (some b) → a ≡ b
some-injective a b h = cc

stored_few : (c : Checkpoint) → latest "run-1" stored_db ≡ some c → attempts_left c.state ≤ 97
unfolding attempts_left latest latest_row
stored_few c h =
    subst (λ (x : Checkpoint). attempts_left x.state ≤ 97) (some-injective _ c h) (omega arith)

abbrev moved_loop : Round host → Loop host
moved_loop (moved l) = l
moved_loop _ = initial

abbrev second : Loop host
second = moved_loop (round host engine initial)

moves : round host engine initial ≡ moved second
unfolding round before_node run_node after_node after_choice follow commit_prepared after_commit
    choose_route legal_routes save commit_hop key_taken require_lease_token check on_missing
    hop_write
moves = refl

round-IsRow_example :
    (out : NodeOutcome) × (r : Route) × ((w : ℕ) × (w' : ℕ) × (host.node_func intake run_state
          (attempt_for intake run_state)
          w
        ≡ (ok out, w')))
    × IsRow r routes
    × (r.source ≡ intake)
    × (r.target ≡ second.node)
    × (r.predicate out.state ≡ true)
    × (out.state.spent.versions_written ≤ out.state.budget.max_versions_written)
round-IsRow_example = round-IsRow host engine initial second moves
