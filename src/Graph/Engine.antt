-- ===== src/Graph/Engine.antt =====
-- graph/engine.py: the loop of `GraphOrchestrator` over the route table and the checkpoint store.
-- What the engine calls and does not implement itself enters as a `Host`: the node functions, the
-- hooks, the workspace snapshots and the clock, over a state of the world of their own. Telemetry
-- and the lease's heartbeat, which writes only the heartbeat columns, are left out.
pub mod Rounds
pub mod Choice
pub mod Legal
pub mod Termination
pub mod Resume
pub mod Held
mod Tests
use recertia.Prelude.{
  ℕ, zero, suc, ◌+◌, ◌==◌, String, Bool, true, false, not, ◌&&◌, ◌||◌, Option, none, some, List, [],
  ◌∷◌, ◌++◌, str_eq, find, length, is_none, is_some, is_empty, ltb, Outcome, ok, raised, ◌>>=◌,
  raise_if, if◌then◌else◌,
}
use recertia.Contracts.Run.{RunState, RouteEntry, WorkspaceSnapshot}
use recertia.Graph.Routes.{Node, intake, solve, finalize, node_no, Route, legal_routes}
use recertia.Graph.Store.{
  HopDb, Write, Checkpoint, EvalOutboxWrite, SaveError, save, latest, latest_seq,
}

-- nodes/context.py: what a node returns.
pub record NodeOutcome : Type 0 where
  pub state : RunState
  pub route : Option String
  pub note : Option String

pub data RunError : Type 0 where
  illegal_route ambiguous_route too_many_versions : RunError
  run_cancelled run_id_exists no_checkpoint : RunError
  node_raised : String → RunError
  not_saved : SaveError → RunError

-- graph/hooks.py: the value that a hook is given.
pub record Hop : Type 0 where
  pub run_id : String
  pub tenant : String
  pub node : Node
  pub attempt_no : ℕ
  pub seq : ℕ

pub record Host : Type 1 where
  pub World : Type 0
  -- all `before` hooks: whether one of them raised `RunCancelled`
  pub before : Hop → World → Bool × World
  -- `NODE_FUNCS`: a node's outcome, or the exception that left it
  pub node_func : Node → RunState → ℕ → World → Outcome String NodeOutcome × World
  pub after : Hop → NodeOutcome → World → World
  pub snapshot : String → World → String × World
  -- all `state_hops` in order, with the trajectory events they add
  pub adjust : Node → ℕ → RunState → World → RunState × List String × World
  -- the events of a hop, from the states around it, its route and the node's note
  pub trajectory : RunState → RunState → Node → ℕ → Option String → Option String → List String
  pub node_name : Node → String
  pub now : World → String
  pub on_finalize : RunState → World → World
  pub offload_idle : RunState → World → World
  pub restore_idle : String → World → World

abbrev pub max_graph_steps : ℕ
max_graph_steps = 500

-- The orchestrator's own settings for the run.
pub record Engine : Type 0 where
  pub tenant_id : String
  pub fencing_token : Option ℕ

abbrev pub first : List Route → Outcome RunError Route
first [] = raised ambiguous_route
first (r ∷ rest) = ok r

abbrev pub or_illegal : Option Route → Outcome RunError Route
or_illegal none = raised illegal_route
or_illegal (some r) = ok r

abbrev route_among : Option String → List Route → Outcome RunError Route
route_among (some name) legal = or_illegal (find (λ r. str_eq r.predicate_name name) legal)
route_among none legal = raise_if (not (length legal == 1)) ambiguous_route (first legal)

-- `_choose_route`
unfoldable pub choose_route : Node → NodeOutcome → Outcome RunError Route
choose_route node outcome = route_among outcome.route (legal_routes node outcome.state)

eval_outbox : String → RunState → Option EvalOutboxWrite
eval_outbox tenant s =
    if is_none s.terminal
    then none
    else some
        (record { tenant_id = tenant; run_id = s.run_id; attempt_no = s.attempt_no; payload = s })

abbrev pub is_node : Node → Node → Bool
is_node a b = node_no a == node_no b

abbrev first_snapshot : String → WorkspaceSnapshot
first_snapshot ref = record { attempt_no = 0; snapshot_ref = ref; restored = false }

pub attempt_for : Node → RunState → ℕ
attempt_for node s = if is_node node solve then s.attempt_no + 1 else s.attempt_no

abbrev or_description : Option String → String → String
or_description (some note) description = if str_eq note "" then description else note
or_description none description = description

-- What is left of a limit on the rounds after one of them.
abbrev pub one_less : Option ℕ → Option ℕ
one_less none = none
one_less (some zero) = some zero
one_less (some (suc n)) = some n

module _ (host : Host) where
  open host use {World}

  -- The variables of the loop, with the database and the world.
  pub record Loop : Type 0 where
    pub state : RunState
    pub node : Node
    pub next_seq : ℕ
    pub db : HopDb
    pub world : World

  -- How one round of the loop ends.
  pub data Round : Type 0 where
    finished : RunState → HopDb → World → Round
    moved : Loop → Round
    failed : RunError → HopDb → World → Round

  -- `_ensure_pre_solve_snapshot`
  pub ensure_pre_solve_snapshot : RunState → Node → World → RunState × World
  ensure_pre_solve_snapshot s target w =
      if not (is_node target solve) || not (is_empty s.workspace_snapshots)
      then (s, w)
      else let (ref, w') = host.snapshot s.run_id w in
        (record s { workspace_snapshots = first_snapshot ref ∷ [] }, w')

  -- The end of a hop: what `commit_hop` answered decides how the round ends.
  after_finalize : RunState → World → Outcome SaveError HopDb → HopDb → Round
  after_finalize s w (ok saved) db =
      finished s saved (if is_none s.terminal then w else host.on_finalize s w)
  after_finalize s w (raised e) db = failed (not_saved e) db w

  after_commit : RunState → Node → ℕ → World → Outcome SaveError HopDb → HopDb → Round
  after_commit s target seq w (ok saved) db =
      moved (record { state = s; node = target; next_seq = seq + 1; db = saved; world = w })
  after_commit s target seq w (raised e) db = failed (not_saved e) db w

  pub finish_hop : Engine → Loop → NodeOutcome → World → Round
  unfolding after_finalize attempt_for eval_outbox
  finish_hop e l outcome w =
      let s = outcome.state in
      after_finalize s w
        (save e.tenant_id s.run_id e.fencing_token
          (record {
            seq = l.next_seq;
            node = l.node;
            next_node = none;
            state = s;
            trajectory =
                host.trajectory l.state s l.node (attempt_for l.node l.state) outcome.route
                  outcome.note;
            route_entry = none;
            eval_outbox = eval_outbox e.tenant_id s;
          })
          l.db)
        l.db

  route_entry_of : Loop → Route → NodeOutcome → World → RouteEntry
  unfolding attempt_for
  route_entry_of l chosen outcome w = record {
    node = host.node_name l.node;
    route = chosen.predicate_name;
    reason = or_description outcome.note chosen.description;
    attempt_no = attempt_for l.node l.state;
    at = host.now w;
  }

  -- The state that a hop commits, what it logs, and the events that the state hops add.
  pub record Prepared : Type 0 where
    pub state : RunState
    pub entry : RouteEntry
    pub events : List String
    pub note : Option String
    pub world : World

  pub prepare : Loop → NodeOutcome → Route → World → Prepared
  unfolding ensure_pre_solve_snapshot route_entry_of attempt_for
  prepare l outcome chosen w =
      let (s1, w1) = ensure_pre_solve_snapshot outcome.state chosen.target w in
      let entry = route_entry_of l chosen outcome w1 in
      let logged = record s1 { route_log = s1.route_log ++ entry ∷ [] } in
      let (s2, events, w2) = host.adjust l.node (attempt_for l.node l.state) logged w1 in
      record { state = s2; entry = entry; events = events; note = outcome.note; world = w2 }

  -- The write of a hop to another node.
  pub hop_write : Loop → Route → Prepared → Write
  hop_write l chosen p = record {
    seq = l.next_seq;
    node = l.node;
    next_node = some chosen.target;
    state = p.state;
    trajectory =
        host.trajectory l.state p.state l.node (attempt_for l.node l.state)
          (some chosen.predicate_name) p.note
        ++ p.events;
    route_entry = some p.entry;
    eval_outbox = none;
  }

  commit_prepared : Engine → Loop → Route → Prepared → Round
  commit_prepared e l chosen p =
      after_commit p.state chosen.target l.next_seq p.world
        (save e.tenant_id p.state.run_id e.fencing_token (hop_write l chosen p) l.db) l.db

  -- From the chosen route to the committed hop.
  pub follow : Engine → Loop → NodeOutcome → Route → World → Round
  follow e l outcome chosen w = commit_prepared e l chosen (prepare l outcome chosen w)

  after_choice : Engine → Loop → NodeOutcome → World → Outcome RunError Route → Round
  after_choice e l outcome w (ok chosen) = follow e l outcome chosen w
  after_choice e l outcome w (raised err) = failed err l.db w

  -- The rest of a round once the node has returned.
  pub after_node : Engine → Loop → NodeOutcome → World → Round
  unfolding after_choice
  after_node e l outcome w =
      let s = outcome.state in
      if ltb s.budget.max_versions_written s.spent.versions_written
      then failed too_many_versions l.db w
      else if is_node l.node finalize
      then finish_hop e l outcome w
      else after_choice e l outcome w (choose_route l.node outcome)

  hop_of : Engine → Loop → Hop
  unfolding attempt_for
  hop_of e l = record {
    run_id = l.state.run_id;
    tenant = e.tenant_id;
    node = l.node;
    attempt_no = attempt_for l.node l.state;
    seq = l.next_seq;
  }

  run_node : Engine → Loop → Outcome String NodeOutcome × World → Round
  unfolding hop_of
  run_node e l (ok outcome, w) = after_node e l outcome (host.after (hop_of e l) outcome w)
  run_node e l (raised message, w) = failed (node_raised message) l.db w

  before_node : Engine → Loop → Bool × World → Round
  unfolding run_node attempt_for
  before_node e l (true, w) = failed run_cancelled l.db w
  before_node e l (false, w) =
      run_node e l (host.node_func l.node l.state (attempt_for l.node l.state) w)

  -- One round of the loop of `_execute`, past its two guards.
  pub round : Engine → Loop → Round
  unfolding before_node hop_of
  round e l = before_node e l (host.before (hop_of e l) l.world)

  -- How `_execute` ends: both `done` and `paused` return a state to the caller, and `ran_out` is the
  -- error after `MAX_GRAPH_STEPS` rounds.
  pub data Ending : Type 0 where
    done : RunState → HopDb → World → Ending
    paused : Loop → Ending
    ran_out : HopDb → World → Ending
    stopped : RunError → HopDb → World → Ending

  -- `_execute`, with the rounds that are left before `MAX_GRAPH_STEPS` and, if there is a limit,
  -- before `max_steps`.
  pub execute : Engine → ℕ → Option ℕ → Loop → Ending
  execute e zero limit l = ran_out l.db l.world
  execute e (suc left) (some zero) l =
      paused (record l { world = host.offload_idle l.state l.world })
  execute e (suc left) limit l = elim (round e l) [
    | finished s db w ↦ done s db w
    | moved l' ↦ execute e left (one_less limit) l'
    | failed err db w ↦ stopped err db w
  ]

  -- `start`, with the initial state that it builds; the lease around it is in Held.
  pub start : Engine → Option ℕ → RunState → HopDb → World → Ending
  start e limit s db w = elim (latest_seq s.run_id db) [
    | some _ ↦ stopped run_id_exists db w
    | none ↦
        execute e max_graph_steps limit
          (record { state = s; node = intake; next_seq = 0; db = db; world = w })
  ]

  pub resume_from : Engine → Option ℕ → String → HopDb → World → Checkpoint → Option Node → Ending
  resume_from e limit run db w c none = done c.state db w
  resume_from e limit run db w c (some node) = execute e max_graph_steps limit (record {
    state = c.state;
    node = node;
    next_seq = c.seq + 1;
    db = db;
    world = host.restore_idle run w;
  })

  -- `resume`: a no-op on a run that has reached `finalize`.
  pub resume : Engine → Option ℕ → String → HopDb → World → Ending
  unfolding resume_from
  resume e limit run db w = elim (latest run db) [
    | none ↦ stopped no_checkpoint db w
    | some c ↦ resume_from e limit run db w c c.next_node
  ]
