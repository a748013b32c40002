-- ===== src/Graph/Store.antt =====
-- graph/store.py and runtime/hop.py: one hop is one transaction on the database of checkpoints. The
-- columns of times are left out, and so are the table of trajectory metadata, the import of an older
-- JSONL log into a run without events, and the outbox rows, of which `save` passes none. A trajectory
-- event is its text, and the JSON of a state is the state.
pub mod Reading
mod Tests
use recertia.Prelude.{
  ℕ, suc, ◌+◌, ◌==◌, String, Bool, true, false, not, ◌&&◌, ◌||◌, Option, none, some, List, [], ◌∷◌,
  ◌++◌, str_eq, find, any, keep, is_none, is_empty, ltb, leb, Outcome, ok, raised, ◌>>=◌, raise_if,
  if◌then◌else◌,
}
use recertia.Prelude.Rows.{update_where}
use recertia.Contracts.Common.{Terminal}
use recertia.Contracts.Run.{RunState, RouteEntry}
use recertia.Graph.Routes.{Node}
use recertia.Persistence.Fence.{
  LeaseTable, MissingRow, reject, allow, require_lease_token, lease_lost, LeaseLost,
}

pub record Checkpoint : Type 0 where
  pub run_id : String
  pub seq : ℕ
  pub node : Node
  pub next_node : Option Node
  pub state : RunState
  pub fencing_token : Option ℕ

-- The key of an eval observation, `{tenant}/{run}/{attempt}`, by its parts.
pub record EvalOutboxWrite : Type 0 where
  pub tenant_id : String
  pub run_id : String
  pub attempt_no : ℕ
  pub payload : RunState

pub record RunSummary : Type 0 where
  pub run_id : String
  pub terminal : Option Terminal
  pub cost_usd : ℕ
  pub attempt_no : ℕ

pub record TrajectoryRow : Type 0 where
  pub run_id : String
  pub seq : ℕ
  pub hop_seq : ℕ
  pub event : String

pub record StoredRoute : Type 0 where
  pub run_id : String
  pub seq : ℕ
  pub entry : RouteEntry

-- The tables of one tenant's `runtime.db`.
pub record HopDb : Type 0 where
  pub checkpoints : List Checkpoint
  pub run_summaries : List RunSummary
  pub eval_outbox : List EvalOutboxWrite
  pub trajectory_events : List TrajectoryRow
  pub route_entries : List StoredRoute
  pub run_leases : LeaseTable

-- What one hop writes.
pub record Write : Type 0 where
  pub seq : ℕ
  pub node : Node
  pub next_node : Option Node
  pub state : RunState
  pub trajectory : List String
  pub route_entry : Option RouteEntry
  pub eval_outbox : Option EvalOutboxWrite

pub data SaveError : Type 0 where
  save_lease_lost checkpoint_conflict : SaveError

abbrev pub at_seq : String → ℕ → Checkpoint → Bool
at_seq run seq c = str_eq c.run_id run && c.seq == seq

-- The primary keys (run_id, seq) of `checkpoints` and of `route_entries`.
unfoldable pub key_taken : String → Write → HopDb → Bool
key_taken run w db =
    any (at_seq run w.seq) db.checkpoints
    || (not (is_none w.route_entry)
        && any (λ r. str_eq r.run_id run && r.seq == w.seq) db.route_entries)

summary : String → Write → RunSummary
summary run w = record {
  run_id = run;
  terminal = w.state.terminal;
  cost_usd = w.state.spent.cost_usd;
  attempt_no = w.state.attempt_no;
}

upsert_summary : String → Write → List RunSummary → List RunSummary
unfolding summary
upsert_summary run w rows =
    if any (λ r. str_eq r.run_id run) rows
    then update_where (λ r. str_eq r.run_id run) (λ _. summary run w) rows
    else rows ++ summary run w ∷ []

abbrev same_observation : EvalOutboxWrite → EvalOutboxWrite → Bool
same_observation a b =
    str_eq a.tenant_id b.tenant_id && (str_eq a.run_id b.run_id && a.attempt_no == b.attempt_no)

-- INSERT ... ON CONFLICT(observation_key) DO NOTHING.
enqueue_eval : Option EvalOutboxWrite → List EvalOutboxWrite → List EvalOutboxWrite
enqueue_eval none rows = rows
enqueue_eval (some e) rows = if any (same_observation e) rows then rows else rows ++ e ∷ []

-- `COALESCE(MAX(seq), -1) + 1` over the events of one run.
pub next_event_seq : String → List TrajectoryRow → ℕ
next_event_seq run [] = 0
next_event_seq run (r ∷ rows) =
    let later = next_event_seq run rows in
    if str_eq r.run_id run && leb later r.seq then r.seq + 1 else later

pub event_rows : String → ℕ → ℕ → List String → List TrajectoryRow
event_rows run hop_seq from [] = []
event_rows run hop_seq from (e ∷ events) =
    record { run_id = run; seq = from; hop_seq = hop_seq; event = e }
    ∷ event_rows run hop_seq (from + 1) events

store_route : String → ℕ → Option RouteEntry → List StoredRoute → List StoredRoute
store_route run seq none rows = rows
store_route run seq (some e) rows = rows ++ record { run_id = run; seq = seq; entry = e } ∷ []

abbrev pub checkpoint_of : String → Option ℕ → Write → Checkpoint
checkpoint_of run token w = record {
  run_id = run;
  seq = w.seq;
  node = w.node;
  next_node = w.next_node;
  state = w.state;
  fencing_token = token;
}

-- `insert_hop`, where no key is taken.
unfoldable pub insert_hop : String → Option ℕ → Write → HopDb → HopDb
unfolding upsert_summary enqueue_eval store_route
insert_hop run token w db = record {
  checkpoints = db.checkpoints ++ checkpoint_of run token w ∷ [];
  run_summaries = upsert_summary run w db.run_summaries;
  eval_outbox = enqueue_eval w.eval_outbox db.eval_outbox;
  trajectory_events =
      db.trajectory_events
      ++ event_rows run w.seq (next_event_seq run db.trajectory_events) w.trajectory;
  route_entries = store_route run w.seq w.route_entry db.route_entries;
  run_leases = db.run_leases;
}

-- The token-less writers are the ones that a missing row allows.
abbrev pub missing_row_of : Option ℕ → MissingRow
missing_row_of none = allow
missing_row_of (some _) = reject

abbrev pub fenced : Outcome LeaseLost (Unit {0}) → Outcome SaveError HopDb → Outcome SaveError HopDb
fenced (ok _) rest = rest
fenced (raised _) rest = raised save_lease_lost

-- `commit_hop`: the fence and the inserts in one transaction, which an error rolls back.
unfoldable pub commit_hop : String → String → Option ℕ → Write → HopDb → Outcome SaveError HopDb
commit_hop tenant run token w db =
    fenced (require_lease_token (some db.run_leases) tenant run token (missing_row_of token))
      (raise_if (key_taken run w db) checkpoint_conflict (ok (insert_hop run token w db)))

-- `CheckpointStore.save` fences once before the transaction and once in it.
unfoldable pub save : String → String → Option ℕ → Write → HopDb → Outcome SaveError HopDb
save tenant run token w db =
    fenced (require_lease_token (some db.run_leases) tenant run token (missing_row_of token))
      (commit_hop tenant run token w db)

-- `ORDER BY seq DESC LIMIT 1` over the rows of one run.
abbrev pub later_of : Checkpoint → Option Checkpoint → Option Checkpoint
later_of c none = some c
later_of c (some d) = if ltb d.seq c.seq then some c else some d

unfoldable pub latest_row : String → List Checkpoint → Option Checkpoint
latest_row run [] = none
latest_row run (c ∷ rows) =
    let rest = latest_row run rows in if str_eq c.run_id run then later_of c rest else rest

unfoldable pub latest : String → HopDb → Option Checkpoint
latest run db = latest_row run db.checkpoints

unfoldable pub latest_seq : String → HopDb → Option ℕ
latest_seq run db = elim (latest run db) [ none ↦ none | some c ↦ some c.seq ]
