-- ===== src/Workers/Queue.antt =====
-- workers/queue.py: `RunQueue`, the table `run_queue` of one `control.db` with the tables that decide
-- what may be claimed. Times are numbers, a payload is its JSON text, and tenants are ones that
-- `tenant_id` accepts; the defaults of the settings are a record, and so is whether a pid is alive.
pub mod Claims
pub mod Orphans
pub mod Tokens
pub mod Depth
mod Tests
use recertia.Prelude.{
  ℕ, suc, ◌+◌, ◌*◌, ◌==◌, String, Bool, true, false, not, ◌&&◌, ◌||◌, Option, none, some, List, [],
  ◌∷◌, ◌++◌, str_eq, find, any, count, keep, is_none, ltb, leb, min, Outcome, ok, raised,
  if◌then◌else◌, contains,
}
use recertia.Prelude.Int.{ℤ, pos, ◌+ℤ◌, ◌-ℤ◌, min_ℤ, ltb_ℤ, eq_ℤ}
use recertia.Prelude.Rows.{update_where}

pub data Status : Type 0 where
  queued claimed running succeeded failed cancelled dead : Status

-- `_TERMINAL`
abbrev pub is_terminal : Status → Bool
is_terminal queued = false
is_terminal claimed = false
is_terminal running = false
is_terminal _ = true

-- `status IN ('claimed', 'running')`
abbrev pub is_held : Status → Bool
is_held claimed = true
is_held running = true
is_held _ = false

abbrev pub is_queued : Status → Bool
is_queued queued = true
is_queued _ = false

-- A row of `run_queue`.
pub record Item : Type 0 where
  pub tenant_id : String
  pub run_id : String
  pub kind : String
  pub status : Status
  pub priority : ℤ
  pub enqueued_at : ℕ
  pub not_before : ℕ
  pub claimed_by : Option String
  pub heartbeat_at : Option ℕ
  pub claim_token : ℕ
  pub attempt : ℕ
  pub max_attempts : ℕ
  pub payload : String
  pub error_code : Option String
  pub finished_at : Option ℕ
  pub cancel_requested : Bool

pub record QueueItem : Type 0 where
  pub tenant_id : String
  pub run_id : String
  pub kind : String
  pub payload : String
  pub priority : ℤ
  pub max_attempts : ℕ
  pub enqueued_at : Option ℕ
  pub not_before : Option ℕ

pub record Claim : Type 0 where
  pub tenant_id : String
  pub run_id : String
  pub kind : String
  pub claim_token : ℕ
  pub attempt : ℕ
  pub payload : String

pub record Sched : Type 0 where
  pub tenant_id : String
  pub deficit : ℤ
  pub weight : ℕ
  pub last_claim_at : Option ℕ

pub record Limits : Type 0 where
  pub tenant_id : String
  pub max_in_flight : ℕ
  pub max_queue_depth : ℕ

pub record Worker : Type 0 where
  pub worker_id : String
  pub started_at : ℕ
  pub heartbeat_at : ℕ
  pub hostname : String
  pub pid : ℕ
  pub capacity : ℕ
  pub inflight : ℕ

pub data Mode : Type 0 where
  open_mode quiescing frozen : Mode

pub record QueueDb : Type 0 where
  pub run_queue : List Item
  pub tenant_sched : List Sched
  pub tenant_limits : List Limits
  pub maintenance : Option Mode
  pub workers : List Worker

pub record Settings : Type 0 where
  pub sched_deficit_cap : ℕ
  pub queue_max_attempts : ℕ
  pub tenant_max_in_flight : ℕ
  pub tenant_max_queue_depth : ℕ

pub data QueueError : Type 0 where
  unsupported_kind quota_exceeded already_exists stale_claim : QueueError

-- The primary key of `run_queue`.
abbrev pub has_key : String → String → String → Item → Bool
has_key tenant run kind q = str_eq q.tenant_id tenant && (str_eq q.run_id run && str_eq q.kind kind)

abbrev pub of_tenant : String → Limits → Bool
of_tenant tenant lim = str_eq lim.tenant_id tenant

-- The rows that `_claim_one` counts against `max_in_flight`: those of every kind.
unfoldable pub occupied : String → List Item → ℕ
occupied tenant rows = count (λ q. str_eq q.tenant_id tenant && is_held q.status) rows

-- `inflight`
unfoldable pub inflight : String → List Item → ℕ
inflight tenant rows =
    count (λ q. str_eq q.tenant_id tenant && (str_eq q.kind "run" && is_held q.status)) rows

unfoldable pub depth : String → List Item → ℕ
depth tenant rows = count (λ q. str_eq q.tenant_id tenant && is_queued q.status) rows

-- `outstanding`
unfoldable pub outstanding : List Item → ℕ
outstanding rows = count (λ q. is_queued q.status || is_held q.status) rows

-- `get`
unfoldable pub get : String → String → String → QueueDb → Option Item
get tenant run kind db = find (has_key tenant run kind) db.run_queue

abbrev pub sched_of : String → Sched → Bool
sched_of tenant s = str_eq s.tenant_id tenant

-- `_ensure_tenant`: a row of defaults where there is none.
unfoldable pub ensure_tenant : Settings → String → QueueDb → QueueDb
ensure_tenant st tenant db = record db {
  tenant_sched =
      if any (sched_of tenant) db.tenant_sched
      then db.tenant_sched
      else db.tenant_sched
        ++ record { tenant_id = tenant; deficit = pos 0; weight = 1; last_claim_at = none } ∷ [];
  tenant_limits =
      if any (of_tenant tenant) db.tenant_limits
      then db.tenant_limits
      else db.tenant_limits
        ++ record {
          tenant_id = tenant;
          max_in_flight = st.tenant_max_in_flight;
          max_queue_depth = st.tenant_max_queue_depth;
        }
          ∷ [];
}

abbrev or_else : Option ℕ → ℕ → ℕ
or_else none d = d
or_else (some n) d = n

-- `item.max_attempts or self._default_max_attempts`
abbrev attempts_or : ℕ → ℕ → ℕ
attempts_or n d = if n == 0 then d else n

-- The depth allowed to a tenant.
unfoldable pub depth_cap : Settings → String → QueueDb → ℕ
depth_cap st tenant db = elim (find (of_tenant tenant) db.tenant_limits) [
  | none ↦ st.tenant_max_queue_depth
  | some lim ↦ lim.max_queue_depth
]

-- The row that `enqueue` inserts.
unfoldable pub fresh : Settings → ℕ → QueueItem → Item
fresh st now item = record {
  tenant_id = item.tenant_id;
  run_id = item.run_id;
  kind = item.kind;
  status = queued;
  priority = item.priority;
  enqueued_at = or_else item.enqueued_at now;
  not_before = or_else item.not_before (or_else item.enqueued_at now);
  claimed_by = none;
  heartbeat_at = none;
  claim_token = 0;
  attempt = 0;
  max_attempts = attempts_or item.max_attempts st.queue_max_attempts;
  payload = item.payload;
  error_code = none;
  finished_at = none;
  cancel_requested = false;
}

-- The row that takes the place of a terminal one: it keeps the claim token.
unfoldable pub renewed : Settings → ℕ → QueueItem → Item → Item
unfolding fresh
renewed st now item q = record (fresh st now item) {
  tenant_id = q.tenant_id;
  run_id = q.run_id;
  kind = q.kind;
  claim_token = q.claim_token;
}

abbrev pub known_kind : String → Bool
known_kind kind = contains kind ("run" ∷ "eval" ∷ "job" ∷ [])

unfoldable pub enqueue_row :
    Settings → ℕ → QueueItem → Bool → QueueDb → Option Item → Outcome QueueError QueueDb
enqueue_row st now item replace db none =
    if leb (depth_cap st item.tenant_id db) (depth item.tenant_id db.run_queue)
    then raised quota_exceeded
    else ok (record db { run_queue = db.run_queue ++ fresh st now item ∷ [] })
enqueue_row st now item replace db (some q) =
    if not (replace && is_terminal q.status)
    then raised already_exists
    else if leb (depth_cap st item.tenant_id db) (depth item.tenant_id db.run_queue)
    then raised quota_exceeded
    else ok (record db {
      run_queue =
          update_where (has_key item.tenant_id item.run_id item.kind) (renewed st now item)
            db.run_queue;
    })

-- What a refused `enqueue` leaves behind is the tenant's rows of defaults.
abbrev pub or_kept : Outcome QueueError QueueDb → QueueDb → Option QueueError × QueueDb
or_kept (ok db') db = (none, db')
or_kept (raised e) db = (some e, db)

unfoldable pub enqueue : Settings → ℕ → QueueItem → Bool → QueueDb → Option QueueError × QueueDb
unfolding enqueue_row
enqueue st now item replace db =
    if not (known_kind item.kind)
    then (some unsupported_kind, db)
    else let db1 = ensure_tenant st item.tenant_id db in
      or_kept (enqueue_row st now item replace db1 (get item.tenant_id item.run_id item.kind db1))
        db1

-- `max_in_flight` and `max_queue_depth` give a tenant its rows of defaults before they read.
unfoldable pub max_in_flight : Settings → String → QueueDb → ℕ × QueueDb
max_in_flight st tenant db =
    let db1 = ensure_tenant st tenant db in
    (
      elim (find (of_tenant tenant) db1.tenant_limits) [
        | none ↦ st.tenant_max_in_flight
        | some lim ↦ lim.max_in_flight
      ],
      db1,
    )

unfoldable pub max_queue_depth : Settings → String → QueueDb → ℕ × QueueDb
max_queue_depth st tenant db =
    let db1 = ensure_tenant st tenant db in (depth_cap st tenant db1, db1)

-- What an operator sets: the limit of a tenant, the maintenance mode, and a worker's registration.
unfoldable pub set_max_in_flight : Settings → String → ℕ → QueueDb → QueueDb
set_max_in_flight st tenant n db =
    let db1 = ensure_tenant st tenant db in
    record db1 {
      tenant_limits =
          update_where (of_tenant tenant) (λ lim. record lim { max_in_flight = n })
            db1.tenant_limits;
    }

unfoldable pub set_maintenance : Mode → QueueDb → QueueDb
set_maintenance mode db = record db {
  maintenance = if is_none db.maintenance then none else some mode;
}

unfoldable pub register_worker : ℕ → String → ℕ → String → ℕ → QueueDb → QueueDb
register_worker now id capacity host pid db = record db {
  workers =
      if any (λ w. str_eq w.worker_id id) db.workers
      then update_where (λ w. str_eq w.worker_id id)
          (λ w. record w { heartbeat_at = now; hostname = host; pid = pid; capacity = capacity })
          db.workers
      else db.workers
        ++ record {
          worker_id = id;
          started_at = now;
          heartbeat_at = now;
          hostname = host;
          pid = pid;
          capacity = capacity;
          inflight = 0;
        }
          ∷ [];
}
