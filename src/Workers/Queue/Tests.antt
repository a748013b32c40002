-- ===== src/Workers/Queue/Tests.antt =====
-- The theorems on the queue at a small queue: run-1 is queued, and a dead worker holds run-2.
use recertia.Prelude.{
  ℕ, ◌+◌, ◌≤◌, ◌≡◌, ◌≢◌, String, Bool, false, Option, none, some, [], ◌∷◌, raised, refl, arith,
}
use recertia.Prelude.Int.{pos, negsuc, ◌+ℤ◌, ◌-ℤ◌}
use recertia.Workers.Queue.{
  queued, claimed, Item, QueueItem, Claim, QueueDb, Settings, stale_claim, open_mode, occupied,
  depth, depth_cap, get, enqueue, enqueue_row, ensure_tenant, fresh,
}
use recertia.Workers.Queue.Claims.{
  claim_one, claim_row, pick, eligible, limit_of, take_claim, charge_sched, mark_running,
  QueueStatus, finish, requeue,
}
use recertia.Workers.Queue.Claims.InFlight.{claim_one-keeps_limit}
use recertia.Workers.Queue.Orphans.{orphans, reconcile_orphans}
use recertia.Workers.Queue.Orphans.Reconciled.{orphans-reconcile_orphans}
use recertia.Workers.Queue.Depth.{enqueue-keeps_depth}
use recertia.Workers.Queue.Tokens.{HasUniqueKeys, claims}
use recertia.Workers.Queue.Tokens.Fencing.{here, step, old_claim_refused, reach-HasUniqueKeys}

abbrev waiting : Item
waiting = record {
  tenant_id = "local";
  run_id = "run-1";
  kind = "run";
  status = queued;
  priority = pos 0;
  enqueued_at = 10;
  not_before = 10;
  claimed_by = none;
  heartbeat_at = none;
  claim_token = 1;
  attempt = 1;
  max_attempts = 3;
  payload = "{}";
  error_code = none;
  finished_at = none;
  cancel_requested = false;
}

abbrev settings : Settings
settings = record {
  sched_deficit_cap = 10;
  queue_max_attempts = 3;
  tenant_max_in_flight = 2;
  tenant_max_queue_depth = 5;
}

abbrev db : QueueDb
db = record {
  run_queue = waiting ∷ [];
  tenant_sched =
      record { tenant_id = "local"; deficit = pos 0; weight = 1; last_claim_at = none } ∷ [];
  tenant_limits = record { tenant_id = "local"; max_in_flight = 1; max_queue_depth = 2 } ∷ [];
  maintenance = some open_mode;
  workers = [];
}

abbrev granted : Claim
granted = record {
  tenant_id = "local";
  run_id = "run-1";
  kind = "run";
  claim_token = 2;
  attempt = 1;
  payload = "{}";
}

abbrev claimed_db : QueueDb
claimed_db = record db {
  run_queue =
      record waiting {
        status = claimed;
        claimed_by = some "worker-b";
        claim_token = 2;
        heartbeat_at = some 20;
      }
      ∷ [];
  tenant_sched =
      record { tenant_id = "local"; deficit = negsuc 0; weight = 1; last_claim_at = some 20 } ∷ [];
}

claims_it : claim_one settings "worker-b" 20 db ≡ (some granted, claimed_db)
unfolding claim_one claim_row pick eligible limit_of take_claim charge_sched occupied ◌+ℤ◌ ◌-ℤ◌
claims_it = refl

one_key : HasUniqueKeys db.run_queue
one_key t r k = ground arith

claim_one-keeps_limit_example :
    (db.maintenance ≡ some open_mode)
    × ((m : ℕ) × (limit_of "local" db ≡ some m) × (occupied "local" claimed_db.run_queue ≤ m))
    × (occupied "local" claimed_db.run_queue ≡ occupied "local" db.run_queue + 1)
    × ((tenant : String)
        → tenant ≢ "local"
        → occupied tenant claimed_db.run_queue ≡ occupied tenant db.run_queue)
claim_one-keeps_limit_example =
    claim_one-keeps_limit settings "worker-b" 20 db claimed_db granted claims_it

abbrev old_claim : Claim
old_claim = record granted { claim_token = 1 }

abbrev gone : ℕ → Bool
gone _ = false

old_claim_refused_example :
    ((now : ℕ) → mark_running now old_claim claimed_db ≡ raised stale_claim)
    × ((now : ℕ) (s : QueueStatus) (error : Option String)
        → finish now old_claim s error claimed_db ≡ raised stale_claim)
    × ((now delay : ℕ) (error : String)
        → requeue now delay error old_claim claimed_db ≡ raised stale_claim)
old_claim_refused_example =
    old_claim_refused settings gone "worker-b" 20 db claimed_db claimed_db old_claim granted one_key
      claims_it (refl, refl, refl) (omega arith) here

orphans-reconcile_orphans_example : orphans gone ((reconcile_orphans gone 30 claimed_db).1) ≡ []
orphans-reconcile_orphans_example = orphans-reconcile_orphans gone 30 claimed_db

abbrev item : QueueItem
item = record {
  tenant_id = "local";
  run_id = "run-2";
  kind = "run";
  payload = "{}";
  priority = pos 0;
  max_attempts = 3;
  enqueued_at = none;
  not_before = none;
}

abbrev queued_db : QueueDb
queued_db = record db { run_queue = waiting ∷ fresh settings 40 item ∷ [] }

enqueues_it : enqueue settings 40 item false db ≡ (none, queued_db)
unfolding enqueue enqueue_row ensure_tenant get depth depth_cap
enqueues_it = refl

enqueue-keeps_depth_example :
    depth "local" queued_db.run_queue
    ≤ depth_cap settings "local" (ensure_tenant settings "local" db)
enqueue-keeps_depth_example =
    enqueue-keeps_depth settings 40 item false db queued_db one_key enqueues_it

reach-HasUniqueKeys_example : HasUniqueKeys ((claim_one settings "worker-b" 20 db).1).run_queue
reach-HasUniqueKeys_example =
    reach-HasUniqueKeys settings gone db ((claim_one settings "worker-b" 20 db).1)
      (step (claims "worker-b" 20 db) here) one_key
