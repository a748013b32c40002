-- ===== src/Graph/Lease/Tests.antt =====
-- The theorems on leases at concrete tables: worker-a holds run-1, its heartbeat expires, and
-- worker-b takes the run over.
use recertia.Prelude.{true, some, [], ◌∷◌, ◌≡◌, ◌==◌, ok, raised, refl, opt_eq, if◌then◌else◌}
use recertia.Persistence.Fence.{
  held, LeaseRow, LeaseTable, lease_lost, reject, stored_status, require_lease_token,
}
use recertia.Graph.Lease.{
  LeaseKey, LockFile, Held, held_at, acquire, record_acquire, next_incarnation, same_generation,
  expired,
}
use recertia.Graph.Lease.Fencing.{TakesStored, acquire-TakesStored, row_of}
use recertia.Graph.Lease.History.{here, overtaken, old_token_refused}

abbrev stale_row : LeaseRow
stale_row = record {
  tenant_id = "local";
  run_id = "run-1";
  owner_id = "worker-a";
  fencing_token = 4;
  incarnation = 2;
  heartbeat_at = some 100;
  heartbeat_mono = some 10;
  lock_gen = some "gen-a";
  status = some held;
}

abbrev key : LeaseKey
key = record { tenant_id = "local"; run_id = "run-1"; owner_id = "worker-b"; ttl_s = 30 }

abbrev lock_file : LockFile
lock_file = record {
  thread_free = true;
  flock_free = true;
  path_existed = true;
  prior_token = 1;
  prior_gen = some "gen-z";
  new_gen = "gen-b";
  now_wall = 200;
  now_mono = 110;
}

abbrev table : LeaseTable
table = stale_row ∷ []

abbrev taken : Held
taken = held_at key lock_file 5 table (some stale_row) 3

taken_over : acquire key lock_file table ≡ ok taken
unfolding acquire record_acquire next_incarnation same_generation expired stored_status
taken_over = refl

acquire-TakesStored_example :
    (require_lease_token (some taken.rows) "local" "run-1" (some 4) reject
      ≡ (if opt_eq ◌==◌ (some 4) (some 5) then ok tt else raised lease_lost))
    × TakesStored key lock_file (row_of key table) taken
acquire-TakesStored_example =
    acquire-TakesStored key lock_file table taken (some 4) reject taken_over

old_token_refused_example :
    require_lease_token (some taken.rows) "local" "run-1" (some 4) reject ≡ raised lease_lost
old_token_refused_example =
    old_token_refused key table taken.rows taken.rows stale_row reject refl
      (overtaken lock_file taken taken_over) here
