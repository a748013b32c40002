-- ===== src/Graph/Store/Tests.antt =====
-- The theorems on the checkpoint store at one saved hop.
use recertia.Prelude.{◌+◌, ℕ, none, some, [], ◌∷◌, ◌≡◌, ok, refl, arith}
use recertia.Graph.Routes.{intake, retrieve}
use recertia.Graph.Store.{
  HopDb, Write, checkpoint_of, insert_hop, commit_hop, save, key_taken, latest,
}
use recertia.Graph.Store.Reading.{Below, save-latest, save-Leaves, Leaves}
use recertia.Persistence.Fence.{require_lease_token, check, on_missing}
use recertia.Samples.{run_state}

abbrev write : ℕ → Write
write n = record {
  seq = n;
  node = intake;
  next_node = some retrieve;
  state = run_state;
  trajectory = "hop" ∷ [];
  route_entry = none;
  eval_outbox = none;
}

abbrev db : HopDb
db = record {
  checkpoints = checkpoint_of "run-1" none (write 0) ∷ [];
  run_summaries = [];
  eval_outbox = [];
  trajectory_events = [];
  route_entries = [];
  run_leases = [];
}

saved : save "local" "run-1" none (write 1) db ≡ ok (insert_hop "run-1" none (write 1) db)
unfolding save commit_hop require_lease_token check on_missing key_taken
saved = refl

save-latest_example :
    (latest "run-1" (insert_hop "run-1" none (write 1) db)
      ≡ some (checkpoint_of "run-1" none (write 1)))
    × Below "run-1" (1 + 1) (insert_hop "run-1" none (write 1) db).checkpoints
save-latest_example =
    save-latest "local" "run-1" none (write 1) db (insert_hop "run-1" none (write 1) db) saved
      (λ _. omega arith, tt)

save-Leaves_example :
    Leaves "run-1" 0
      (checkpoint_of "run-1" none (write 0))
      "run-1"
      1
      (save "local" "run-1" none (write 1) db)
save-Leaves_example =
    save-Leaves "local" "run-1" none (write 1) db "run-1" 0 (checkpoint_of "run-1" none (write 0))
      refl
