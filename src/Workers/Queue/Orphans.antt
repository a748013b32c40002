-- ===== src/Workers/Queue/Orphans.antt =====
-- workers/queue.py: the claims of workers whose process is gone, and the workers' heartbeat.
pub mod Reconciled
use recertia.Prelude.{
  ℕ, suc, ◌+◌, ◌==◌, ◌^◌, String, Bool, true, false, not, ◌&&◌, ◌||◌, Option, none, some, List, [],
  ◌∷◌, str_eq, find, any, count, leb, min, if◌then◌else◌, keep, length,
}
use recertia.Prelude.Rows.{update_where}
use recertia.Workers.Queue.{Status, queued, dead, is_held, Item, QueueDb, Worker, has_key}

module _ (pid_alive : ℕ → Bool) where
  -- The LEFT JOIN of a row with its worker, and the test on the pid that it gives.
  unfoldable pub has_live_worker : List Worker → Item → Bool
  has_live_worker workers q = elim q.claimed_by [
    | none ↦ false
    | some id ↦ elim (find (λ (w : Worker). str_eq w.worker_id id) workers) [
      | none ↦ false
      | some w ↦ pid_alive w.pid
    ]
  ]

  unfoldable pub orphans : QueueDb → List Item
  orphans db = keep (λ q. is_held q.status && not (has_live_worker db.workers q)) db.run_queue

  abbrev pub held_under : Item → Item → Bool
  held_under p q = has_key p.tenant_id p.run_id p.kind q && is_held q.status

  -- What becomes of a row that its orphan `p` stands for: dead with its last attempt, or queued
  -- again after a delay that doubles.
  unfoldable pub reconciled : ℕ → Item → Item → Item
  reconciled now p q =
      if leb p.max_attempts (p.attempt + 1)
      then record q { status = dead; error_code = some "lease_expired"; finished_at = some now }
      else record q {
        status = queued;
        attempt = p.attempt + 1;
        claimed_by = none;
        not_before = now + min (2 ^ (p.attempt + 1)) 60;
        heartbeat_at = none;
      }

  unfoldable pub reconcile_all : ℕ → List Item → List Item → List Item
  unfolding reconciled
  reconcile_all now [] rows = rows
  reconcile_all now (p ∷ found) rows =
      reconcile_all now found (update_where (held_under p) (reconciled now p) rows)

  -- `reconcile_orphans`, with the number of orphans.
  unfoldable pub reconcile_orphans : ℕ → QueueDb → ℕ × QueueDb
  unfolding orphans reconcile_all
  reconcile_orphans now db =
      (length (orphans db), record db { run_queue = reconcile_all now (orphans db) db.run_queue })

unfoldable pub heartbeat_worker : ℕ → String → QueueDb → QueueDb
heartbeat_worker now id db = record db {
  workers =
      update_where (λ (w : Worker). str_eq w.worker_id id)
        (λ w. record w {
          heartbeat_at = now;
          inflight =
              count
                (λ q. elim q.claimed_by [
                  | none ↦ false
                  | some by ↦ str_eq by id && is_held q.status
                ])
                db.run_queue;
        })
        db.workers;
}
