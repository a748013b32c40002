-- ===== src/Graph/Engine/Held.antt =====
-- `_hold_lease` of graph/engine.py around `start` and `resume`: every call acquires the run's lease,
-- runs under the token that it got, and gives the row back, also when it fails. What the lock file
-- answers is an argument of each call.
pub mod Bare
pub mod Tokens
pub mod Alike
use recertia.Prelude.{ℕ, String, Option, none, some, Outcome, ok, raised}
use recertia.Contracts.Run.{RunState}
use recertia.Graph.Store.{HopDb, latest_seq}
use recertia.Graph.Lease.{LeaseKey, LockFile, RunBusy, Held, acquire, release}
use recertia.Graph.Engine.{
  Engine, Host, Ending, done, paused, ran_out, stopped, run_id_exists, start, resume,
}

-- What the orchestrator's leases share.
pub record Owner : Type 0 where
  pub tenant_id : String
  pub owner_id : String
  pub ttl_s : ℕ

abbrev pub lease_key : Owner → String → LeaseKey
lease_key owner run = record {
  tenant_id = owner.tenant_id;
  run_id = run;
  owner_id = owner.owner_id;
  ttl_s = owner.ttl_s;
}

abbrev pub engine_of : Owner → Option ℕ → Engine
engine_of owner token = record { tenant_id = owner.tenant_id; fencing_token = token }

module _ (host : Host) where
  -- How a call ends: the lease was refused, or the run ended so.
  pub data HeldEnding : Type 0 where
    run_refused : HeldEnding
    ended : Ending host → HeldEnding

  abbrev pub with_db : (HopDb → HopDb) → Ending host → Ending host
  with_db f (done s d w) = done s (f d) w
  with_db f (paused l) = paused (record l { db = f l.db })
  with_db f (ran_out d w) = ran_out (f d) w
  with_db f (stopped e d w) = stopped e (f d) w

  abbrev pub released_db : LeaseKey → HopDb → HopDb
  released_db key d = record d { run_leases = release key d.run_leases }

  unfoldable pub held_run :
      LeaseKey → HopDb → (Option ℕ → HopDb → Ending host) → Outcome RunBusy Held → HeldEnding
  held_run key db body (raised e) = run_refused
  held_run key db body (ok h) =
      ended (with_db (released_db key) (body (some h.token) (record db { run_leases = h.rows })))

  -- `_hold_lease`
  unfoldable pub hold_lease :
      LeaseKey → LockFile → HopDb → (Option ℕ → HopDb → Ending host) → HeldEnding
  unfolding held_run
  hold_lease key file db body = held_run key db body (acquire key file db.run_leases)

  unfoldable pub start_held :
      Owner → LockFile → Option ℕ → RunState → HopDb → host.World → HeldEnding
  unfolding hold_lease
  start_held owner file limit s db w = elim (latest_seq s.run_id db) [
    | some _ ↦ ended (stopped run_id_exists db w)
    | none ↦
        hold_lease (lease_key owner s.run_id) file db
          (λ token d. start host (engine_of owner token) limit s d w)
  ]

  unfoldable pub resume_held :
      Owner → LockFile → Option ℕ → String → HopDb → host.World → HeldEnding
  unfolding hold_lease
  resume_held owner file limit run db w =
      hold_lease (lease_key owner run) file db
        (λ token d. resume host (engine_of owner token) limit run d w)
