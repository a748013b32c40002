-- ===== src/Graph/Engine/Held/Alike.antt =====
-- Pausing and resuming under leases: each call has a lease and a token of its own.
use recertia.Prelude.{
  ℕ, suc, ◌≡◌, ◌==◌, ◌∙◌, String, true, Option, none, some, Outcome, ok, raised, refl, sym, ap,
  arith, opt_eq,
}
use recertia.Contracts.Run.{RunState}
use recertia.Persistence.Fence.{LeaseTable, reject}
use recertia.Graph.Store.{HopDb, Checkpoint, latest, latest_seq}
use recertia.Graph.Lease.{LeaseKey, LockFile, RunBusy, Held, acquire}
use recertia.Graph.Lease.Fencing.{acquire-fences}
use recertia.Graph.Engine.{
  Host, Loop, Ending, done, paused, ran_out, stopped, run_id_exists, start, resume,
}
use recertia.Graph.Engine.Resume.{Resumable, resume-ends_alike, paused-latest}
use recertia.Graph.Engine.Held.{
  Owner, lease_key, engine_of, HeldEnding, ended, with_db, released_db, held_run, hold_lease,
  start_held, resume_held,
}
use recertia.Graph.Engine.Held.Bare.{bare, bare_db, Admits, latest-bare, latest_seq-bare}
use recertia.Graph.Engine.Held.Tokens.{bare_loop, start-bare, resume-bare}

own_token : (t : ℕ) → opt_eq ◌==◌ (some t) (some t) ≡ true
own_token t = ground arith

acquired-Admits :
    (owner : Owner) (run : String) (file : LockFile) (db : HopDb) (h : Held)
    → acquire (lease_key owner run) file db.run_leases ≡ ok h
    → Admits owner.tenant_id h.token run (record db { run_leases = h.rows })
acquired-Admits owner run file db h e =
    acquire-fences (lease_key owner run) file db.run_leases h e (some h.token) reject
    ∙ rw (own_token h.token) refl

module _ (host : Host) (laws : Resumable host) (owner : Owner) where
  released-bare :
      (key : LeaseKey) (x : Ending host)
      → with_db host bare_db (with_db host (released_db host key) x) ≡ with_db host bare_db x
  released-bare key (done s d w) = refl
  released-bare key (paused l) = refl
  released-bare key (ran_out d w) = refl
  released-bare key (stopped e d w) = refl

  -- A call that held the lease did what a run without tokens does.
  held_run-bare :
      (run : String) (file : LockFile) (db : HopDb) (body : Option ℕ → HopDb → Ending host)
      (plain : Ending host) (r : Outcome RunBusy Held) (x : Ending host)
      → acquire (lease_key owner run) file db.run_leases ≡ r
      → ((t : ℕ) (rows : LeaseTable)
          → Admits owner.tenant_id t run (record db { run_leases = rows })
          → with_db host bare_db (body (some t) (record db { run_leases = rows })) ≡ plain)
      → held_run host (lease_key owner run) db body r ≡ ended x
      → with_db host bare_db x ≡ plain
  unfolding held_run
  held_run-bare run file db body plain (raised e) x got same h = cc
  held_run-bare run file db body plain (ok held) x got same h =
      let ran = body (some held.token) (record db { run_leases = held.rows }) in
      let released : with_db host (released_db host (lease_key owner run)) ran ≡ x = cc in
      ap (with_db host bare_db) (sym released)
      ∙ released-bare (lease_key owner run) ran
      ∙ same held.token held.rows (acquired-Admits owner run file db held got)

  start_held-bare :
      (file : LockFile) (limit : Option ℕ) (s : RunState) (db : HopDb) (w : host.World)
      (x : Ending host)
      → start_held host owner file limit s db w ≡ ended x
      → with_db host bare_db x ≡ start host (engine_of owner none) limit s (bare_db db) w
  unfolding start_held hold_lease start
  start_held-bare file limit s db w x h = split (latest_seq s.run_id db) refl
    where
      split :
          (o : Option ℕ)
          → latest_seq s.run_id db ≡ o
          → with_db host bare_db x ≡ start host (engine_of owner none) limit s (bare_db db) w
      split (some n) q =
          let same : stopped run_id_exists db w ≡ x = cc (rw (q, start_held) at h) in
          ap (with_db host bare_db) (sym same) ∙ rw (start, latest_seq-bare s.run_id db, q) refl
      split none q =
          held_run-bare s.run_id file db (λ token d. start host (engine_of owner token) limit s d w)
            _ (acquire (lease_key owner s.run_id) file db.run_leases) x refl
            (λ t rows admitted.
              start-bare host laws owner.tenant_id s.run_id t limit s
                (record db { run_leases = rows }) w refl admitted)
            (rw (q, start_held) at h)

  -- The checkpoint that a run without tokens reads, with its token.
  with_token :
      (run : String) (db : HopDb) (c : Checkpoint)
      → latest run (bare_db db) ≡ some c
      → c.state.run_id ≡ run
      → (d : Checkpoint) × (latest run db ≡ some d) × (d.state.run_id ≡ run)
  with_token run db c found same = split (latest run db) refl
    where
      split :
          (o : Option Checkpoint)
          → latest run db ≡ o
          → (d : Checkpoint) × (latest run db ≡ some d) × (d.state.run_id ≡ run)
      split none q = cc (rw q at (sym (latest-bare run db) ∙ found))
      split (some d) q =
          let e : bare d ≡ c = cc (rw q at (sym (latest-bare run db) ∙ found)) in
          (d, q, ap (λ (x : Checkpoint). x.state.run_id) e ∙ same)

  resume_held-bare :
      (file : LockFile) (run : String) (db : HopDb) (w : host.World) (c : Checkpoint)
      (x : Ending host)
      → latest run db ≡ some c
      → c.state.run_id ≡ run
      → resume_held host owner file none run db w ≡ ended x
      → with_db host bare_db x ≡ resume host (engine_of owner none) none run (bare_db db) w
  unfolding resume_held hold_lease latest
  resume_held-bare file run db w c x found same h =
      held_run-bare run file db (λ token d. resume host (engine_of owner token) none run d w) _
        (acquire (lease_key owner run) file db.run_leases) x refl
        (λ t rows admitted.
          resume-bare host laws owner.tenant_id run t none (record db { run_leases = rows }) w c
            found same admitted)
        h

  granted :
      (file : LockFile) (run : String) (db : HopDb) (w : host.World) (held : Held)
      → acquire (lease_key owner run) file db.run_leases ≡ ok held
      → (x : Ending host) × (resume_held host owner file none run db w ≡ ended x)
  unfolding resume_held hold_lease held_run
  granted file run db w held got = (
    with_db host (released_db host (lease_key owner run)) (
        resume host (engine_of owner (some held.token)) none run
          (record db { run_leases = held.rows }) w),
    ap
        (held_run host (lease_key owner run) db
          (λ token d. resume host (engine_of owner token) none run d w))
        got,
  )

  -- What ended as a run without tokens, but for tokens and leases.
  abbrev EndsAs : HeldEnding host → RunState → HopDb → host.World → Type 0
  EndsAs x s d w = (d' : HopDb) × (x ≡ ended (done s d' w)) × (bare_db d' ≡ bare_db d)

  ended-EndsAs :
      (x : Ending host) (s : RunState) (d : HopDb) (w : host.World)
      → with_db host bare_db x ≡ done s (bare_db d) w
      → EndsAs (ended x) s d w
  ended-EndsAs (done s' d' w') s d w h = (d', cc, cc)
  ended-EndsAs (paused l) s d w h = cc
  ended-EndsAs (ran_out d' w') s d w h = cc
  ended-EndsAs (stopped e d' w') s d w h = cc

  -- A started run that was paused after at least one hop, and resumed from what the pause left in the
  -- database and the world under a lease that is granted, ends with the state and the world with which
  -- the run that is never paused ends, and with its database but for the tokens on the checkpoints and
  -- the rows of the leases, where that one reaches its end and the host is as `Resumable` says. Each
  -- of the three calls acquires a lease with a token of its own and gives it back.
  pub resume_held-ends_alike :
      (first second third : LockFile) (k : ℕ) (s s' : RunState) (db d : HopDb) (w v : host.World)
      (l' : Loop host) (held : Held)
      → start_held host owner first (some (suc k)) s db w ≡ ended (paused l')
      → start_held host owner second none s db w ≡ ended (done s' d v)
      → acquire (lease_key owner s.run_id) third l'.db.run_leases ≡ ok held
      → (d' : HopDb) × (resume_held host owner third none s.run_id l'.db l'.world
          ≡ ended (done s' d' v))
        × (bare_db d' ≡ bare_db d)
  resume_held-ends_alike first second third k s s' db d w v l' held pauses ends got =
      let plain = engine_of owner none in
      let bare_l = bare_loop host laws owner.tenant_id s.run_id 0 l' in
      let b1 : start host plain (some (suc k)) s (bare_db db) w ≡ paused bare_l =
        sym (start_held-bare first (some (suc k)) s db w (paused l') pauses) in
      let b2 : start host plain none s (bare_db db) w ≡ done s' (bare_db d) v =
        sym (start_held-bare second none s db w (done s' d v) ends) in
      let alike =
        resume-ends_alike host laws plain k s s' (bare_db db) (bare_db d) w v bare_l b1 b2 in
      let (c0, found0, same0) = paused-latest host laws plain k s (bare_db db) w bare_l b1 in
      let (c, found, same) = with_token s.run_id l'.db c0 found0 same0 in
      let (x, resumed) = granted third s.run_id l'.db l'.world held got in
      let plain_x = resume_held-bare third s.run_id l'.db l'.world c x found same resumed in
      rw resumed (ended-EndsAs x s' d v (plain_x ∙ alike))
