-- ===== src/Graph/Engine/Resume.antt =====
-- A run that was paused goes on where it stopped: `resume` of a paused run ends as the run that was
-- never paused.
use recertia.Prelude.{
  ℕ, zero, suc, ◌+◌, ◌≡◌, Option, none, some, ok, String, arith, refl, ap, sym, ◌∙◌, subst, ◌⊎◌,
  inl, inr,
}
use recertia.Contracts.Run.{RunState}
use recertia.Graph.Routes.{Node, intake, Route}
use recertia.Graph.Store.{HopDb, Checkpoint, latest, latest_seq, checkpoint_of}
use recertia.Graph.Store.Reading.{Below, save-latest, latest-none-Below, latest_seq-none}
use recertia.Graph.Engine.{
  NodeOutcome, Engine, Host, Loop, Round, finished, moved, failed, round, done, paused, execute,
  max_graph_steps, start, resume, resume_from, prepare, ensure_pre_solve_snapshot, attempt_for,
}
use recertia.Graph.Engine.Rounds.{Moved, round-Moved}

module _ (host : Host) where
  -- What pausing relies on: no node and no state hop changes the run's id, and bringing an idle
  -- workspace back undoes putting it away.
  pub record Resumable : Type 0 where
    pub node_keeps_id :
        (n : Node) (s : RunState) (k : ℕ) (w w' : host.World) (out : NodeOutcome)
        → host.node_func n s k w ≡ (ok out, w')
        → out.state.run_id ≡ s.run_id
    pub adjust_keeps_id :
        (n : Node) (k : ℕ) (s : RunState) (w : host.World)
        → (host.adjust n k s w).0.run_id ≡ s.run_id
    pub restore_undoes :
        (s : RunState) (w : host.World) → host.restore_idle s.run_id (host.offload_idle s w) ≡ w

  -- The last checkpoint of the run is the loop's own.
  pub record Stored (run : String) (l : Loop host) : Type 0 where
    pub checkpoint : Checkpoint
    pub is_latest : latest run l.db ≡ some checkpoint
    pub same_state : checkpoint.state ≡ l.state
    pub goes_to : checkpoint.next_node ≡ some l.node
    pub before : checkpoint.seq + 1 ≡ l.next_seq
    pub below : Below run l.next_seq l.db.checkpoints
    pub same_run : l.state.run_id ≡ run

  module _ (laws : Resumable) (e : Engine) where
    snapshot-run_id :
        (s : RunState) (n : Node) (w : host.World)
        → (ensure_pre_solve_snapshot host s n w).0.run_id ≡ s.run_id
    unfolding ensure_pre_solve_snapshot
    snapshot-run_id s n w = ground arith

    pub prepare-run_id :
        (l : Loop host) (out : NodeOutcome) (r : Route) (w : host.World)
        → (prepare host l out r w).state.run_id ≡ out.state.run_id
    unfolding prepare
    prepare-run_id l out r w =
        laws.adjust_keeps_id l.node (attempt_for l.node l.state) _ _
        ∙ snapshot-run_id out.state r.target w

    pub Moved-run_id : (l l' : Loop host) (m : Moved host e l l') → l'.state.run_id ≡ l.state.run_id
    Moved-run_id l l' m =
        ap (λ (s : RunState). s.run_id) m.committed
        ∙ (prepare-run_id l m.outcome m.chosen m.hop_world
            ∙ laws.node_keeps_id l.node l.state _ m.node_world m.ran_world m.outcome m.ran)

    -- After a round that moved on, the checkpoint of its hop is the last one.
    moved-Stored :
        (run : String) (l l' : Loop host)
        → l.state.run_id ≡ run
        → Below run l.next_seq l.db.checkpoints
        → round host e l ≡ moved l'
        → Stored run l'
    moved-Stored run l l' same below h =
        let m = round-Moved host e l l' h in
        let id = Moved-run_id l l' m ∙ same in
        let read =
          save-latest e.tenant_id run e.fencing_token m.write l.db l'.db (rw id at m.saved)
            (rw (sym m.seq) at below) in
        let seq = ap (λ n. n + 1) m.seq ∙ sym m.next in
        record {
          checkpoint = checkpoint_of run e.fencing_token m.write;
          is_latest = read.0;
          same_state = m.state;
          goes_to = m.next_node;
          before = seq;
          below = subst (λ n. Below run n l'.db.checkpoints) seq read.1;
          same_run = id;
        }

    execute-moved :
        (left : ℕ) (l l' : Loop host)
        → round host e l ≡ moved l'
        → execute host e (suc left) none l ≡ execute host e left none l'
    unfolding execute
    execute-moved left l l' h = rw (h, execute)

    -- A run to its end finished in its first round, or moved on and ended from there.
    execute-done :
        (left : ℕ) (l : Loop host) (s : RunState) (d : HopDb) (v : host.World)
        → execute host e (suc left) none l ≡ done s d v
        → (round host e l ≡ finished s d v)
          ⊎ ((l' : Loop host) × (round host e l ≡ moved l')
              × (execute host e left none l' ≡ done s d v))
    unfolding execute
    execute-done left l s d v h = split (round host e l) refl
      where
        split :
            (r : Round host)
            → round host e l ≡ r
            → (r ≡ finished s d v)
              ⊎ ((l' : Loop host) × (r ≡ moved l') × (execute host e left none l' ≡ done s d v))
        split (finished s' d' v') q = inl (let h' = rw (q, execute) at h in cc)
        split (moved l') q = inr (l', refl, rw (q, execute) at h)
        split (failed err d' v') q = cc (rw (q, execute) at h)

    -- More rounds do not change how a run ends.
    execute-more :
        (left : ℕ) (l : Loop host) (s : RunState) (d : HopDb) (v : host.World)
        → execute host e left none l ≡ done s d v
        → execute host e (suc left) none l ≡ done s d v
    unfolding execute
    execute-more zero l s d v h = cc
    execute-more (suc left) l s d v h = elim (execute-done left l s d v h) [
      | inl q ↦ rw (q, execute)
      | inr (l', q, rest) ↦ execute-moved (suc left) l l' q ∙ execute-more left l' s d v rest
    ]

    -- What a pause leaves behind: a loop whose hop is stored, with the workspace put away, from which
    -- the run that was never paused ends as it does from the start.
    abbrev Leaves : String → ℕ → Loop host → Loop host → Type 0
    Leaves run left l l' =
        (l0 : Loop host) × (l' ≡ record l0 { world = host.offload_idle l0.state l0.world })
        × Stored run l0
        × ((s : RunState) (d : HopDb) (v : host.World)
            → execute host e left none l ≡ done s d v
            → execute host e left none l0 ≡ done s d v)

    -- One round ahead of a pause.
    onward-Leaves :
        (run : String) (left k : ℕ) (l l' : Loop host)
        → l.state.run_id ≡ run
        → Below run l.next_seq l.db.checkpoints
        → execute host e (suc left) (some (suc k)) l ≡ paused l'
        → ((l1 : Loop host)
            → Stored run l1
            → execute host e left (some k) l1 ≡ paused l'
            → Leaves run left l1 l')
        → Leaves run (suc left) l l'
    unfolding execute
    onward-Leaves run left k l l' same below h later = split (round host e l) refl
      where
        back :
            (l1 : Loop host)
            → round host e l ≡ moved l1
            → Leaves run left l1 l'
            → Leaves run (suc left) l l'
        back l1 q (l0, put, st, go) = (
          l0,
          put,
          st,
          λ s d v ends.
              execute-more left l0 s d v (go s d v (sym (execute-moved left l l1 q) ∙ ends)),
        )

        split : (r : Round host) → round host e l ≡ r → Leaves run (suc left) l l'
        split (finished s d v) q = cc (rw (q, execute) at h)
        split (moved l1) q =
            back l1 q (later l1 (moved-Stored run l l1 same below q) (rw (q, execute) at h))
        split (failed err d v) q = cc (rw (q, execute) at h)

    execute-Leaves :
        (run : String) (left k : ℕ) (l l' : Loop host)
        → Stored run l
        → execute host e left (some k) l ≡ paused l'
        → Leaves run left l l'
    unfolding execute
    execute-Leaves run zero k l l' st h = cc
    execute-Leaves run (suc left) zero l l' st h = (l, cc, st, λ s d v q. q)
    execute-Leaves run (suc left) (suc k) l l' st h =
        onward-Leaves run left k l l' st.same_run st.below h
          (λ l1 st1 h1. execute-Leaves run left k l1 l' st1 h1)

    resume-Stored :
        (run : String) (l : Loop host) (limit : Option ℕ)
        → Stored run l
        → resume host e limit run l.db (host.offload_idle l.state l.world)
          ≡ execute host e max_graph_steps limit l
    unfolding resume resume_from
    resume-Stored run l limit st =
        let world =
          subst (λ r. host.restore_idle r (host.offload_idle l.state l.world) ≡ l.world) st.same_run
            (laws.restore_undoes l.state l.world) in
        rw (st.is_latest, resume, st.goes_to, resume_from, st.same_state, st.before, world)

    -- A started run that was paused after at least one hop, and resumed from what the pause left in the
    -- database and the world, ends with the state, the database and the world with which the run
    -- that is never paused ends, where that one reaches its end and the host is as `Resumable` says.
    pub resume-ends_alike :
        (k : ℕ) (s s' : RunState) (db d : HopDb) (w v : host.World) (l' : Loop host)
        → start host e (some (suc k)) s db w ≡ paused l'
        → start host e none s db w ≡ done s' d v
        → resume host e none s.run_id l'.db l'.world ≡ done s' d v
    unfolding start
    resume-ends_alike k s s' db d w v l' h ends = split (latest_seq s.run_id db) refl
      where
        l : Loop host
        l = record { state = s; node = intake; next_seq = 0; db = db; world = w }

        split_done :
            (o : Option ℕ)
            → latest_seq s.run_id db ≡ o
            → execute host e max_graph_steps none l ≡ done s' d v
        split_done (some _) q = cc (rw (q, start) at ends)
        split_done none q = rw (q, start) at ends

        after :
            Leaves s.run_id max_graph_steps l l'
            → resume host e none s.run_id l'.db l'.world ≡ done s' d v
        after (l0, put, st, go) = rw put (
            resume-Stored s.run_id l0 none st
            ∙ go s' d v (split_done (latest_seq s.run_id db) refl))

        split :
            (o : Option ℕ)
            → latest_seq s.run_id db ≡ o
            → resume host e none s.run_id l'.db l'.world ≡ done s' d v
        split (some _) q = cc (rw (q, start) at ends)
        split none q = after (
            onward-Leaves s.run_id 499 k l l' refl
              (latest-none-Below s.run_id db (latest_seq-none s.run_id db q)) (rw (q, start) at h)
              (λ l1 st1 h1. execute-Leaves s.run_id 499 k l1 l' st1 h1))

    -- What a pause leaves in the database has the run's own state as its last checkpoint.
    pub paused-latest :
        (k : ℕ) (s : RunState) (db : HopDb) (w : host.World) (l' : Loop host)
        → start host e (some (suc k)) s db w ≡ paused l'
        → (c : Checkpoint) × (latest s.run_id l'.db ≡ some c) × (c.state.run_id ≡ s.run_id)
    unfolding start
    paused-latest k s db w l' h = split (latest_seq s.run_id db) refl
      where
        l : Loop host
        l = record { state = s; node = intake; next_seq = 0; db = db; world = w }

        read :
            Leaves s.run_id max_graph_steps l l'
            → (c : Checkpoint) × (latest s.run_id l'.db ≡ some c) × (c.state.run_id ≡ s.run_id)
        read (l0, put, st, go) = rw put (
          st.checkpoint,
          st.is_latest,
          ap (λ (x : RunState). x.run_id) st.same_state ∙ st.same_run,
        )

        split :
            (o : Option ℕ)
            → latest_seq s.run_id db ≡ o
            → (c : Checkpoint) × (latest s.run_id l'.db ≡ some c) × (c.state.run_id ≡ s.run_id)
        split (some _) q = cc (rw (q, start) at h)
        split none q = read (
            onward-Leaves s.run_id 499 k l l' refl
              (latest-none-Below s.run_id db (latest_seq-none s.run_id db q)) (rw (q, start) at h)
              (λ l1 st1 h1. execute-Leaves s.run_id 499 k l1 l' st1 h1))
