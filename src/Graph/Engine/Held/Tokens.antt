-- ===== src/Graph/Engine/Held/Tokens.antt =====
-- A run under a token that the fence admits does what a run without tokens and leases does, but for
-- the tokens on its checkpoints.
use recertia.Prelude.{
  ℕ, zero, suc, ◌+◌, ◌≡◌, ◌∙◌, String, Bool, true, false, Option, none, some, Outcome, ok, raised,
  if◌then◌else◌, refl, sym, ap, subst, ltb,
}
use recertia.Contracts.Run.{RunState}
use recertia.Graph.Routes.{Node, intake, finalize, Route}
use recertia.Graph.Store.{HopDb, Checkpoint, SaveError, insert_hop, latest, latest_seq}
use recertia.Graph.Store.Reading.{save-ok}
use recertia.Graph.Engine.{
  NodeOutcome, RunError, too_many_versions, Engine, Host, Loop, Round, finished, moved, failed,
  stopped, run_id_exists, round, before_node, run_node, after_node, after_choice, follow,
  commit_prepared, after_commit, after_finalize, finish_hop, hop_write, hop_of, prepare,
  route_entry_of, choose_route, is_node, execute, max_graph_steps, start, resume, resume_from,
  attempt_for,
}
use recertia.Graph.Engine.Rounds.{round-Moved}
use recertia.Graph.Engine.Resume.{Resumable, prepare-run_id, Moved-run_id}
use recertia.Graph.Engine.Held.{with_db}
use recertia.Graph.Engine.Held.Bare.{
  bare, bare_db, bare_saved, Admits, save-bare, latest-bare, latest_seq-bare,
}

module _ (host : Host) (laws : Resumable host) (tenant run : String) (t : ℕ) where
  abbrev pub token_engine : Engine
  token_engine = record { tenant_id = tenant; fencing_token = some t }

  abbrev pub bare_engine : Engine
  bare_engine = record { tenant_id = tenant; fencing_token = none }

  abbrev pub bare_loop : Loop host → Loop host
  bare_loop l = record l { db = bare_db l.db }

  abbrev bare_round : Round host → Round host
  bare_round (finished s d w) = finished s (bare_db d) w
  bare_round (moved l) = moved (bare_loop l)
  bare_round (failed e d w) = failed e (bare_db d) w

  after_commit-bare :
      (s : RunState) (target : Node) (seq : ℕ) (w : host.World) (r : Outcome SaveError HopDb)
      (d : HopDb)
      → bare_round (after_commit host s target seq w r d)
        ≡ after_commit host s target seq w (bare_saved r) (bare_db d)
  unfolding after_commit
  after_commit-bare s target seq w (ok saved) d = refl
  after_commit-bare s target seq w (raised e) d = refl

  after_finalize-bare :
      (s : RunState) (w : host.World) (r : Outcome SaveError HopDb) (d : HopDb)
      → bare_round (after_finalize host s w r d)
        ≡ after_finalize host s w (bare_saved r) (bare_db d)
  unfolding after_finalize
  after_finalize-bare s w (ok saved) d = refl
  after_finalize-bare s w (raised e) d = refl

  module _ (l : Loop host) (admitted : Admits tenant t run l.db) where
    follow-bare :
        (outcome : NodeOutcome) (chosen : Route) (w : host.World)
        → outcome.state.run_id ≡ run
        → bare_round (follow host token_engine l outcome chosen w)
          ≡ follow host bare_engine (bare_loop l) outcome chosen w
    unfolding follow commit_prepared hop_write prepare route_entry_of
    follow-bare outcome chosen w same =
        let p = prepare host l outcome chosen w in
        let id = prepare-run_id host laws token_engine l outcome chosen w ∙ same in
        after_commit-bare p.state chosen.target l.next_seq p.world _ l.db
        ∙ ap (λ r. after_commit host p.state chosen.target l.next_seq p.world r (bare_db l.db))
            (save-bare tenant t p.state.run_id (hop_write host l chosen p) l.db
              (subst (λ i. Admits tenant t i l.db) (sym id) admitted))

    choice-bare :
        (outcome : NodeOutcome) (w : host.World) (r : Outcome RunError Route)
        → outcome.state.run_id ≡ run
        → bare_round (after_choice host token_engine l outcome w r)
          ≡ after_choice host bare_engine (bare_loop l) outcome w r
    unfolding after_choice
    choice-bare outcome w (ok chosen) same = follow-bare outcome chosen w same
    choice-bare outcome w (raised e) same = refl

    finish-bare :
        (outcome : NodeOutcome) (w : host.World)
        → outcome.state.run_id ≡ run
        → bare_round (finish_hop host token_engine l outcome w)
          ≡ finish_hop host bare_engine (bare_loop l) outcome w
    unfolding finish_hop
    finish-bare outcome w same =
        after_finalize-bare outcome.state w _ l.db
        ∙ ap (λ r. after_finalize host outcome.state w r (bare_db l.db))
            (save-bare tenant t outcome.state.run_id _ l.db
              (subst (λ i. Admits tenant t i l.db) (sym same) admitted))

    after_node-bare :
        (outcome : NodeOutcome) (w : host.World)
        → outcome.state.run_id ≡ run
        → bare_round (after_node host token_engine l outcome w)
          ≡ after_node host bare_engine (bare_loop l) outcome w
    unfolding after_node
    after_node-bare outcome w same =
        pick (ltb outcome.state.budget.max_versions_written outcome.state.spent.versions_written)
          (is_node l.node finalize)
      where
        pick :
            (over at_end : Bool)
            → bare_round (
                if over
                then failed too_many_versions l.db w
                else if at_end
                then finish_hop host token_engine l outcome w
                else after_choice host token_engine l outcome w (choose_route l.node outcome))
              ≡ (if over
                  then failed too_many_versions (bare_db l.db) w
                  else if at_end
                  then finish_hop host bare_engine (bare_loop l) outcome w
                  else after_choice host bare_engine
                      (bare_loop l)
                      outcome
                      w
                      (choose_route l.node outcome))
        pick true at_end = refl
        pick false true = finish-bare outcome w same
        pick false false = choice-bare outcome w (choose_route l.node outcome) same

    run_node-bare :
        (r : Outcome String NodeOutcome) (w0 w : host.World)
        → l.state.run_id ≡ run
        → host.node_func l.node l.state (attempt_for l.node l.state) w0 ≡ (r, w)
        → bare_round (run_node host token_engine l (r, w))
          ≡ run_node host bare_engine (bare_loop l) (r, w)
    unfolding run_node hop_of
    run_node-bare (ok outcome) w0 w same ran =
        after_node-bare outcome _ (laws.node_keeps_id l.node l.state _ w0 w outcome ran ∙ same)
    run_node-bare (raised message) w0 w same ran = refl

    before_node-bare :
        (b : Bool) (w : host.World)
        → l.state.run_id ≡ run
        → bare_round (before_node host token_engine l (b, w))
          ≡ before_node host bare_engine (bare_loop l) (b, w)
    unfolding before_node
    before_node-bare true w same = refl
    before_node-bare false w same =
        let (r, w') = host.node_func l.node l.state (attempt_for l.node l.state) w in
        run_node-bare r w w' same refl

    round-bare :
        l.state.run_id ≡ run
        → bare_round (round host token_engine l) ≡ round host bare_engine (bare_loop l)
    unfolding round hop_of
    round-bare same =
        let (b, w) = host.before (hop_of host token_engine l) l.world in before_node-bare b w same

  moved-Admits :
      (l l' : Loop host)
      → l.state.run_id ≡ run
      → Admits tenant t run l.db
      → round host token_engine l ≡ moved l'
      → (l'.state.run_id ≡ run) × Admits tenant t run l'.db
  unfolding insert_hop
  moved-Admits l l' same admitted h =
      let m = round-Moved host token_engine l l' h in
      let saved = save-ok tenant l'.state.run_id (some t) m.write l.db l'.db m.saved in
      (Moved-run_id host laws token_engine l l' m ∙ same, rw saved.2 admitted)

  execute-bare :
      (left : ℕ) (limit : Option ℕ) (l : Loop host)
      → l.state.run_id ≡ run
      → Admits tenant t run l.db
      → with_db host bare_db (execute host token_engine left limit l)
        ≡ execute host bare_engine left limit (bare_loop l)
  unfolding execute
  execute-bare zero limit l same admitted = refl
  execute-bare (suc left) (some zero) l same admitted = refl
  execute-bare (suc left) (some (suc n)) l same admitted =
      from (λ l'. execute-bare left (some n) l') (round host token_engine l) refl
        (sym (round-bare l admitted same))
    where
      from :
          ((l' : Loop host)
            → l'.state.run_id ≡ run
            → Admits tenant t run l'.db
            → with_db host bare_db (execute host token_engine left (some n) l')
              ≡ execute host bare_engine left (some n) (bare_loop l'))
          → (x : Round host) → round host token_engine l ≡ x
          → round host bare_engine (bare_loop l) ≡ bare_round (round host token_engine l)
          → with_db host bare_db (execute host token_engine (suc left) (some (suc n)) l)
            ≡ execute host bare_engine (suc left) (some (suc n)) (bare_loop l)
      from onward (finished s d w) a b = rw (b, a, execute) refl
      from onward (failed e d w) a b = rw (b, a, execute) refl
      from onward (moved l') a b =
          let kept = moved-Admits l l' same admitted a in
          rw (b, a, execute) (onward l' kept.0 kept.1)
  execute-bare (suc left) none l same admitted =
      from (λ l'. execute-bare left none l') (round host token_engine l) refl
        (sym (round-bare l admitted same))
    where
      from :
          ((l' : Loop host)
            → l'.state.run_id ≡ run
            → Admits tenant t run l'.db
            → with_db host bare_db (execute host token_engine left none l')
              ≡ execute host bare_engine left none (bare_loop l'))
          → (x : Round host) → round host token_engine l ≡ x
          → round host bare_engine (bare_loop l) ≡ bare_round (round host token_engine l)
          → with_db host bare_db (execute host token_engine (suc left) none l)
            ≡ execute host bare_engine (suc left) none (bare_loop l)
      from onward (finished s d w) a b = rw (b, a, execute) refl
      from onward (failed e d w) a b = rw (b, a, execute) refl
      from onward (moved l') a b =
          let kept = moved-Admits l l' same admitted a in
          rw (b, a, execute) (onward l' kept.0 kept.1)

  pub start-bare :
      (limit : Option ℕ) (s : RunState) (d : HopDb) (w : host.World)
      → s.run_id ≡ run
      → Admits tenant t run d
      → with_db host bare_db (start host token_engine limit s d w)
        ≡ start host bare_engine limit s (bare_db d) w
  unfolding start
  start-bare limit s d w same admitted =
      rw (start, latest_seq-bare s.run_id d) (split (latest_seq s.run_id d))
    where
      l : Loop host
      l = record { state = s; node = intake; next_seq = 0; db = d; world = w }

      split :
          (o : Option ℕ)
          → with_db host bare_db (elim o [
            | some _ ↦ stopped run_id_exists d w
            | none ↦ execute host token_engine max_graph_steps limit l
          ])
            ≡ (elim o [
              | some _ ↦ stopped run_id_exists (bare_db d) w
              | none ↦ execute host bare_engine max_graph_steps limit (bare_loop l)
            ])
      split (some n) = refl
      split none = execute-bare max_graph_steps limit l same admitted

  resume_from-bare :
      (limit : Option ℕ) (d : HopDb) (w : host.World) (c : Checkpoint) (o : Option Node)
      → c.state.run_id ≡ run
      → Admits tenant t run d
      → with_db host bare_db (resume_from host token_engine limit run d w c o)
        ≡ resume_from host bare_engine limit run (bare_db d) w (bare c) o
  unfolding resume_from
  resume_from-bare limit d w c none same admitted = refl
  resume_from-bare limit d w c (some node) same admitted =
      execute-bare max_graph_steps limit
        (record {
          state = c.state;
          node = node;
          next_seq = c.seq + 1;
          db = d;
          world = host.restore_idle run w;
        })
        same admitted

  pub resume-bare :
      (limit : Option ℕ) (d : HopDb) (w : host.World) (c : Checkpoint)
      → latest run d ≡ some c
      → c.state.run_id ≡ run
      → Admits tenant t run d
      → with_db host bare_db (resume host token_engine limit run d w)
        ≡ resume host bare_engine limit run (bare_db d) w
  unfolding resume
  resume-bare limit d w c found same admitted =
      rw (resume, latest-bare run d, found) (resume_from-bare limit d w c c.next_node same admitted)
