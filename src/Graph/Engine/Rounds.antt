-- ===== src/Graph/Engine/Rounds.antt =====
-- What a round of the loop did, read off its result.
use recertia.Prelude.{
  ap, sym, ◌≢◌, ℕ, ◌+◌, ◌≤◌, ◌≡◌, Bool, true, false, some, Outcome, ok, raised, String, arith, refl,
  Bool-cases, inl, inr, ltb,
}
use recertia.Contracts.Run.{RunState}
use recertia.Graph.Routes.{Node, finalize, Route}
use recertia.Graph.Store.{HopDb, Write, SaveError, save}
use recertia.Graph.Engine.{
  NodeOutcome, RunError, Engine, Host, Loop, moved, is_node, choose_route, after_commit, follow,
  prepare, commit_prepared, after_choice, after_node, run_node, before_node, round, attempt_for,
  hop_write, finish_hop, after_finalize, hop_of,
}

module _ (host : Host) where
  -- A round that moved on: the node's outcome, the route it chose, and the hop that was committed.
  pub record Moved (e : Engine) (l l' : Loop host) : Type 0 where
    pub outcome : NodeOutcome
    pub chosen : Route
    pub write : Write
    pub chose : choose_route l.node outcome ≡ ok chosen
    pub versions : outcome.state.spent.versions_written ≤ outcome.state.budget.max_versions_written
    pub to : l'.node ≡ chosen.target
    pub next : l'.next_seq ≡ l.next_seq + 1
    pub saved : save e.tenant_id l'.state.run_id e.fencing_token write l.db ≡ ok l'.db
    pub seq : write.seq ≡ l.next_seq
    pub from : write.node ≡ l.node
    pub next_node : write.next_node ≡ some l'.node
    pub state : write.state ≡ l'.state
    pub node_world : host.World
    pub ran_world : host.World
    pub ran :
        host.node_func l.node l.state (attempt_for l.node l.state) node_world
        ≡ (ok outcome, ran_world)
    pub hop_world : host.World
    pub committed : l'.state ≡ (prepare host l outcome chosen hop_world).state

  after_commit-moved :
      (s : RunState) (target : Node) (seq : ℕ) (w : host.World) (r : Outcome SaveError HopDb)
      (db : HopDb) (l' : Loop host)
      → after_commit host s target seq w r db ≡ moved l'
      → (saved : HopDb) × (r ≡ ok saved)
        × (l' ≡ record { state = s; node = target; next_seq = seq + 1; db = saved; world = w })
  unfolding after_commit
  after_commit-moved s target seq w (ok saved) db l' h = (saved, refl, cc)
  after_commit-moved s target seq w (raised e) db l' h = cc

  module _ (e : Engine) (l l' : Loop host) (outcome : NodeOutcome) (w0 w1 : host.World)
      (ran : host.node_func l.node l.state (attempt_for l.node l.state) w0 ≡ (ok outcome, w1)) where
    commit-Moved :
        (chosen : Route) (w : host.World)
        → choose_route l.node outcome ≡ ok chosen
        → outcome.state.spent.versions_written ≤ outcome.state.budget.max_versions_written
        → follow host e l outcome chosen w ≡ moved l'
        → Moved e l l'
    unfolding follow commit_prepared hop_write
    commit-Moved chosen w chose versions h =
        let p = prepare host l outcome chosen w in
        let inv =
          after_commit-moved p.state chosen.target l.next_seq p.world
            (save e.tenant_id p.state.run_id e.fencing_token (hop_write host l chosen p) l.db) l.db
            l' h in
        record {
          outcome = outcome;
          chosen = chosen;
          write = hop_write host l chosen p;
          chose = chose;
          versions = versions;
          to = ap (λ (x : Loop host). x.node) inv.2;
          next = ap (λ (x : Loop host). x.next_seq) inv.2;
          saved = rw inv.2 inv.1;
          seq = refl;
          from = refl;
          next_node = ap (λ (x : Loop host). some x.node) (sym inv.2);
          state = ap (λ (x : Loop host). x.state) (sym inv.2);
          node_world = w0;
          ran_world = w1;
          ran = ran;
          hop_world = w;
          committed = ap (λ (x : Loop host). x.state) inv.2;
        }

    choice-Moved :
        (w : host.World) (r : Outcome RunError Route)
        → choose_route l.node outcome ≡ r
        → outcome.state.spent.versions_written ≤ outcome.state.budget.max_versions_written
        → after_choice host e l outcome w r ≡ moved l'
        → Moved e l l'
    unfolding after_choice
    choice-Moved w (ok chosen) chose versions h = commit-Moved chosen w chose versions h
    choice-Moved w (raised err) chose versions h = cc

    after_finalize-ne-moved :
        (s : RunState) (w : host.World) (r : Outcome SaveError HopDb) (db : HopDb)
        → after_finalize host s w r db ≢ moved l'
    unfolding after_finalize
    after_finalize-ne-moved s w (ok saved) db h = cc
    after_finalize-ne-moved s w (raised err) db h = cc

    after_node-Moved : (w : host.World) → after_node host e l outcome w ≡ moved l' → Moved e l l'
    unfolding after_node finish_hop
    after_node-Moved w h =
        elim (Bool-cases
          (ltb outcome.state.budget.max_versions_written outcome.state.spent.versions_written)) [
            | inl over ↦ cc (rw over at h)
            | inr fits ↦ elim (Bool-cases (is_node l.node finalize)) [
              | inl at_end ↦ absurd (after_finalize-ne-moved _ _ _ _ (rw (fits, at_end) at h))
              | inr on ↦
                  choice-Moved w (choose_route l.node outcome) refl (ground arith)
                    (rw (fits, on) at h)
            ]
          ]

  run_node-Moved :
      (e : Engine) (l l' : Loop host) (r : Outcome String NodeOutcome) (w0 w : host.World)
      → host.node_func l.node l.state (attempt_for l.node l.state) w0 ≡ (r, w)
      → run_node host e l (r, w) ≡ moved l'
      → Moved e l l'
  unfolding run_node
  run_node-Moved e l l' (ok outcome) w0 w ran h = after_node-Moved e l l' outcome w0 w ran _ h
  run_node-Moved e l l' (raised message) w0 w ran h = cc

  before_node-Moved :
      (e : Engine) (l l' : Loop host) (b : Bool) (w : host.World)
      → before_node host e l (b, w) ≡ moved l'
      → Moved e l l'
  unfolding before_node
  before_node-Moved e l l' true w h = cc
  before_node-Moved e l l' false w h =
      let (r, w') = host.node_func l.node l.state (attempt_for l.node l.state) w in
      run_node-Moved e l l' r w w' refl h

  pub round-Moved : (e : Engine) (l l' : Loop host) → round host e l ≡ moved l' → Moved e l l'
  unfolding round
  round-Moved e l l' h =
      let (b, w) = host.before (hop_of host e l) l.world in before_node-Moved e l l' b w h
