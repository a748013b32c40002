-- ===== src/Nodes/System.antt =====
-- nodes/registry.py, `NODE_FUNCS`: the engine's host with the modelled nodes in their places. The other
-- nodes are those of a given host.
mod Tests
use recertia.Prelude.{
  ℕ, ◌-◌, ◌≤◌, ◌≡◌, ◌≢◌, String, Option, none, some, Outcome, ok, raised, refl, sym, ap, arith,
  subst, ok-injective,
}
use recertia.Contracts.Budget.{Budget, Spend}
use recertia.Contracts.Run.{RunState}
use recertia.Graph.Store.{HopDb, Checkpoint, latest}
use recertia.Graph.Routes
use recertia.Graph.Routes.{Node, plan, solve, validate, join, classify_failure, evolve, finalize}
use recertia.Graph.Engine.{NodeOutcome, Engine, Host, start, resume, ran_out}
use recertia.Graph.Engine.Termination.{attempts_left, Spends, start-enough, resume-enough}
use recertia.Nodes.{Message, NodeError}
use recertia.Nodes.Plan.{PlanContext, plan_node}
use recertia.Nodes.Plan.Books.{plan_node-IsFree}
use recertia.Nodes.FanOut
use recertia.Nodes.FanOut.{FanOutContext}
use recertia.Nodes.FanOut.Books.{fan_out-IsFree}
use recertia.Nodes.Classify.{ClassifyContext, classify_node}
use recertia.Nodes.Classify.Books.{classify_node-IsFree}
use recertia.Nodes.Finalize.{finalize_node}
use recertia.Nodes.Validate.{Scoring, validate_node}
use recertia.Nodes.Validate.Books.{validate_node-IsFree}
use recertia.Nodes.Join.{Joining, join_node}
use recertia.Nodes.Free.{IsFree}
use recertia.Nodes.Join.Books.{join_node-IsFree}
use recertia.Nodes.Evolve.{Evolving, evolve_node}
use recertia.Nodes.Evolve.Moves.{evolve_node-books}
use recertia.Nodes.Solve.{solve_node}
use recertia.Nodes.Solve.Env.{Solving}
use recertia.Nodes.Solve.Charged.{solve_node-spends}

-- What the services of the nodes answer in a state of the world, and that world after the node.
pub record Services (base : Host) : Type 0 where
  pub render : Message → String
  pub error_text : NodeError → String
  pub planning : RunState → base.World → PlanContext
  pub fanning_out : RunState → base.World → FanOutContext
  pub classifying : RunState → base.World → ClassifyContext
  pub solving : RunState → ℕ → base.World → Solving
  pub scoring : RunState → base.World → Scoring
  pub joining : RunState → base.World → Joining
  pub evolving : RunState → base.World → Evolving
  pub after_node : Node → RunState → base.World → base.World

abbrev pub as_text :
    (NodeError → String) → Outcome NodeError NodeOutcome → Outcome String NodeOutcome
as_text show (ok out) = ok out
as_text show (raised e) = raised (show e)

module _ (base : Host) (services : Services base) where
  unfoldable pub node_func :
      Node → RunState → ℕ → base.World → Outcome String NodeOutcome × base.World
  node_func plan s k w =
      (ok (plan_node services.render (services.planning s w) s), services.after_node plan s w)
  node_func Node.fan_out s k w = (
    as_text services.error_text (FanOut.fan_out services.render (services.fanning_out s w) s),
    services.after_node Node.fan_out s w,
  )
  node_func classify_failure s k w = (
    as_text services.error_text (classify_node services.render (services.classifying s w) s),
    services.after_node classify_failure s w,
  )
  node_func solve s k w =
      (solve_node services.render (services.solving s k w) s, services.after_node solve s w)
  node_func validate s k w = (
    as_text services.error_text (validate_node services.render (services.scoring s w) s),
    services.after_node validate s w,
  )
  node_func join s k w = (
    as_text services.error_text (join_node services.render (services.joining s w) s),
    services.after_node join s w,
  )
  node_func evolve s k w = (
    as_text services.error_text (evolve_node services.render (services.evolving s w) s),
    services.after_node evolve s w,
  )
  node_func finalize s k w = (ok (finalize_node s), services.after_node finalize s w)
  node_func n s k w = base.node_func n s k w

  abbrev pub composed : Host
  composed = record base { node_func = node_func }

  same_left :
      (a b : RunState) → a.spent ≡ b.spent → a.budget ≡ b.budget → attempts_left a ≤ attempts_left b
  unfolding attempts_left
  same_left a b spent budget =
      let e = ap (λ (p : Spend). p.attempts) spent in
      let f = ap (λ (p : Budget). p.max_attempts) budget in omega arith

  IsFree-left :
      (s : RunState) (x : Outcome NodeError NodeOutcome) (out : NodeOutcome)
      → IsFree s x
      → as_text services.error_text x ≡ ok out
      → attempts_left out.state ≤ attempts_left s
  IsFree-left s (ok o) out free h =
      subst (λ (p : NodeOutcome). attempts_left p.state ≤ attempts_left s) (ok-injective h)
        (same_left o.state s free.0 free.1)
  IsFree-left s (raised e) out free h = absurd cc

  evolve-IsFree : (env : Evolving) (s : RunState) → IsFree s (evolve_node services.render env s)
  evolve-IsFree env s = free (evolve_node services.render env s) refl
    where
      free :
          (x : Outcome NodeError NodeOutcome) → evolve_node services.render env s ≡ x → IsFree s x
      free (ok out) e = evolve_node-books services.render env s out e
      free (raised e) h = tt

  finalize_left : (s : RunState) → attempts_left (finalize_node s).state ≤ attempts_left s
  unfolding finalize_node
  finalize_left s = same_left (finalize_node s).state s refl refl

  -- What is still needed of the given host: its nodes and state hops add no attempts.
  pub record Keeps : Type 0 where
    pub others_keep :
        (n : Node) (s : RunState) (k : ℕ) (w w' : base.World) (out : NodeOutcome)
        → base.node_func n s k w ≡ (ok out, w')
        → attempts_left out.state ≤ attempts_left s
    pub adjust_keeps :
        (n : Node) (k : ℕ) (s : RunState) (w : base.World)
        → attempts_left (base.adjust n k s w).0 ≤ attempts_left s

  module _ (keeps : Keeps) where
    solve_spends :
        (s : RunState) (k : ℕ) (w w' : base.World) (out : NodeOutcome)
        → node_func solve s k w ≡ (ok out, w')
        → attempts_left out.state ≤ attempts_left s - 1
    unfolding node_func
    solve_spends s k w w' out h =
        solve_node-spends services.render (services.solving s k w) s out (ap (λ p. p.0) h)

    node_keeps :
        (n : Node) (s : RunState) (k : ℕ) (w w' : base.World) (out : NodeOutcome)
        → node_func n s k w ≡ (ok out, w')
        → attempts_left out.state ≤ attempts_left s
    unfolding node_func
    node_keeps plan s k w w' out h =
        let free = plan_node-IsFree services.render (services.planning s w) s in
        subst (λ (p : NodeOutcome). attempts_left p.state ≤ attempts_left s)
          (ok-injective (ap (λ p. p.0) h))
          (same_left (plan_node services.render (services.planning s w) s).state s free.0 free.1)
    node_keeps Node.fan_out s k w w' out h =
        IsFree-left s _ out (fan_out-IsFree services.render (services.fanning_out s w) s)
          (ap (λ p. p.0) h)
    node_keeps classify_failure s k w w' out h =
        IsFree-left s _ out (classify_node-IsFree services.render (services.classifying s w) s)
          (ap (λ p. p.0) h)
    node_keeps solve s k w w' out h = let e = solve_spends s k w w' out h in omega arith
    node_keeps validate s k w w' out h =
        IsFree-left s _ out (validate_node-IsFree services.render (services.scoring s w) s)
          (ap (λ p. p.0) h)
    node_keeps join s k w w' out h =
        IsFree-left s _ out (join_node-IsFree services.render (services.joining s w) s)
          (ap (λ p. p.0) h)
    node_keeps evolve s k w w' out h =
        IsFree-left s _ out (evolve-IsFree (services.evolving s w) s) (ap (λ p. p.0) h)
    node_keeps finalize s k w w' out h =
        subst (λ (p : NodeOutcome). attempts_left p.state ≤ attempts_left s)
          (ok-injective (ap (λ p. p.0) h)) (finalize_left s)
    node_keeps n s k w w' out h = keeps.others_keep n s k w w' out h

    composed-Spends : Spends composed
    composed-Spends = record {
      node_keeps = node_keeps;
      solve_spends = solve_spends;
      adjust_keeps = keeps.adjust_keeps;
    }

    -- A run with the modelled plan, fan_out, solve, validate, join, classify_failure, evolve and
    -- finalize, started with at most 97
    -- attempts left or resumed from a checkpoint with at most 97, never stops because its 500 rounds are
    -- used up, if neither the other nodes nor the state hops add attempts.
    pub composed-enough :
        (e : Engine) (limit : Option ℕ) (s : RunState) (db d : HopDb) (w v : base.World)
        → attempts_left s ≤ 97
        → ((c : Checkpoint) → latest s.run_id db ≡ some c → attempts_left c.state ≤ 97)
        → (start composed e limit s db w ≢ ran_out d v)
          × (resume composed e limit s.run_id db w ≢ ran_out d v)
    composed-enough e limit s db d w v few stored = (
      start-enough composed composed-Spends e limit s db d w v few,
      resume-enough composed composed-Spends e limit s.run_id db d w v stored,
    )
