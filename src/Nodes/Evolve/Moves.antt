-- ===== src/Nodes/Evolve/Moves.antt =====
-- Where a repair that keeps its approach goes, and what no repair changes.
use recertia.Prelude.{
  String, Bool, true, false, Option, none, some, List, [], ◌∷◌, is_some, ok, ◌≡◌, ◌∙◌, refl, sym,
  ap, arith, if◌then◌else◌, ok-injective, subst,
}
use recertia.Contracts.Common.{Strategy, scratch}
use recertia.Contracts.Failure.{
  FailureClass, environment, tool, retrieval, plan, execution, criteria, budget, merge,
}
use recertia.Contracts.Run.{RunState, WorkspaceSnapshot}
use recertia.Graph.Engine.{NodeOutcome}
use recertia.Nodes.{Message}
use recertia.Nodes.Evolve.{
  Evolving, DeadEnd, Move, class_of, current_approach, repair_move, keeping, avoid, first_match,
  or_suppressed, or_templated, template_of, chosen_move, with_strategy, dropped, repaired,
  after_restore, evolve_from, evolve_node,
}

-- The classes whose move keeps the approach.
abbrev pub keeps_approach : FailureClass → Bool
keeps_approach retrieval = false
keeps_approach plan = false
keeps_approach _ = true

or_strategy : Option Strategy → Option Strategy → Option Strategy
or_strategy none old = old
or_strategy (some t) old = some t

module _ (render : Message → String) (env : Evolving) (s : RunState) where
  -- Whether the approach of the last attempt is a recorded dead end.
  abbrev pub is_dead_end : Bool
  is_dead_end = is_some (first_match render env (current_approach render env s) env.dead_ends)

  dropped-fields :
      (b : Bool) (t : RunState)
      → ((dropped render env b t).strategy ≡ t.strategy)
        × ((dropped render env b t).chosen ≡ (if b then none else t.chosen))
  unfolding dropped
  dropped-fields true t = (refl, refl)
  dropped-fields false t = (refl, refl)

  with_strategy-fields :
      (m : Move) (o : Option Strategy) (t : RunState)
      → ((with_strategy render env m o t).strategy ≡ or_strategy o t.strategy)
        × ((with_strategy render env m o t).chosen ≡ t.chosen)
  unfolding with_strategy or_strategy
  with_strategy-fields m none t = (refl, refl)
  with_strategy-fields m (some o) t = (refl, refl)

  repaired-fields :
      (clean : WorkspaceSnapshot) (later : List WorkspaceSnapshot) (m : Move)
      → ((repaired render env s clean later m).strategy ≡ or_strategy m.strategy s.strategy)
        × ((repaired render env s clean later m).chosen
            ≡ (if m.drop_chosen then none else s.chosen))
  unfolding repaired
  repaired-fields clean later m =
      let d = dropped-fields m.drop_chosen _ in
      let w = with_strategy-fields m m.strategy _ in
      (d.0 ∙ w.0, d.1 ∙ ap (λ c. if m.drop_chosen then none else c) w.1)

  kept_move :
      (c : FailureClass)
      → keeps_approach c ≡ true
      → ((repair_move render env c s).strategy ≡ s.strategy)
        × (((repair_move render env c s).drop_chosen ≡ false)
            × ((repair_move render env c s).approach ≡ current_approach render env s))
  unfolding repair_move keeping
  kept_move environment h = (refl, (refl, refl))
  kept_move tool h = (refl, (refl, refl))
  kept_move retrieval h = ground arith
  kept_move plan h = ground arith
  kept_move execution h = (refl, (refl, refl))
  kept_move criteria h = (refl, (refl, refl))
  kept_move budget h = (refl, (refl, refl))
  kept_move merge h = (refl, (refl, refl))

  or_strategy-same : (o : Option Strategy) → or_strategy o o ≡ o
  unfolding or_strategy
  or_strategy-same none = refl
  or_strategy-same (some t) = refl

  suppressed-fields :
      (m : Move) (o : Option DeadEnd)
      → m.strategy ≡ s.strategy
      → m.drop_chosen ≡ false
      → (or_strategy (or_suppressed render env m o).strategy s.strategy
          ≡ (if is_some o then some scratch else s.strategy))
        × ((if (or_suppressed render env m o).drop_chosen then none else s.chosen)
            ≡ (if is_some o then none else s.chosen))
  unfolding or_suppressed avoid or_strategy
  suppressed-fields m none same kept =
      (ap (λ t. or_strategy t s.strategy) same ∙ or_strategy-same s.strategy, rw kept refl)
  suppressed-fields m (some d) same kept = (refl, refl)

  chosen_move-kept :
      keeps_approach (class_of s.failure) ≡ true
      → template_of render env s ≡ none
      → (or_strategy (chosen_move render env s).strategy s.strategy
          ≡ (if is_dead_end then some scratch else s.strategy))
        × ((if (chosen_move render env s).drop_chosen then none else s.chosen)
            ≡ (if is_dead_end then none else s.chosen))
  unfolding chosen_move or_templated
  chosen_move-kept keeps plain =
      let kept = kept_move (class_of s.failure) keeps in
      let move = repair_move render env (class_of s.failure) s in
      rw plain (
        subst
          (λ a.
            (or_strategy
                (or_suppressed render env move
                  (first_match render env move.approach env.dead_ends)).strategy
                s.strategy
              ≡ (if is_some (first_match render env a env.dead_ends)
                  then some scratch
                  else s.strategy))
            × ((if (or_suppressed render env move
                    (first_match render env move.approach env.dead_ends)).drop_chosen
                  then none
                  else s.chosen)
                ≡ (if is_some (first_match render env a env.dead_ends) then none else s.chosen)))
          kept.1.1
          (suppressed-fields move (first_match render env move.approach env.dead_ends) kept.0
            kept.1.0))

  restored :
      (snapshots : List WorkspaceSnapshot) (out : NodeOutcome)
      → evolve_from render env s snapshots ≡ ok out
      → (clean : WorkspaceSnapshot) × ((later : List WorkspaceSnapshot) × (out.state
            ≡ repaired render env s clean later (chosen_move render env s)))
  unfolding evolve_from after_restore
  restored [] out h = ground arith
  restored (clean ∷ later) out h = split (env.restore clean.snapshot_ref) h
    where
      split :
          (o : Option String)
          → after_restore render env s clean later o ≡ ok out
          → (x : WorkspaceSnapshot) × ((y : List WorkspaceSnapshot) × (out.state
                ≡ repaired render env s x y (chosen_move render env s)))
      split (some e) g = absurd cc
      split none g = (clean, (later, ap (λ (o : NodeOutcome). o.state) (sym (ok-injective g))))

  -- A repair for a class that keeps its approach, where no template is published for the failure: if
  -- the approach is a recorded dead end then the next attempt is from scratch, without the chosen
  -- skill; otherwise strategy and skill stay as they are.
  pub evolve_node-avoids :
      (out : NodeOutcome)
      → keeps_approach (class_of s.failure) ≡ true
      → template_of render env s ≡ none
      → evolve_node render env s ≡ ok out
      → (out.state.strategy ≡ (if is_dead_end then some scratch else s.strategy))
        × (out.state.chosen ≡ (if is_dead_end then none else s.chosen))
  unfolding evolve_node
  evolve_node-avoids out keeps plain h = from (restored s.workspace_snapshots out h)
    where
      from :
          (clean : WorkspaceSnapshot) × ((later : List WorkspaceSnapshot) × (out.state
                ≡ repaired render env s clean later (chosen_move render env s)))
          → (out.state.strategy ≡ (if is_dead_end then some scratch else s.strategy))
            × (out.state.chosen ≡ (if is_dead_end then none else s.chosen))
      from (clean, (later, e)) =
          let fields = repaired-fields clean later (chosen_move render env s) in
          let kept = chosen_move-kept keeps plain in
          (
            ap (λ (t : RunState). t.strategy) e ∙ fields.0 ∙ kept.0,
            ap (λ (t : RunState). t.chosen) e ∙ fields.1 ∙ kept.1,
          )

  repaired-books :
      (clean : WorkspaceSnapshot) (later : List WorkspaceSnapshot) (b : Bool) (o : Option Strategy)
      (m : Move) (t : RunState)
      → (dropped render env b (with_strategy render env m o t)).spent ≡ t.spent
        × ((dropped render env b (with_strategy render env m o t)).budget ≡ t.budget)
  unfolding dropped with_strategy
  repaired-books clean later true none m t = (refl, refl)
  repaired-books clean later true (some o) m t = (refl, refl)
  repaired-books clean later false none m t = (refl, refl)
  repaired-books clean later false (some o) m t = (refl, refl)

  -- No repair charges the run.
  pub evolve_node-books :
      (out : NodeOutcome)
      → evolve_node render env s ≡ ok out
      → (out.state.spent ≡ s.spent) × (out.state.budget ≡ s.budget)
  unfolding evolve_node repaired
  evolve_node-books out h = from (restored s.workspace_snapshots out h)
    where
      from :
          (clean : WorkspaceSnapshot) × ((later : List WorkspaceSnapshot) × (out.state
                ≡ repaired render env s clean later (chosen_move render env s)))
          → (out.state.spent ≡ s.spent) × (out.state.budget ≡ s.budget)
      from (clean, (later, e)) =
          let books =
            repaired-books clean later (chosen_move render env s).drop_chosen
              (chosen_move render env s).strategy (chosen_move render env s) _ in
          (ap (λ (t : RunState). t.spent) e ∙ books.0, ap (λ (t : RunState). t.budget) e ∙ books.1)
