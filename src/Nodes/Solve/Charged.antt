-- ===== src/Nodes/Solve/Charged.antt =====
-- Every way that solve takes charges its attempt and ends on a route of the table.
use recertia.Prelude.{
  ℕ, ◌+◌, ◌-◌, ◌≤◌, ◌≡◌, inl, inr, String, Bool, true, false, ◌&&◌, any, Outcome, ok, if◌then◌else◌,
  refl, arith, subst, is_some, is_none,
}
use recertia.Contracts.Run.{RunState}
use recertia.Graph.Engine.{NodeOutcome}
use recertia.Graph.Engine.Termination.{attempts_left}
use recertia.Nodes.{Message}
use recertia.Nodes.Attempt.{open_meter}
use recertia.Nodes.Solve.Env.{Solving, is_apply_or_adapt, is_scratch}
use recertia.Nodes.Solve.Charge.{IsCharged, Returns, Returns-if}
use recertia.Nodes.Solve.Script.Charges.{
  bare_failed-IsCharged, solve_script_via_tools-IsCharged, solve_legacy_script-IsCharged,
  solve_via_applicator-IsCharged,
}
use recertia.Nodes.Solve.Scratch.Charges.{solve_scratch_observe_act-IsCharged}
use recertia.Nodes.Solve.Branches.{is_dispatched}
use recertia.Nodes.Solve.Branches.Charges.{solve_branches-IsCharged}
use recertia.Nodes.Solve.{
  solve_node, resolve_script, Resolved, scripted, needs_model, resolve_raises, solve_resolved,
}

module _ (render : Message → String) (env : Solving) (s : RunState) where
  solve_resolved-IsCharged :
      (attempt_no : ℕ) (r : Resolved)
      → Returns (IsCharged s) (solve_resolved render env s attempt_no r)
  unfolding solve_resolved open_meter
  solve_resolved-IsCharged attempt_no (resolve_raises e) = tt
  solve_resolved-IsCharged attempt_no (needs_model e) =
      bare_failed-IsCharged render env s attempt_no _ _ _ _ refl
  solve_resolved-IsCharged attempt_no (scripted script) =
      Returns-if (IsCharged s) (is_some env.transcripts && env.has_tools) _ _
        (solve_script_via_tools-IsCharged render env s attempt_no script)
        (solve_legacy_script-IsCharged render env s attempt_no script)

  dispatched_first :
      (b : Bool) (x y : Outcome String NodeOutcome)
      → (b ≡ true → Returns (IsCharged s) x)
      → Returns (IsCharged s) y
      → Returns (IsCharged s) (if b then x else y)
  dispatched_first true x y h k = h refl
  dispatched_first false x y h k = k

  -- Whichever of its ways solve takes, if it returns then the run has spent at least one attempt more
  -- than before, under the same budget, also where no attempt was left, and the route that it names is
  -- a legal one and leads to validate or to classify_failure.
  pub solve_node-IsCharged : Returns (IsCharged s) (solve_node render env s)
  unfolding solve_node
  solve_node-IsCharged =
      dispatched_first (any is_dispatched s.branches) _ _
        (solve_branches-IsCharged render env s (s.attempt_no + 1))
        (Returns-if (IsCharged s)
          (env.has_applicator
            && (is_apply_or_adapt s.strategy && (is_some s.chosen && env.has_store)))
          _ _ (solve_via_applicator-IsCharged render env s (s.attempt_no + 1))
          (Returns-if (IsCharged s)
            (is_none env.script
              && (is_scratch s.strategy
                  && (env.has_model && (env.has_tools && is_some env.transcripts))))
            _ _ (solve_scratch_observe_act-IsCharged render env s (s.attempt_no + 1))
            (solve_resolved-IsCharged (s.attempt_no + 1) (resolve_script render env s))))

  -- The same of the attempts that are left.
  pub solve_node-spends :
      (out : NodeOutcome)
      → solve_node render env s ≡ ok out
      → attempts_left out.state ≤ attempts_left s - 1
  unfolding attempts_left
  solve_node-spends out h = left (subst (Returns (IsCharged s)) h solve_node-IsCharged)
    where
      fewer :
          (n : ℕ)
          → 1 ≤ n
          → out.state.spent.attempts ≡ s.spent.attempts + n
          → out.state.budget ≡ s.budget
          → attempts_left out.state ≤ attempts_left s - 1
      fewer n some_n charged same = rw (charged, same) (omega arith)

      left : IsCharged s out → attempts_left out.state ≤ attempts_left s - 1
      left (n, (some_n, inl c)) = fewer n some_n c.charged c.same_budget
      left (n, (some_n, inr c)) = fewer n some_n c.charged c.same_budget
