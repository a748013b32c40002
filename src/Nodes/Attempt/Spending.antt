-- ===== src/Nodes/Attempt/Spending.antt =====
-- What a meter commits, against the budget that its preflight looked at.
use recertia.Prelude.{ℕ, ◌+◌, ◌-◌, ◌≤◌, ◌≡◌, String, Option, none, some, arith, refl, ok, ap}
use recertia.Contracts.Budget.{
  Spend, Dimension, attempts, tool_calls, tokens, wall_clock_s, cost_usd, versions_written, totals,
  limits,
}
use recertia.Contracts.Budget.Excess.{Within, spent_in, budget_excess-none_iff}
use recertia.Contracts.Failure.{FailureSignal}
use recertia.Contracts.Run.{RunState}
use recertia.Graph.Routes.{Route, Node, solve, validate, classify_failure, legal_routes}
use recertia.Graph.Engine.{NodeOutcome, choose_route}
use recertia.Nodes.Attempt.{
  UsageDelta, AttemptMeter, used, preflight, charge, elapsed_s, commit, failed, completed,
}

Within-le : (limit : Option ℕ) (a b : ℕ) → a ≤ b → Within limit b → Within limit a
Within-le none a b le h = tt
Within-le (some l) a b le h = omega arith

-- A limit with some slack.
abbrev pub widened : Option ℕ → ℕ → Option ℕ
widened none extra = none
widened (some l) extra = some (l + extra)

Within-widened :
    (limit : Option ℕ) (a b extra : ℕ)
    → a ≤ b + extra
    → Within limit b
    → Within (widened limit extra) a
Within-widened none a b extra le h = tt
Within-widened (some l) a b extra le h = omega arith

-- What a commit may add to what its preflight looked at: the attempt, and the time since.
abbrev pub slack : ℕ → ℕ → Dimension → ℕ
slack looked_at closed_at attempts = 1
slack looked_at closed_at wall_clock_s = closed_at - looked_at
slack looked_at closed_at _ = 0

commit-le :
    (m : AttemptMeter) (u : UsageDelta) (looked_at closed_at : ℕ) (d : Dimension)
    → spent_in (commit (charge u m) 1 closed_at) d
      ≤ totals m.committed m.reserved (used m 0 u looked_at) d + slack looked_at closed_at d
unfolding commit charge used spent_in totals elapsed_s
commit-le m u looked_at closed_at attempts = omega arith
commit-le m u looked_at closed_at tool_calls = omega arith
commit-le m u looked_at closed_at tokens = omega arith
commit-le m u looked_at closed_at wall_clock_s = omega arith
commit-le m u looked_at closed_at cost_usd = omega arith
commit-le m u looked_at closed_at versions_written = omega arith

-- If the preflight of some work, as the ways of solving ask it, with no attempt and at one reading of
-- the clock, finds no exhausted dimension, and that work is then charged and the meter is committed with one
-- attempt at another reading, then the run's spend is within its budget in tool calls, tokens, cost
-- and versions, over the limit on attempts by one at most, and over the limit on the wall clock by at
-- most the time between the two readings.
pub charge-commit-Within :
    (m : AttemptMeter) (u : UsageDelta) (looked_at closed_at : ℕ)
    → preflight m 0 u looked_at ≡ none
    → (d : Dimension)
    → Within
        (widened (limits m.budget d) (slack looked_at closed_at d))
        (spent_in (commit (charge u m) 1 closed_at) d)
unfolding preflight
charge-commit-Within m u looked_at closed_at h d =
    Within-widened (limits m.budget d) _ _ (slack looked_at closed_at d)
      (commit-le m u looked_at closed_at d)
      ((budget_excess-none_iff m.budget m.committed m.reserved (used m 0 u looked_at)).0 h d)

-- A node's outcome closes an attempt: the attempts are charged, and the table has its route.
pub record Closes (s : RunState) (n : ℕ) (target : Node) (out : NodeOutcome) : Type 0 where
  pub charged : out.state.spent.attempts ≡ s.spent.attempts + n
  pub same_budget : out.state.budget ≡ s.budget
  pub chosen_route : Route
  pub chose : choose_route solve out ≡ ok chosen_route
  pub leads_on : chosen_route.target ≡ target

module _ (s : RunState) (m : AttemptMeter) (opened : m.committed ≡ s.spent) where
  completed-Closes :
      (attempt_no : ℕ) (transcript_ref : String) (remark : Option String) (n clock : ℕ)
      → Closes s n validate (completed s m attempt_no transcript_ref remark n clock)
  unfolding completed commit choose_route legal_routes
  completed-Closes attempt_no transcript_ref remark n clock = record {
    charged = ap (λ (p : Spend). p.attempts + n) opened;
    same_budget = refl;
    chosen_route = _;
    chose = refl;
    leads_on = refl;
  }

  failed-Closes :
      (signal : FailureSignal) (attempt_no : ℕ) (remark : Option String) (n clock : ℕ)
      → Closes s n classify_failure
          (failed s m signal attempt_no "pre_validation_failure_signal" remark n clock)
  unfolding failed commit choose_route legal_routes
  failed-Closes signal attempt_no remark n clock = record {
    charged = ap (λ (p : Spend). p.attempts + n) opened;
    same_budget = refl;
    chosen_route = _;
    chose = refl;
    leads_on = refl;
  }

  -- Closing an attempt by a meter that was opened on the run's spend adds its attempts to those the
  -- run has spent, under the same budget; its route is legal and leads to `validate` if it is completed, and to `classify_failure`
  -- if it failed on the usual route.
  pub closing-Closes :
      (signal : FailureSignal) (attempt_no : ℕ) (transcript_ref : String) (remark : Option String)
      (n clock : ℕ)
      → Closes s n validate (completed s m attempt_no transcript_ref remark n clock)
        × Closes s n classify_failure
            (failed s m signal attempt_no "pre_validation_failure_signal" remark n clock)
  closing-Closes signal attempt_no transcript_ref remark n clock = (
    completed-Closes attempt_no transcript_ref remark n clock,
    failed-Closes signal attempt_no remark n clock,
  )
