-- ===== src/Contracts/Budget/Admission.antt =====
-- `ResidualBudget.as_admission_budget` of contracts/budget.py.
use recertia.Prelude.{◌≤◌, ◌≡◌, ◌≢◌, ◌↔◌, max, some, ok, raised, arith}
use recertia.Contracts.Budget.{
  Budget, ResidualBudget, clamped, budget_exhausted, as_admission_budget,
}

-- The lower bounds that the fields of an admission budget declare.
pub record IsAdmissible (b : Budget) : Type 0 where
  pub attempts : 1 ≤ b.max_attempts
  pub tool_calls : 1 ≤ b.max_tool_calls
  pub tokens : b.max_tokens ≢ some 0
  pub wall_clock_s : 1 ≤ b.max_wall_clock_s
  pub branches : 1 ≤ b.max_branches
  pub parallel_steps : 1 ≤ b.max_parallel_steps
  pub claim_timeout_s : 1 ≤ b.claim_timeout_s

-- What is never clamped up: attempts, cost and versions.
pub record KeepsCaps (r : ResidualBudget) (b : Budget) : Type 0 where
  pub attempts : b.max_attempts ≡ r.max_attempts
  pub cost : b.max_cost_usd ≡ r.max_cost_usd
  pub versions : b.max_versions_written ≡ r.max_versions_written
  pub tool_calls : b.max_tool_calls ≤ max 1 r.max_tool_calls

module _ (r : ResidualBudget) where
  -- Exhausted attempts are refused, and nothing else is.
  pub as_admission_budget-raised_iff :
      (as_admission_budget r ≡ raised budget_exhausted) ↔ (r.max_attempts ≡ 0)
  unfolding as_admission_budget
  as_admission_budget-raised_iff = (λ h. ground arith, λ h. ground arith)

  -- With attempts left, a budget is returned that meets every declared lower bound and raises none
  -- of the caps on attempts, cost and versions.
  pub as_admission_budget-IsAdmissible :
      1 ≤ r.max_attempts
      → (b : Budget) × (as_admission_budget r ≡ ok b) × IsAdmissible b × KeepsCaps r b
  unfolding as_admission_budget
  as_admission_budget-IsAdmissible h = (clamped r, ground arith, ground arith, ground arith)
