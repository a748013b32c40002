-- ===== src/Contracts/Budget/Tests.antt =====
-- The theorems on budgets at a concrete budget.
use recertia.Prelude.{◌≡◌, ◌↔◌, none, some, arith, refl, ok}
use recertia.Contracts.Budget.{
  Budget, ResidualBudget, cost_usd, limits, budget_excess, commit_reservation, as_admission_budget,
}
use recertia.Contracts.Budget.Excess.{
  Within, spent_in, budget_excess-Fits, Fits, IsOver, committed-Within,
}
use recertia.Contracts.Budget.Admission.{IsAdmissible, KeepsCaps, as_admission_budget-IsAdmissible}
use recertia.Samples.{budget, spent, no_reservation, request}

budget_excess-Fits_example :
    ((budget_excess budget spent no_reservation (request 16) ≡ none)
      ↔ Fits budget spent no_reservation (request 16))
    × IsOver budget spent no_reservation
        (request 16)
        (budget_excess budget spent no_reservation (request 16))
budget_excess-Fits_example = budget_excess-Fits budget spent no_reservation (request 16)

over_cost : budget_excess budget spent no_reservation (request 16) ≡ some cost_usd
unfolding budget_excess
over_cost = refl

within : budget_excess budget spent no_reservation (request 15) ≡ none
unfolding budget_excess
within = refl

committed-Within_example :
    Within (limits budget cost_usd) (
      spent_in (commit_reservation (commit_reservation spent no_reservation) (request 15)) cost_usd)
committed-Within_example = committed-Within budget spent no_reservation (request 15) within cost_usd

abbrev residual : ResidualBudget
residual = record {
  max_attempts = 1;
  max_tool_calls = 0;
  max_tokens = some 0;
  max_wall_clock_s = 0;
  max_cost_usd = some 0;
  max_branches = 0;
  max_parallel_steps = 1;
  claim_timeout_s = 0;
  max_versions_written = 0;
}

as_admission_budget-IsAdmissible_example :
    (b : Budget) × (as_admission_budget residual ≡ ok b) × IsAdmissible b × KeepsCaps residual b
as_admission_budget-IsAdmissible_example = as_admission_budget-IsAdmissible residual (omega arith)
