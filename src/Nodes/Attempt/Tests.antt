-- ===== src/Nodes/Attempt/Tests.antt =====
-- One attempt of the sample run, charged with two tool calls.
use recertia.Prelude.{◌≡◌, none, refl}
use recertia.Samples.{run_state}
use recertia.Contracts.Budget.{limits, tool_calls, budget_excess}
use recertia.Contracts.Budget.Excess.{Within, spent_in}
use recertia.Contracts.Failure.{FailureSignal, FailureSource}
use recertia.Nodes.Attempt.{AttemptMeter, UsageDelta, open_meter, charge, preflight, commit}
use recertia.Nodes.Attempt.Spending.{widened, slack, charge-commit-Within}

abbrev two_calls : UsageDelta
two_calls = record { tool_calls = 2; tokens = 0; cost_usd = 3 }

abbrev meter : AttemptMeter
meter = charge two_calls (open_meter run_state none 100)

abbrev signal : FailureSignal
signal = record { source = FailureSource.solver; detail = "timeout"; at = "now"; class_hint = none }

on_spent : meter.committed ≡ run_state.spent
unfolding open_meter charge
on_spent = refl

fits : preflight meter 0 two_calls 130 ≡ none
unfolding open_meter charge preflight budget_excess
fits = refl

charge-commit-Within_example :
    Within
      (widened (limits meter.budget tool_calls) (slack 130 133 tool_calls))
      (spent_in (commit (charge two_calls meter) 1 133) tool_calls)
charge-commit-Within_example = charge-commit-Within meter two_calls 130 133 fits tool_calls
