-- ===== src/Contracts/Budget.antt =====
-- contracts/budget.py: budgets, spend and reservations. The source's floats (seconds, dollars) are
-- whole numbers of a fixed small unit here, so that sums and orders are exact. The proofs are in the
-- modules below.
pub mod Excess
pub mod Admission
mod Tests
use recertia.Prelude.{
  ℕ, ◌+◌, max, String, Option, none, some, Bool, false, List, [], ◌∷◌, ltb, leb, true, ◌&&◌,
  if◌then◌else◌, Outcome, ok, raised,
}

pub record Budget : Type 0 where
  pub max_attempts : ℕ
  pub max_tool_calls : ℕ
  pub max_tokens : Option ℕ
  pub max_wall_clock_s : ℕ
  pub max_cost_usd : Option ℕ
  pub max_branches : ℕ
  pub max_parallel_steps : ℕ
  pub claim_timeout_s : ℕ
  pub max_versions_written : ℕ

abbrev pub positive_or_none : Option ℕ → Bool
positive_or_none none = true
positive_or_none (some n) = leb 1 n

-- The bounds that the fields of a budget declare.
unfoldable pub budget_accepted : Budget → Bool
budget_accepted b =
    leb 1 b.max_attempts
    && (leb 1 b.max_tool_calls
        && (positive_or_none b.max_tokens
            && (leb 1 b.max_wall_clock_s
                && ((leb 1 b.max_branches && leb b.max_branches 16)
                    && (leb 1 b.max_parallel_steps && leb 1 b.claim_timeout_s)))))

pub record Spend : Type 0 where
  pub attempts : ℕ
  pub tool_calls : ℕ
  pub tokens : ℕ
  pub wall_clock_s : ℕ
  pub cost_usd : ℕ
  pub versions_written : ℕ

pub record BudgetReservation : Type 0 where
  pub attempts : ℕ
  pub tool_calls : ℕ
  pub tokens : ℕ
  pub wall_clock_s : ℕ
  pub cost_usd : ℕ
  pub versions_written : ℕ

pub record ResidualBudget : Type 0 where
  pub max_attempts : ℕ
  pub max_tool_calls : ℕ
  pub max_tokens : Option ℕ
  pub max_wall_clock_s : ℕ
  pub max_cost_usd : Option ℕ
  pub max_branches : ℕ
  pub max_parallel_steps : ℕ
  pub claim_timeout_s : ℕ
  pub max_versions_written : ℕ

-- The keys of the `totals` and `limits` dictionaries, in their order.
pub data Dimension : Type 0 where
  attempts tool_calls tokens wall_clock_s cost_usd versions_written : Dimension

abbrev pub dimensions : List Dimension
dimensions = attempts ∷ tool_calls ∷ tokens ∷ wall_clock_s ∷ cost_usd ∷ versions_written ∷ []

unfoldable pub totals : Spend → BudgetReservation → BudgetReservation → Dimension → ℕ
totals spent reservation requested attempts =
    spent.attempts + reservation.attempts + requested.attempts
totals spent reservation requested tool_calls =
    spent.tool_calls + reservation.tool_calls + requested.tool_calls
totals spent reservation requested tokens = spent.tokens + reservation.tokens + requested.tokens
totals spent reservation requested wall_clock_s =
    spent.wall_clock_s + reservation.wall_clock_s + requested.wall_clock_s
totals spent reservation requested cost_usd =
    spent.cost_usd + reservation.cost_usd + requested.cost_usd
totals spent reservation requested versions_written =
    spent.versions_written + reservation.versions_written + requested.versions_written

unfoldable pub limits : Budget → Dimension → Option ℕ
limits budget attempts = some budget.max_attempts
limits budget tool_calls = some budget.max_tool_calls
limits budget tokens = budget.max_tokens
limits budget wall_clock_s = some budget.max_wall_clock_s
limits budget cost_usd = budget.max_cost_usd
limits budget versions_written = some budget.max_versions_written

-- `limit is not None and total > limit`
pub exceeds : Option ℕ → ℕ → Bool
exceeds none total = false
exceeds (some limit) total = ltb limit total

pub first_excess :
    Budget → Spend → BudgetReservation → BudgetReservation → List Dimension → Option Dimension
unfolding exceeds limits totals
first_excess budget spent reservation requested [] = none
first_excess budget spent reservation requested (dimension ∷ rest) =
    let later = first_excess budget spent reservation requested rest in
    if exceeds (limits budget dimension) (totals spent reservation requested dimension)
    then some dimension
    else later

unfoldable pub budget_excess :
    Budget → Spend → BudgetReservation → BudgetReservation → Option Dimension
unfolding first_excess
budget_excess budget spent reservation requested =
    first_excess budget spent reservation requested dimensions

unfoldable pub commit_reservation : Spend → BudgetReservation → Spend
commit_reservation spent reservation = record {
  attempts = spent.attempts + reservation.attempts;
  tool_calls = spent.tool_calls + reservation.tool_calls;
  tokens = spent.tokens + reservation.tokens;
  wall_clock_s = spent.wall_clock_s + reservation.wall_clock_s;
  cost_usd = spent.cost_usd + reservation.cost_usd;
  versions_written = spent.versions_written + reservation.versions_written;
}

pub data BudgetExhaustedError : Type 0 where
  budget_exhausted : BudgetExhaustedError

abbrev at_least_one : Option ℕ → Option ℕ
at_least_one none = none
at_least_one (some left) = if ltb left 1 then some 1 else some left

-- The budget that a residual with attempts left is clamped to.
unfoldable pub clamped : ResidualBudget → Budget
clamped r = record {
  max_attempts = r.max_attempts;
  max_tool_calls = max 1 r.max_tool_calls;
  max_tokens = at_least_one r.max_tokens;
  max_wall_clock_s = max 1 r.max_wall_clock_s;
  max_cost_usd = r.max_cost_usd;
  max_branches = max 1 r.max_branches;
  max_parallel_steps = max 1 r.max_parallel_steps;
  claim_timeout_s = max 1 r.claim_timeout_s;
  max_versions_written = r.max_versions_written;
}

unfoldable pub as_admission_budget : ResidualBudget → Outcome BudgetExhaustedError Budget
unfolding clamped
as_admission_budget r = if ltb r.max_attempts 1 then raised budget_exhausted else ok (clamped r)
