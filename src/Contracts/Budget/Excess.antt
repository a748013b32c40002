-- ===== src/Contracts/Budget/Excess.antt =====
-- `budget_excess` and `commit_reservation` of contracts/budget.py.
use recertia.Prelude.{ℕ, ◌+◌, ◌≤◌, ◌<◌, ◌≡◌, ◌↔◌, Option, none, some, refl, arith}
use recertia.Contracts.Budget.{
  Budget, Spend, BudgetReservation, Dimension, attempts, tool_calls, tokens, wall_clock_s, cost_usd,
  versions_written, totals, limits, budget_excess, commit_reservation,
}

-- A total is within an optional limit; no limit bounds nothing.
abbrev pub Within : Option ℕ → ℕ → Type 0
Within none total = Unit {0}
Within (some limit) total = total ≤ limit

abbrev pub Exceeds : Option ℕ → ℕ → Type 0
Exceeds none total = ⊥
Exceeds (some limit) total = limit < total

-- What a record of spend says of one dimension.
unfoldable pub spent_in : Spend → Dimension → ℕ
spent_in s attempts = s.attempts
spent_in s tool_calls = s.tool_calls
spent_in s tokens = s.tokens
spent_in s wall_clock_s = s.wall_clock_s
spent_in s cost_usd = s.cost_usd
spent_in s versions_written = s.versions_written

module _ (b : Budget) (s : Spend) (r q : BudgetReservation) where
  admitted-Within :
      budget_excess b s r q ≡ none → (d : Dimension) → Within (limits b d) (totals s r q d)
  unfolding budget_excess
  admitted-Within h attempts = ground arith
  admitted-Within h tool_calls = ground arith
  admitted-Within h tokens = ground arith
  admitted-Within h wall_clock_s = ground arith
  admitted-Within h cost_usd = ground arith
  admitted-Within h versions_written = ground arith

  Within-admitted :
      ((d : Dimension) → Within (limits b d) (totals s r q d)) → budget_excess b s r q ≡ none
  unfolding budget_excess
  Within-admitted h =
      ground
        (arith, h attempts, h tool_calls, h tokens, h wall_clock_s, h cost_usd, h versions_written)

  -- A request is admitted exactly when, in every dimension, what is spent, reserved and requested
  -- together is within the budget's limit.
  pub budget_excess-none_iff :
      (budget_excess b s r q ≡ none) ↔ ((d : Dimension) → Within (limits b d) (totals s r q d))
  budget_excess-none_iff = (admitted-Within, Within-admitted)

  -- A dimension that is reported is over its limit.
  pub budget_excess-Exceeds :
      (d : Dimension) → budget_excess b s r q ≡ some d → Exceeds (limits b d) (totals s r q d)
  unfolding budget_excess
  budget_excess-Exceeds attempts h = ground arith
  budget_excess-Exceeds tool_calls h = ground arith
  budget_excess-Exceeds tokens h = ground arith
  budget_excess-Exceeds wall_clock_s h = ground arith
  budget_excess-Exceeds cost_usd h = ground arith
  budget_excess-Exceeds versions_written h = ground arith

  -- What is spent, reserved and requested is together within the budget.
  pub record Fits : Type 0 where
    pub attempts_fit : s.attempts + r.attempts + q.attempts ≤ b.max_attempts
    pub tool_calls_fit : s.tool_calls + r.tool_calls + q.tool_calls ≤ b.max_tool_calls
    pub tokens_fit : Within b.max_tokens (s.tokens + r.tokens + q.tokens)
    pub wall_clock_fits : s.wall_clock_s + r.wall_clock_s + q.wall_clock_s ≤ b.max_wall_clock_s
    pub cost_fits : Within b.max_cost_usd (s.cost_usd + r.cost_usd + q.cost_usd)
    pub versions_fit :
        s.versions_written + r.versions_written + q.versions_written ≤ b.max_versions_written

  -- The dimension, if one is named, in which they are over the budget.
  abbrev pub IsOver : Option Dimension → Type 0
  IsOver none = Unit
  IsOver (some attempts) = b.max_attempts < s.attempts + r.attempts + q.attempts
  IsOver (some tool_calls) = b.max_tool_calls < s.tool_calls + r.tool_calls + q.tool_calls
  IsOver (some tokens) = Exceeds b.max_tokens (s.tokens + r.tokens + q.tokens)
  IsOver (some wall_clock_s) = b.max_wall_clock_s < s.wall_clock_s + r.wall_clock_s + q.wall_clock_s
  IsOver (some cost_usd) = Exceeds b.max_cost_usd (s.cost_usd + r.cost_usd + q.cost_usd)
  IsOver (some versions_written) =
      b.max_versions_written < s.versions_written + r.versions_written + q.versions_written

  admitted-Fits : budget_excess b s r q ≡ none → Fits
  unfolding limits totals
  admitted-Fits h = record {
    attempts_fit = admitted-Within h attempts;
    tool_calls_fit = admitted-Within h tool_calls;
    tokens_fit = admitted-Within h tokens;
    wall_clock_fits = admitted-Within h wall_clock_s;
    cost_fits = admitted-Within h cost_usd;
    versions_fit = admitted-Within h versions_written;
  }

  Fits-admitted : Fits → budget_excess b s r q ≡ none
  unfolding limits totals
  Fits-admitted f = Within-admitted within
    where
      within : (d : Dimension) → Within (limits b d) (totals s r q d)
      within attempts = f.attempts_fit
      within tool_calls = f.tool_calls_fit
      within tokens = f.tokens_fit
      within wall_clock_s = f.wall_clock_fits
      within cost_usd = f.cost_fits
      within versions_written = f.versions_fit

  reported-IsOver : (d : Dimension) → budget_excess b s r q ≡ some d → IsOver (some d)
  unfolding limits totals
  reported-IsOver attempts h = budget_excess-Exceeds attempts h
  reported-IsOver tool_calls h = budget_excess-Exceeds tool_calls h
  reported-IsOver tokens h = budget_excess-Exceeds tokens h
  reported-IsOver wall_clock_s h = budget_excess-Exceeds wall_clock_s h
  reported-IsOver cost_usd h = budget_excess-Exceeds cost_usd h
  reported-IsOver versions_written h = budget_excess-Exceeds versions_written h

  -- A request is admitted exactly when what is spent, reserved and requested is together within the
  -- budget in attempts, tool calls, tokens, wall clock, cost and versions, where no limit on tokens or
  -- cost bounds nothing; and a dimension that is reported instead is one in which it is over.
  pub budget_excess-Fits : ((budget_excess b s r q ≡ none) ↔ Fits) × IsOver (budget_excess b s r q)
  budget_excess-Fits = ((admitted-Fits, Fits-admitted), answer (budget_excess b s r q) refl)
    where
      answer : (o : Option Dimension) → budget_excess b s r q ≡ o → IsOver o
      answer none h = tt
      answer (some d) h = reported-IsOver d h

  committed_total :
      (d : Dimension) → spent_in (commit_reservation (commit_reservation s r) q) d ≡ totals s r q d
  unfolding commit_reservation spent_in totals
  committed_total attempts = refl
  committed_total tool_calls = refl
  committed_total tokens = refl
  committed_total wall_clock_s = refl
  committed_total cost_usd = refl
  committed_total versions_written = refl

  -- If a request was admitted, then once the outstanding reservation and the request are both
  -- committed, the spend is within the budget in every dimension.
  pub committed-Within :
      budget_excess b s r q ≡ none
      → (d : Dimension)
      → Within (limits b d) (spent_in (commit_reservation (commit_reservation s r) q) d)
  committed-Within h d = rw committed_total (admitted-Within h d)
