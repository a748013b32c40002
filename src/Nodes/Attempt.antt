-- ===== src/Nodes/Attempt.antt =====
-- nodes/attempt.py: the meter of one solve attempt. The clock's two readings are numbers, of whole
-- seconds. Affordances and artifacts are left out.
pub mod Spending
mod Tests
use recertia.Prelude.{ℕ, ◌+◌, ◌-◌, String, Bool, Option, none, some, List, []}
use recertia.Contracts.Budget.{Budget, Spend, BudgetReservation, Dimension, budget_excess}
use recertia.Contracts.Failure.{FailureSignal}
use recertia.Contracts.Run.{RunState}
use recertia.Graph.Engine.{NodeOutcome}

pub record UsageDelta : Type 0 where
  pub tool_calls : ℕ
  pub tokens : ℕ
  pub cost_usd : ℕ

-- The run-scoped counters that a window reads when it opens and again when it is asked.
pub record Counters : Type 0 where
  pub tokens : ℕ
  pub cost_usd : ℕ
  pub invocations : ℕ

-- `RuntimeWindow.delta`: the differences, and zero where a counter fell.
unfoldable pub delta : Counters → Counters → UsageDelta
delta at_open at_read = record {
  tool_calls = at_read.invocations - at_open.invocations;
  tokens = at_read.tokens - at_open.tokens;
  cost_usd = at_read.cost_usd - at_open.cost_usd;
}

pub record AttemptMeter : Type 0 where
  pub budget : Budget
  pub committed : Spend
  pub reserved : BudgetReservation
  pub tool_calls : ℕ
  pub tokens : ℕ
  pub cost_usd : ℕ
  pub started_at : ℕ

abbrev or_reserved : Option BudgetReservation → BudgetReservation → BudgetReservation
or_reserved none reserved = reserved
or_reserved (some r) reserved = r

-- `AttemptMeter.open`
unfoldable pub open_meter : RunState → Option BudgetReservation → ℕ → AttemptMeter
open_meter s reserved clock = record {
  budget = s.budget;
  committed = s.spent;
  reserved = or_reserved reserved s.reserved;
  tool_calls = 0;
  tokens = 0;
  cost_usd = 0;
  started_at = clock;
}

-- `charge` and `charge_delta`
unfoldable pub charge : UsageDelta → AttemptMeter → AttemptMeter
charge u m = record m {
  tool_calls = m.tool_calls + u.tool_calls;
  tokens = m.tokens + u.tokens;
  cost_usd = m.cost_usd + u.cost_usd;
}

unfoldable pub elapsed_s : AttemptMeter → ℕ → ℕ
elapsed_s m clock = clock - m.started_at

-- `used`, with the attempts and the work that are about to be requested.
unfoldable pub used : AttemptMeter → ℕ → UsageDelta → ℕ → BudgetReservation
unfolding elapsed_s
used m attempts u clock = record {
  attempts = attempts;
  tool_calls = m.tool_calls + u.tool_calls;
  tokens = m.tokens + u.tokens;
  wall_clock_s = elapsed_s m clock;
  cost_usd = m.cost_usd + u.cost_usd;
  versions_written = 0;
}

unfoldable pub preflight : AttemptMeter → ℕ → UsageDelta → ℕ → Option Dimension
unfolding used
preflight m attempts u clock =
    budget_excess m.budget m.committed m.reserved (used m attempts u clock)

unfoldable pub commit : AttemptMeter → ℕ → ℕ → Spend
unfolding elapsed_s
commit m attempts clock = record m.committed {
  attempts = m.committed.attempts + attempts;
  tool_calls = m.committed.tool_calls + m.tool_calls;
  tokens = m.committed.tokens + m.tokens;
  wall_clock_s = m.committed.wall_clock_s + elapsed_s m clock;
  cost_usd = m.committed.cost_usd + m.cost_usd;
}

unfoldable pub charge_version_write : RunState → RunState
charge_version_write s = record s {
  spent = record s.spent { versions_written = s.spent.versions_written + 1 };
}

-- `failed`, without further updates.
unfoldable pub failed :
    RunState → AttemptMeter → FailureSignal → ℕ → String → Option String → ℕ → ℕ → NodeOutcome
unfolding commit
failed s m signal attempt_no route note attempts clock = record {
  state = record s {
    attempt_no = attempt_no;
    spent = commit m attempts clock;
    failure_signal = some signal;
  };
  route = some route;
  note = note;
}

-- `completed`, without further updates.
unfoldable pub completed :
    RunState → AttemptMeter → ℕ → String → Option String → ℕ → ℕ → NodeOutcome
unfolding commit
completed s m attempt_no transcript_ref note attempts clock = record {
  state = record s {
    attempt_no = attempt_no;
    spent = commit m attempts clock;
    transcript_ref = some transcript_ref;
    failure_signal = none;
  };
  route = some "attempt_completed";
  note = note;
}
