-- ===== src/Nodes/FanOut.antt =====
-- nodes/fan_out.py: splitting a run's budget over branches. Seconds are whole and dollars are
-- millionths here; a branch keeps of its candidate the id and the version. Copying the files of the
-- workspace into a branch's is left out.
pub mod Partition
pub mod Share
pub mod Reply
pub mod Books
mod Tests
use recertia.Prelude.{
  ℕ, suc, ◌+◌, ◌-◌, ◌*◌, ◌/◌, min, max, String, Bool, true, false, not, ◌||◌, Option, none, some,
  List, [], ◌∷◌, length, Outcome, ok, raise_if, if◌then◌else◌,
}
use recertia.Contracts.Budget.{
  Budget, Spend, BudgetReservation, Dimension, budget_excess, budget_accepted,
}
use recertia.Contracts.Common.{Strategy, apply, scratch, portfolio, decomposition}
use recertia.Contracts.Branch.{BranchKind, BranchState, dispatched}
use recertia.Contracts.Failure.{FailureSignal, SkillRef, FailureSource, FailureClass}
use recertia.Contracts.Run.{RunState, SkillCandidateRef}
use recertia.Graph.Engine.{NodeOutcome}
use recertia.Nodes.{
  Message, branch_name, dispatched_branches, exhausted_before_fan_out, fan_out_refused, NodeError,
  invalid_budget,
}
use recertia.Nodes.FanOut.Partition.{partition_criteria}

pub record FanOutContext : Type 0 where
  pub run_id : String
  pub script : Option (List String)
  pub now : String
  -- `str(ctx.workdir / name)`
  pub in_workdir : String → String

abbrev pub is_portfolio : Option Strategy → Bool
is_portfolio (some portfolio) = true
is_portfolio _ = false

abbrev pub is_decomposition : Option Strategy → Bool
is_decomposition (some decomposition) = true
is_decomposition _ = false

-- The number of branches to reserve for.
unfoldable pub branch_count : RunState → ℕ
branch_count s = min s.budget.max_branches (
    max 2 (
      if is_portfolio s.strategy
      then length s.bundle.skills
      else min (length s.criteria) s.budget.max_branches))

abbrev pub share : Option ℕ → ℕ → Option ℕ
share none n = none
share (some limit) n = some (limit / n)

unfoldable pub child_budget : Budget → ℕ → Budget
child_budget parent n = record {
  max_attempts = max 1 (parent.max_attempts / n);
  max_tool_calls = max 1 (parent.max_tool_calls / n);
  max_tokens = share parent.max_tokens n;
  max_wall_clock_s = max 1 (parent.max_wall_clock_s / n);
  max_cost_usd = share parent.max_cost_usd n;
  max_branches = 1;
  max_parallel_steps = parent.max_parallel_steps;
  claim_timeout_s = parent.claim_timeout_s;
  max_versions_written = parent.max_versions_written;
}

-- `len(ctx.script or ["true"])`
abbrev pub script_calls : Option (List String) → ℕ
script_calls none = 1
script_calls (some []) = 1
script_calls (some (x ∷ xs)) = length (x ∷ xs)

abbrev pub or_zero : Option ℕ → ℕ
or_zero none = 0
or_zero (some n) = n

unfoldable pub requested_per_branch : FanOutContext → Budget → BudgetReservation
requested_per_branch ctx child = record {
  attempts = 1;
  tool_calls = script_calls ctx.script;
  tokens = or_zero child.max_tokens;
  wall_clock_s = min 60 child.max_wall_clock_s;
  cost_usd = 10_000 * (1 + script_calls ctx.script);
  versions_written = 0;
}

unfoldable pub requested_for : ℕ → BudgetReservation → BudgetReservation
requested_for n r = record {
  attempts = r.attempts * n;
  tool_calls = r.tool_calls * n;
  tokens = r.tokens * n;
  wall_clock_s = r.wall_clock_s * n;
  cost_usd = r.cost_usd * n;
  versions_written = 0;
}

unfoldable pub reserved_with : BudgetReservation → BudgetReservation → BudgetReservation
reserved_with reserved requested = record {
  attempts = reserved.attempts + requested.attempts;
  tool_calls = reserved.tool_calls + requested.tool_calls;
  tokens = reserved.tokens + requested.tokens;
  wall_clock_s = reserved.wall_clock_s + requested.wall_clock_s;
  cost_usd = reserved.cost_usd + requested.cost_usd;
  versions_written = 0;
}

abbrev no_spend : Spend
no_spend = record {
  attempts = 0;
  tool_calls = 0;
  tokens = 0;
  wall_clock_s = 0;
  cost_usd = 0;
  versions_written = 0;
}

-- `state.bundle.skills[: k]` with `apply`, and then one branch from scratch.
strategies : ℕ → List SkillCandidateRef → List (Strategy × Option SkillRef)
strategies (suc k) (c ∷ skills) =
    (apply, some (record { skill_id = c.skill_id; version = c.version })) ∷ strategies k skills
strategies _ _ = (scratch, none) ∷ []

-- What the branches reserve together.
unfoldable pub requested : FanOutContext → RunState → BudgetReservation
requested ctx s =
    requested_for (branch_count s)
      (requested_per_branch ctx (child_budget s.budget (branch_count s)))

module _ (render : Message → String) (ctx : FanOutContext) where
  branch :
      BranchKind
      → String
      → Strategy
      → Option String
      → Option SkillRef
      → Budget
      → List String
      → BranchState
  branch kind name strategy subtask candidate child owned_ids = record {
    branch_id = name;
    kind = kind;
    strategy = strategy;
    subtask = subtask;
    candidate = candidate;
    workspace_ref = ctx.in_workdir name;
    snapshot_ref = none;
    transcript_ref = none;
    status = dispatched;
    budget = child;
    spent = no_spend;
    reserved = requested_per_branch ctx child;
    results = [];
    selected = false;
    cost_usd = none;
    owned_criteria = owned_ids;
  }

  portfolio_branches : String → Budget → ℕ → List (Strategy × Option SkillRef) → List BranchState
  unfolding branch
  portfolio_branches run child i [] = []
  portfolio_branches run child i ((strategy, candidate) ∷ rest) =
      branch BranchKind.portfolio (render (branch_name run portfolio i)) strategy none candidate
        child []
      ∷ portfolio_branches run child (i + 1) rest

  decomposition_branches : String → Budget → ℕ → List (String × List String) → List BranchState
  unfolding branch
  decomposition_branches run child i [] = []
  decomposition_branches run child i ((subtask, ids) ∷ rest) =
      branch BranchKind.decomposition (render (branch_name run decomposition i)) scratch
        (some subtask) none child ids
      ∷ decomposition_branches run child (i + 1) rest

  -- The outcome that refuses the fan-out.
  refused : RunState → Dimension → NodeOutcome
  refused s dimension = record {
    state = record s {
      failure_signal = some (record {
        source = FailureSource.orchestrator;
        detail = render (exhausted_before_fan_out dimension);
        at = ctx.now;
        class_hint = some FailureClass.budget;
      });
    };
    route = some "pre_dispatch_budget_failure";
    note = some (render (fan_out_refused dimension (branch_count s)));
  }

  dispatched_outcome : RunState → Strategy → BudgetReservation → List BranchState → NodeOutcome
  dispatched_outcome s strategy requested branches = record {
    state = record s { branches = branches; reserved = reserved_with s.reserved requested };
    route = some "always";
    note = some (render (dispatched_branches (length branches) strategy));
  }

  decompose :
      RunState → Budget → BudgetReservation → Option (List (String × List String)) → NodeOutcome
  unfolding dispatched_outcome decomposition_branches
  decompose s child requested none = record {
    state = record s { strategy = some scratch; branches = [] };
    route = some "always";
    note = some "decomposition refused: criteria not partitionable";
  }
  decompose s child requested (some owned) =
      dispatched_outcome s decomposition requested (decomposition_branches ctx.run_id child 0 owned)

  -- The branches, once the reservation is granted.
  dispatch : RunState → Budget → BudgetReservation → NodeOutcome
  unfolding dispatched_outcome portfolio_branches decompose strategies
  dispatch s child requested =
      if is_portfolio s.strategy
      then dispatched_outcome s portfolio requested
          (portfolio_branches ctx.run_id child 0 (strategies (branch_count s - 1) s.bundle.skills))
      else decompose s child requested (partition_criteria render (some (branch_count s)) s)

  after_budget : RunState → Budget → BudgetReservation → Option Dimension → NodeOutcome
  unfolding refused dispatch
  after_budget s child requested (some dimension) = refused s dimension
  after_budget s child requested none = dispatch s child requested

  split_budget : RunState → Outcome NodeError NodeOutcome
  unfolding after_budget requested
  split_budget s =
      let child = child_budget s.budget (branch_count s) in
      raise_if (not (budget_accepted child)) invalid_budget (
        ok (
          after_budget s child (requested ctx s)
            (budget_excess s.budget s.spent s.reserved (requested ctx s))))

  -- `fan_out`
  pub fan_out : RunState → Outcome NodeError NodeOutcome
  unfolding split_budget
  fan_out s =
      if is_portfolio s.strategy || is_decomposition s.strategy
      then split_budget s
      else ok (record { state = s; route = some "always"; note = some "no fan-out strategy" })
