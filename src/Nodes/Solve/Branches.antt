-- ===== src/Nodes/Solve/Branches.antt =====
-- nodes/solve_branches.py: the branches of a fan-out, each within its own lease on the budget.
pub mod Charges
use recertia.Prelude.{
  ℕ, zero, suc, ◌+◌, ◌*◌, String, Bool, true, false, not, ◌&&◌, ◌||◌, Option, none, some, List, [],
  ◌∷◌, keep, contains, all, length, Outcome, ok, raised, ◌>>=◌, if◌then◌else◌, leb,
}
use recertia.Contracts.Budget.{Spend, BudgetReservation, Dimension, budget_excess}
use recertia.Contracts.Branch.{
  BranchState, BranchStatus, dispatched, running, BranchKind, decomposition, portfolio,
}
use recertia.Contracts.Criteria.{TaskCriterion, CriterionResult, CriterionKind, full_weight}
use recertia.Contracts.Failure.{FailureSignal, FailureClass}
use recertia.Contracts.Run.{RunState}
use recertia.Graph.Engine.{NodeOutcome}
use recertia.Nodes.{Message, branches_ref, over_parent, branches_over_budget, ran_branches}
use recertia.Nodes.Attempt.{
  UsageDelta, AttemptMeter, open_meter, charge, preflight, failed, completed,
}
use recertia.Nodes.Solve.Env.{Solving}
use recertia.Nodes.Solve.Script.{no_usage, is_zero, solver_signal, or_text}

abbrev pub no_reservation : BudgetReservation
no_reservation = record {
  attempts = 0;
  tool_calls = 0;
  tokens = 0;
  wall_clock_s = 0;
  cost_usd = 0;
  versions_written = 0;
}

-- `branch.status in ("dispatched", "running")`
abbrev pub is_unsettled : BranchStatus → Bool
is_unsettled dispatched = true
is_unsettled running = true
is_unsettled _ = false

abbrev dispatched_status : BranchStatus → Bool
dispatched_status dispatched = true
dispatched_status _ = false

abbrev pub is_dispatched : BranchState → Bool
is_dispatched b = dispatched_status b.status

abbrev script_or_true : Option (List String) → List String
script_or_true none = "true" ∷ []
script_or_true (some []) = "true" ∷ []
script_or_true (some (c ∷ script)) = c ∷ script

-- `0.01 * (1 + n)`, in the unit in which fan_out reckons.
abbrev branch_cost : ℕ → ℕ
branch_cost n = 10_000 * (1 + n)

-- The spend of a branch once its script has run.
unfoldable pub projected : BranchState → ℕ → Spend
projected b calls = record {
  attempts = b.spent.attempts + 1;
  tool_calls = b.spent.tool_calls + calls;
  tokens = b.spent.tokens;
  wall_clock_s = b.spent.wall_clock_s;
  cost_usd = b.spent.cost_usd + branch_cost calls;
  versions_written = 0;
}

-- `branch_excess`: the spend stands where a run's committed spend does.
unfoldable pub branch_excess : BranchState → ℕ → Option Dimension
unfolding projected
branch_excess b calls = budget_excess b.budget (projected b calls) no_reservation no_reservation

branch_result : String → Bool → CriterionResult
branch_result name passed = record {
  criterion_id = name;
  kind = some CriterionKind.command;
  passed = passed;
  weight = full_weight;
  isolation = none;
  lens = none;
  context_hash = none;
  exit_code = none;
  output_excerpt = "";
  errored = false;
  duration_s = 0;
}

-- A branch after its turn, with the attempts and the work that the parent is charged for it.
pub record Settled : Type 0 where
  pub branch : BranchState
  pub attempts : ℕ
  pub usage : UsageDelta

-- `all(result.passed for result in results if result.weight >= 1.0)`
abbrev required_passed : List CriterionResult → Bool
required_passed = all (λ r. not (leb full_weight r.weight) || r.passed)

module _ (render : Message → String) (env : Solving) where
  -- Whether all commands succeeded, and how many ran.
  run_commands : BranchState → ℕ → List String → Bool × ℕ
  run_commands b n [] = (true, n)
  run_commands b n (c ∷ script) =
      let rest = run_commands b (suc n) script in
      if is_zero (env.branch_command b n c) then rest else (false, suc n)

  score_each : BranchState → List TaskCriterion → Outcome String (List CriterionResult)
  score_each b [] = ok []
  score_each b (c ∷ criteria) =
      env.score_owned b c >>= λ r. score_each b criteria >>= λ results. ok (r ∷ results)

  results_of :
      BranchKind
      → BranchState
      → List TaskCriterion
      → Bool
      → Outcome String (Bool × List CriterionResult)
  unfolding score_each branch_result
  results_of decomposition b criteria passed =
      score_each b (keep (λ c. contains c.id b.owned_criteria) criteria) >>= λ results.
      ok (passed && required_passed results, results)
  results_of portfolio b criteria passed = ok (passed, branch_result "branch-ok" passed ∷ [])

  timed_out_branch : BranchState → ℕ → Settled
  unfolding projected branch_result
  timed_out_branch b calls = record {
    branch = record b {
      status = BranchStatus.timed_out;
      results = branch_result "branch-budget" false ∷ [];
      workspace_ref = env.branch_workspace b;
      spent = projected b calls;
      reserved = no_reservation;
    };
    attempts = (projected b calls).attempts;
    usage = record {
      tool_calls = (projected b calls).tool_calls;
      tokens = (projected b calls).tokens;
      cost_usd = (projected b calls).cost_usd;
    };
  }

  ended_branch : BranchState → ℕ → Bool × List CriterionResult → Settled
  ended_branch b executed (passed, results) = record {
    branch = record b {
      status = if passed then BranchStatus.succeeded else BranchStatus.failed;
      results = results;
      cost_usd = some (branch_cost executed);
      workspace_ref = env.branch_workspace b;
      spent = record {
        attempts = 1;
        tool_calls = executed;
        tokens = 0;
        wall_clock_s = env.branch_elapsed_s b;
        cost_usd = branch_cost executed;
        versions_written = 0;
      };
      reserved = no_reservation;
    };
    attempts = 1;
    usage = record { tool_calls = executed; tokens = 0; cost_usd = branch_cost executed };
  }

  worked :
      BranchState → List TaskCriterion → Option Dimension → List String → Outcome String Settled
  unfolding timed_out_branch results_of ended_branch run_commands
  worked b criteria (some d) script = ok (timed_out_branch b (length script))
  worked b criteria none script =
      let run = run_commands b 0 script in
      results_of b.kind b criteria run.0 >>= λ scored. ok (ended_branch b run.1 scored)

  -- One turn of the loop.
  unfoldable pub settle : List TaskCriterion → BranchState → Outcome String Settled
  unfolding worked
  settle criteria b =
      let script = script_or_true env.script in
      if is_unsettled b.status
      then worked b criteria (branch_excess b (length script)) script
      else ok (record { branch = b; attempts = 0; usage = no_usage })

  -- The variables of the loop: the branches that are settled, the attempts charged, and the meter.
  pub record Looped : Type 0 where
    pub updated : List BranchState
    pub attempts_charged : ℕ
    pub meter : AttemptMeter

  add_settled : Settled → Looped → Looped
  add_settled b l = record {
    updated = b.branch ∷ l.updated;
    attempts_charged = b.attempts + l.attempts_charged;
    meter = l.meter;
  }

  unfoldable pub branch_loop :
      List TaskCriterion → List BranchState → AttemptMeter → Outcome String Looped
  unfolding add_settled
  branch_loop criteria [] m = ok (record { updated = []; attempts_charged = 0; meter = m })
  branch_loop criteria (b ∷ branches) m = settle criteria b >>= λ settled.
      branch_loop criteria branches (charge settled.usage m) >>= λ l. ok (add_settled settled l)

  -- The updates `retired`, with the pointer to the branches' transcript.
  abbrev retired : RunState → ℕ → List BranchState → NodeOutcome → NodeOutcome
  retired s attempt_no branches out = record out {
    state = record out.state {
      reserved = no_reservation;
      branches = branches;
      transcript_ref = some (render (branches_ref s.run_id attempt_no));
    };
  }

  settled_as : RunState → ℕ → Looped → Option Dimension → NodeOutcome
  settled_as s attempt_no l (some d) = retired s attempt_no l.updated (
      failed s l.meter
        (solver_signal render env (render (over_parent d)) (some FailureClass.budget)) attempt_no
        "pre_validation_failure_signal" (some (render (branches_over_budget d))) l.attempts_charged
        env.clock_end)
  settled_as s attempt_no l none = retired s attempt_no l.updated (
      completed s l.meter attempt_no (render (branches_ref s.run_id attempt_no))
        (some (render (ran_branches (length l.updated)))) l.attempts_charged env.clock_end)

  -- `solve_branches`
  pub solve_branches : RunState → ℕ → Outcome String NodeOutcome
  unfolding settled_as
  solve_branches s attempt_no =
      branch_loop s.criteria s.branches (open_meter s (some no_reservation) env.clock_start)
      >>= λ l.
          ok (
            settled_as s attempt_no l (preflight l.meter l.attempts_charged no_usage env.clock_end))
