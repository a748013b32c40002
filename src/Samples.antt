-- ===== src/Samples.antt =====
-- Concrete values of the contracts, for the examples of the other modules.
use recertia.Prelude.{ℕ, String, Bool, true, false, none, some, []}
use recertia.Prelude.Int.{pos}
use recertia.Contracts.Criteria.{TaskCriterion, CriterionResult, CriterionKind, caller}
use recertia.Contracts.Common.{treatment, fresh_context}
use recertia.Contracts.Budget.{Budget, Spend, BudgetReservation}
use recertia.Contracts.Run.{RunState}

abbrev pub budget : Budget
budget = record {
  max_attempts = 3;
  max_tool_calls = 50;
  max_tokens = none;
  max_wall_clock_s = 900;
  max_cost_usd = some 20;
  max_branches = 4;
  max_parallel_steps = 4;
  claim_timeout_s = 60;
  max_versions_written = 2;
}

abbrev pub spent : Spend
spent = record {
  attempts = 1;
  tool_calls = 4;
  tokens = 100;
  wall_clock_s = 30;
  cost_usd = 5;
  versions_written = 0;
}

abbrev pub no_reservation : BudgetReservation
no_reservation = record {
  attempts = 0;
  tool_calls = 0;
  tokens = 0;
  wall_clock_s = 0;
  cost_usd = 0;
  versions_written = 0;
}

-- One more attempt, at a cost.
abbrev pub request : ℕ → BudgetReservation
request cost = record no_reservation { attempts = 1; cost_usd = cost }

abbrev pub run_state : RunState
run_state = record {
  run_id = "run-1";
  task = record {
    task_id = "task-1";
    goal = none;
    request = some "ABSTAIN: not now";
    task_class = none;
    submitted_by = none;
    is_eval_fixture = false;
  };
  arm = treatment;
  criteria = [];
  bundle = record {
    skills = [];
    facts = [];
    cases = [];
    dead_ends = [];
    tool_cautions = [];
    suppressed = false;
  };
  chosen = none;
  suppressed_skill = none;
  strategy = none;
  strategy_reason = none;
  predicted_success = none;
  execution_guide = none;
  attempt_no = 0;
  branches = [];
  transcript_ref = none;
  workspace_snapshots = [];
  results = [];
  results_history = [];
  certification_observations = [];
  merge_audits = [];
  failure_signal = none;
  failure = none;
  reusability = none;
  budget = budget;
  spent = spent;
  reserved = no_reservation;
  route_log = [];
  terminal = none;
  rest = "";
}

abbrev pub criterion : String → CriterionKind → TaskCriterion
criterion name kind = record {
  id = name;
  kind = kind;
  run = some "make test";
  expect_exit = pos 0;
  expr = none;
  target = none;
  schema_ref = none;
  metric_name = none;
  op = none;
  threshold = none;
  rubric = none;
  isolation = fresh_context;
  lens = none;
  timeout_s = 60;
  weight = 1_000_000;
  sensitivity_proof = none;
  source = caller;
  preregistered = true;
}

-- A proof whose evidence hash is `hash`.
abbrev pub proven_by : String → TaskCriterion → TaskCriterion
proven_by hash c = record c {
  sensitivity_proof = some (record {
    criterion_id = c.id;
    negative_fixture = "empty";
    rejected = true;
    checked_at = "now";
    checked_against = some "sha256:f";
    evidence_hash = some hash;
  });
}

abbrev pub result : Bool → TaskCriterion → CriterionResult
result passed c = record {
  criterion_id = c.id;
  kind = some c.kind;
  passed = passed;
  weight = c.weight;
  isolation = none;
  lens = none;
  context_hash = none;
  exit_code = none;
  output_excerpt = "";
  errored = false;
  duration_s = 1;
}
