-- ===== src/Nodes/Solve/Tests.antt =====
-- Attempts of a scripted run, of a model's run, and of a run with dispatched branches.
use recertia.Prelude.{
  ℕ, suc, ◌≡◌, String, true, false, Option, none, some, [], ◌∷◌, Outcome, ok, raised, refl,
}
use recertia.Prelude.Int.{pos}
use recertia.Samples.{run_state, result}
use recertia.Contracts.Budget.{budget_excess}
use recertia.Graph.Engine.{NodeOutcome}
use recertia.Nodes.{Message}
use recertia.Nodes.Attempt.{UsageDelta, open_meter, charge, preflight, commit, completed}
use recertia.Nodes.Solve.Env.{Solving, ran}
use recertia.Nodes.Solve.Script.{solve_script_via_tools}
use recertia.Nodes.Solve.{solve_node, resolve_script}
use recertia.Nodes.Solve.Charge.{IsCharged, Returns}
use recertia.Nodes.Solve.Charged.{solve_node-IsCharged}

abbrev text : Message → String
text _ = "text"

abbrev usage : UsageDelta
usage = record { tool_calls = 1; tokens = 2; cost_usd = 3 }

abbrev env : Solving
env = record {
  script = some ("make" ∷ "make test" ∷ []);
  has_tools = true;
  has_model = false;
  has_applicator = false;
  has_store = false;
  transcripts = some "transcript";
  proposed = raised "no model";
  model_help = "set a model";
  skill_script = λ _. raised "no store";
  command_op = λ _ _. ok (record { returncode = pos 0; flaky = false; usage = usage });
  scratch_op = λ n _. ok (record {
    prompt_tokens = 5;
    completion_tokens = 5;
    cost_usd = 1;
    command = "true";
    turned = ran (record { returncode = pos 0; flaky = false; usage = usage });
    entry = "$ true";
  });
  apply_op = λ _. raised "no applicator";
  scratch_max_steps = 3;
  branch_command = λ _ _ _. pos 0;
  score_owned = λ _ c. ok (result true c);
  branch_elapsed_s = λ _. 1;
  branch_workspace = λ b. b.branch_id;
  clock_start = 100;
  clock_at = λ n. 101;
  clock_end = 102;
  now = "now";
}

abbrev tool_calls_of : Outcome String NodeOutcome → Option ℕ
tool_calls_of (ok out) = some out.state.spent.tool_calls
tool_calls_of (raised e) = none

two_commands :
    tool_calls_of (solve_node text env run_state) ≡ some (suc (suc run_state.spent.tool_calls))
unfolding solve_node resolve_script solve_script_via_tools open_meter preflight budget_excess
    completed commit charge
two_commands = refl

solve_node-IsCharged_example : Returns (IsCharged run_state) (solve_node text env run_state)
solve_node-IsCharged_example = solve_node-IsCharged text env run_state
