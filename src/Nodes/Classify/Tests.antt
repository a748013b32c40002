-- ===== src/Nodes/Classify/Tests.antt =====
-- A solver's timeout, and a required criterion whose proof did not reject.
use recertia.Prelude.{◌≡◌, String, true, false, some, none, [], ◌∷◌, ok, raised, refl}
use recertia.Samples.{run_state, criterion, result}
use recertia.Contracts.Criteria.{TaskCriterion, command, is_required, failed_ids}
use recertia.Contracts.Failure.{FailureSignal, FailureSource, is_criteria}
use recertia.Contracts.Run.{RunState}
use recertia.Graph.Engine.{NodeOutcome}
use recertia.Nodes.{Message, inconsistent_verdict}
use recertia.Nodes.Classify.{
  ClassifyContext, classify_node, failure_of, failure_cases, is_tool_failure,
  is_environment_failure, has_invalid_sensitivity_proof,
}
use recertia.Nodes.Classify.Verdict.{Classified, classify_node-Classified, criteria_blame_raises}

abbrev text : Message → String
text _ = "text"

abbrev context : ClassifyContext
context = record { tools = none; affordances = none; lower = λ s. s }

abbrev timeout : FailureSignal
timeout = record {
  source = FailureSource.solver;
  detail = "claim timeout";
  at = "now";
  class_hint = none;
}

abbrev timed_out : RunState
timed_out = record run_state { failure_signal = some timeout }

not_criteria : is_criteria (failure_of text context timed_out timeout).failure_class ≡ false
unfolding failure_of failure_cases is_tool_failure is_environment_failure
not_criteria = refl

classify_node-Classified_example :
    (out : NodeOutcome) × (classify_node text context timed_out ≡ ok out) × Classified timed_out out
classify_node-Classified_example =
    classify_node-Classified text context timed_out timeout refl not_criteria

-- The criterion's proof accepted the negative fixture.
abbrev accepting : TaskCriterion
accepting = record (criterion "a" command) {
  sensitivity_proof = some (record {
    criterion_id = "a";
    negative_fixture = "empty";
    rejected = false;
    checked_at = "now";
    checked_against = none;
    evidence_hash = none;
  });
}

abbrev failing : FailureSignal
failing = record {
  source = FailureSource.validator;
  detail = "failed";
  at = "now";
  class_hint = none;
}

abbrev unproven : RunState
unproven = record run_state {
  criteria = accepting ∷ [];
  results = result false accepting ∷ [];
  failure_signal = some failing;
}

blames_criteria : is_criteria (failure_of text context unproven failing).failure_class ≡ true
unfolding failure_of failure_cases is_tool_failure is_environment_failure
    has_invalid_sensitivity_proof failed_ids is_required
blames_criteria = refl

criteria_blame_raises_example : classify_node text context unproven ≡ raised inconsistent_verdict
criteria_blame_raises_example =
    criteria_blame_raises text context unproven failing refl blames_criteria
