-- ===== src/Nodes/Validate/Tests.antt =====
-- `validate` on a run with one proven criterion that fails and one without a proof.
use recertia.Prelude.{◌≡◌, String, false, [], ◌∷◌, ok, any, is_some, refl}
use recertia.Samples.{run_state, criterion, proven_by, result}
use recertia.Contracts.Criteria.{command}
use recertia.Contracts.Run.{RunState}
use recertia.Graph.Routes.{Route, validate}
use recertia.Graph.Engine.{NodeOutcome, choose_route}
use recertia.Nodes.{Message}
use recertia.Nodes.Validate.{
  Scoring, validate_node, validated, score_all, score_criteria, has_repeated_lens,
}
use recertia.Nodes.Validate.Legal.{Labelled, failing, after_validate, validate_node-Legal}

abbrev text : Message → String
text _ = "text"

abbrev failing_env : Scoring
failing_env = record {
  evidence_hash = λ _ _. "hash";
  score = λ c. result false c;
  observations = λ _. [];
  now = "now";
}

abbrev two_criteria : RunState
two_criteria = record run_state {
  criteria = proven_by "hash" (criterion "a" command) ∷ criterion "b" command ∷ [];
}

abbrev scored_outcome : NodeOutcome
scored_outcome =
    validated text failing_env two_criteria (score_all text failing_env two_criteria.criteria)

scored_two : validate_node text failing_env two_criteria ≡ ok scored_outcome
unfolding validate_node score_criteria has_repeated_lens
scored_two = refl

labelled : Labelled failing_env
unfolding Labelled
labelled c = refl

validate_node-Legal_example :
    ((r : Route) × (choose_route validate scored_outcome ≡ ok r)
      × (r.target ≡ after_validate text failing_env two_criteria))
    × (is_some scored_outcome.state.failure_signal
        ≡ any (failing text failing_env) two_criteria.criteria)
validate_node-Legal_example =
    validate_node-Legal text failing_env labelled two_criteria scored_outcome scored_two
