-- ===== src/Nodes/Validate.antt =====
-- nodes/validate.py: scoring the locked criteria and the route that follows. How one criterion is
-- scored, by a command, an expression or a judge, is an argument, and so are the advisory results of
-- the certification criteria.
pub mod Legal
pub mod Books
mod Tests
use recertia.Prelude.{
  ℕ, ◌==◌, String, Bool, true, false, not, ◌&&◌, ◌||◌, Option, none, some, List, [], ◌∷◌, ◌++◌, any,
  is_empty, is_some, Outcome, ok, raise_if, ◌>>=◌, if◌then◌else◌,
}
use recertia.Contracts.Common.{Lens, correctness, currency, provenance, scope, safety}
use recertia.Contracts.Criteria.{
  TaskCriterion, CriterionResult, is_judge, failed_ids, is_required, is_preregistered_and_proven,
}
use recertia.Contracts.Failure.{FailureSignal, FailureSource}
use recertia.Contracts.Run.{RunState}
use recertia.Graph.Engine.{NodeOutcome}
use recertia.Nodes.{
  Message, advisory_note, advisory_excerpt, failed_observations, joined_notes, NodeError,
  repeated_lens,
}

abbrev lens_code : Option Lens → ℕ
lens_code none = 0
lens_code (some correctness) = 1
lens_code (some currency) = 2
lens_code (some provenance) = 3
lens_code (some scope) = 4
lens_code (some safety) = 5

-- `len(lenses) != len(set(lenses))` of validation/judge.py, on the lenses of the judges.
has_repeated_lens : List TaskCriterion → Bool
has_repeated_lens [] = false
has_repeated_lens (c ∷ cs) =
    is_judge c.kind && any (λ d. is_judge d.kind && lens_code d.lens == lens_code c.lens) cs
    || has_repeated_lens cs

-- What the environment of the node gives it.
pub record Scoring : Type 0 where
  -- `sensitivity_evidence_hash`
  pub evidence_hash : TaskCriterion → String → String
  -- `ctx.op_once(…, _score_criterion_dict)`
  pub score : TaskCriterion → CriterionResult
  pub observations : RunState → List CriterionResult
  pub now : String

-- The variables of the loop of `score_criteria`.
pub record Scored : Type 0 where
  pub results : List CriterionResult
  pub any_effectively_required_failed : Bool
  pub downgrade_notes : List String

unfoldable pub effectively_required : Scoring → TaskCriterion → Bool
effectively_required env c = is_required c && is_preregistered_and_proven env.evidence_hash c

module _ (render : Message → String) (env : Scoring) where
  advisory_result : CriterionResult → CriterionResult
  advisory_result r = record r {
    passed = true;
    output_excerpt = render (advisory_excerpt r.passed r.output_excerpt);
  }

  -- One turn of the loop, in front of what the later criteria give.
  add_score : TaskCriterion → CriterionResult → Scored → Scored
  unfolding advisory_result
  add_score c result later =
      if is_required c && not (effectively_required env c)
      then record {
        results = advisory_result result ∷ later.results;
        any_effectively_required_failed = later.any_effectively_required_failed;
        downgrade_notes = render (advisory_note c.id result.passed) ∷ later.downgrade_notes;
      }
      else record {
        results = result ∷ later.results;
        any_effectively_required_failed =
            is_required c && not result.passed || later.any_effectively_required_failed;
        downgrade_notes = later.downgrade_notes;
      }

  score_all : List TaskCriterion → Scored
  unfolding add_score
  score_all [] = record {
    results = [];
    any_effectively_required_failed = false;
    downgrade_notes = [];
  }
  score_all (c ∷ cs) = add_score c (env.score c) (score_all cs)

  unfoldable pub signal_of : Bool → Option FailureSignal
  signal_of false = none
  signal_of true = some (record {
    source = FailureSource.validator;
    detail = "a required, proven criterion failed";
    at = env.now;
    class_hint = none;
  })

  -- `score_criteria`
  unfoldable pub score_criteria : RunState → Outcome NodeError Scored
  unfolding has_repeated_lens score_all
  score_criteria s =
      raise_if (has_repeated_lens s.criteria) repeated_lens (ok (score_all s.criteria))

  observation_notes : List String → List String
  observation_notes [] = []
  observation_notes (i ∷ ids) = render (failed_observations (i ∷ ids)) ∷ []

  note_of : List String → Option String
  note_of [] = none
  note_of (n ∷ notes) = some (render (joined_notes (n ∷ notes)))

  route_of : RunState → Option FailureSignal → String
  route_of s signal =
      if not (is_empty s.branches)
      then "has_branches"
      else if is_some signal
      then "no_branches_and_failing"
      else "no_branches_and_passing"

  validated : RunState → Scored → NodeOutcome
  unfolding signal_of failed_ids observation_notes note_of route_of
  validated s scored =
      let signal = signal_of scored.any_effectively_required_failed in
      record {
        state = record s {
          results = scored.results;
          results_history = s.results_history ++ scored.results ∷ [];
          failure_signal = signal;
          certification_observations = env.observations s;
        };
        route = some (route_of s signal);
        note =
            note_of (scored.downgrade_notes ++ observation_notes (failed_ids (env.observations s)));
      }

  -- `validate`
  pub validate_node : RunState → Outcome NodeError NodeOutcome
  unfolding score_criteria validated
  validate_node s = score_criteria s >>= λ scored. ok (validated s scored)
