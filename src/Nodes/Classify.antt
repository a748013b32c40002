-- ===== src/Nodes/Classify.antt =====
-- nodes/classify_failure.py: the verdict on a failure signal. The tool registry and the affordance
-- store enter by the answers they give; a store whose lookup fails with a database error is `none`.
pub mod Verdict
pub mod Books
mod Tests
use recertia.Prelude.{
  ℕ, ◌==◌, String, Bool, true, false, not, ◌&&◌, ◌||◌, Option, none, some, List, [], ◌∷◌, is_none,
  is_some, is_empty, leb, any, contains, first_case, length, Outcome, ok, raised, raise_if,
  if◌then◌else◌, starts_with, has_text,
}
use recertia.Contracts.Criteria.{TaskCriterion, SensitivityProof, is_required, failed_ids}
use recertia.Contracts.Failure.{
  FailureClass, environment, tool, retrieval, execution, criteria, budget, merge, FailureSource,
  FailureSignal, SkillRef, FailureVerdict, is_consistent,
}
use recertia.Contracts.Run.{RunState, SkillCandidateRef}
use recertia.Graph.Routes.{Route, classify_failure, legal_routes}
use recertia.Graph.Engine.{NodeOutcome}
use recertia.Nodes.{
  Message, attempts_spent, invalid_proof, classified_as, NodeError, no_failure_signal,
  inconsistent_verdict, ambiguous_routes,
}

pub record ToolView : Type 0 where
  pub names : List String
  pub is_flaky : String → Bool
  pub match_error_signature : String → String → Bool

pub record ClassifyContext : Type 0 where
  pub tools : Option ToolView
  pub affordances : Option (Option ToolView)
  -- `str.lower`
  pub lower : String → String

abbrev names_a_tool : ToolView → String → Bool
names_a_tool t detail =
    any (λ n. (t.is_flaky n && has_text detail n) || t.match_error_signature n detail) t.names

abbrev tools_name_it : Option ToolView → String → Bool
tools_name_it none detail = false
tools_name_it (some t) detail = names_a_tool t detail

-- `_affordances_name_a_tool`, where there is a store.
abbrev affordances_name_a_tool : Option (Option ToolView) → String → Bool
affordances_name_a_tool none detail = false
affordances_name_a_tool (some none) detail = false
affordances_name_a_tool (some (some t)) detail = names_a_tool t detail

-- `_is_tool_failure`
unfoldable pub is_tool_failure : ClassifyContext → String → Bool
is_tool_failure ctx detail =
    (is_none ctx.tools && is_none ctx.affordances)
    || (tools_name_it ctx.tools detail
        || (affordances_name_a_tool ctx.affordances detail
            || (has_text detail "tool=" || has_text (ctx.lower detail) "flaky")))

unfoldable pub is_environment_failure : String → Bool
is_environment_failure detail =
    starts_with detail "environment:" || has_text detail "before first productive"

abbrev does_not_reject : Option SensitivityProof → Bool
does_not_reject none = false
does_not_reject (some proof) = not proof.rejected

unfoldable pub has_invalid_sensitivity_proof : RunState → Bool
unfolding failed_ids
has_invalid_sensitivity_proof s =
    any
      (λ c.
        contains c.id (failed_ids s.results)
        && (is_required c && does_not_reject c.sensitivity_proof))
      s.criteria

abbrev is_budget_hint : Option FailureClass → Bool
is_budget_hint (some budget) = true
is_budget_hint _ = false

abbrev from_solver : FailureSource → Bool
from_solver FailureSource.solver = true
from_solver _ = false

abbrev from_join : FailureSource → Bool
from_join FailureSource.join = true
from_join _ = false

abbrev from_validator : FailureSource → Bool
from_validator FailureSource.validator = true
from_validator _ = false

-- The `{"skill_id": …, "version": …}` of the chosen skill.
abbrev skill_ref : Option SkillCandidateRef → Option SkillRef
skill_ref none = none
skill_ref (some c) = some (record { skill_id = c.skill_id; version = c.version })

abbrev verdict : FailureClass → List String → Option SkillRef → Bool → Bool → FailureVerdict
verdict class evidence skill trust human = record {
  failure_class = class;
  evidence = evidence;
  implicated_skill = skill;
  counts_against_trust = trust;
  escalate_to_human = human;
}

-- `xs or ys`
abbrev or_else : List String → List String → List String
or_else [] ys = ys
or_else (x ∷ xs) ys = x ∷ xs

-- `legal[0]`, where there is just one.
abbrev pub only_route : List Route → Outcome NodeError Route
only_route [] = raised ambiguous_routes
only_route (r ∷ []) = ok r
only_route (r ∷ q ∷ rest) = raised ambiguous_routes

module _ (render : Message → String) where
  invalid_proof_evidence : List String → List TaskCriterion → List String
  invalid_proof_evidence failed [] = []
  invalid_proof_evidence failed (c ∷ cs) =
      let rest = invalid_proof_evidence failed cs in
      if contains c.id failed && does_not_reject c.sensitivity_proof
      then render (invalid_proof c.id) ∷ rest
      else rest

  budget_evidence : RunState → FailureSignal → List String
  budget_evidence s signal =
      (if is_budget_hint signal.class_hint || has_text signal.detail "budget exhausted"
        then signal.detail
        else render (attempts_spent s.spent.attempts s.budget.max_attempts))
      ∷ []

  -- The chain of tests, each with its verdict, and the last `else`.
  unfoldable pub failure_cases :
      ClassifyContext → RunState → FailureSignal → List (Bool × FailureVerdict)
  unfolding is_tool_failure is_environment_failure has_invalid_sensitivity_proof
      invalid_proof_evidence budget_evidence failed_ids
  failure_cases ctx s signal =
      let detail = signal.detail in
      let in_solver = from_solver signal.source in
      (
        is_budget_hint signal.class_hint
            || (leb s.budget.max_attempts s.spent.attempts || has_text detail "budget exhausted"),
        verdict budget (budget_evidence s signal) none false false,
      )
      ∷ (from_join signal.source, verdict merge (detail ∷ []) none false false)
      ∷ (in_solver && is_tool_failure ctx detail, verdict tool (detail ∷ []) none false false)
      ∷ (
        in_solver && has_text (ctx.lower detail) "claim timeout",
        verdict merge (detail ∷ []) none false false,
      )
      ∷ (
        in_solver && is_environment_failure detail,
        verdict environment (detail ∷ []) none false false,
      )
      ∷ (in_solver, verdict tool (detail ∷ []) none false false)
      ∷ (
        has_invalid_sensitivity_proof s,
        verdict criteria (invalid_proof_evidence (failed_ids s.results) s.criteria) none false true,
      )
      ∷ (
        is_some s.chosen && (is_empty s.results && from_validator signal.source),
        verdict retrieval (detail ∷ []) (skill_ref s.chosen) true false,
      )
      ∷ []

  unfoldable pub otherwise_failure : RunState → FailureSignal → FailureVerdict
  unfolding failed_ids
  otherwise_failure s signal =
      verdict execution (or_else (failed_ids s.results) (signal.detail ∷ [])) (skill_ref s.chosen)
        true false

  unfoldable pub failure_of : ClassifyContext → RunState → FailureSignal → FailureVerdict
  unfolding failure_cases otherwise_failure
  failure_of ctx s signal = first_case (failure_cases ctx s signal) (otherwise_failure s signal)

  classified : RunState → FailureVerdict → Outcome NodeError Route → Outcome NodeError NodeOutcome
  classified s failure (raised e) = raised e
  classified s failure (ok r) = ok (record {
    state = s;
    route = some r.predicate_name;
    note = some (render (classified_as failure.failure_class));
  })

  with_verdict : RunState → FailureVerdict → Outcome NodeError NodeOutcome
  unfolding classified
  with_verdict s failure =
      let new_state = record s { failure = some failure } in
      raise_if (not (is_consistent failure)) inconsistent_verdict
        (classified new_state failure (only_route (legal_routes classify_failure new_state)))

  classify_signal :
      ClassifyContext → RunState → Option FailureSignal → Outcome NodeError NodeOutcome
  unfolding with_verdict failure_of
  classify_signal ctx s none = raised no_failure_signal
  classify_signal ctx s (some signal) = with_verdict s (failure_of ctx s signal)

  -- `classify_failure`; its two assertions are errors.
  pub classify_node : ClassifyContext → RunState → Outcome NodeError NodeOutcome
  unfolding classify_signal
  classify_node ctx s = classify_signal ctx s s.failure_signal
