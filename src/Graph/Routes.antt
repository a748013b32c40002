-- ===== src/Graph/Routes.antt =====
-- contracts/graph.py: the nodes, the route table with its predicates, and the routes that are legal
-- in a state.
pub mod Unique
mod Tests
use recertia.Prelude.{
  ℕ, ◌==◌, String, Bool, true, false, not, ◌&&◌, ◌||◌, Option, none, some, List, [], ◌∷◌, ltb, leb,
  is_none, is_some, is_empty, all, keep, length, contains, list_eq, str_eq, if◌then◌else◌,
}
use recertia.Contracts.Common.{Strategy, apply, adapt, scratch, portfolio, decomposition, abstain}
use recertia.Contracts.Criteria.{TaskCriterion, CriterionResult, is_required, result_eq}
use recertia.Contracts.Failure.{FailureClass, FailureVerdict}
use recertia.Contracts.Branch.{MergeAudit, is_complete}
use recertia.Contracts.Run.{Reusability, reusable, one_off, duplicate, RunState}

pub data Node : Type 0 where
  intake retrieve plan fan_out solve validate join classify_failure evolve distill : Node
  review store record_dead_end reject_draft finalize : Node

abbrev pub node_no : Node → ℕ
node_no intake = 0
node_no retrieve = 1
node_no plan = 2
node_no fan_out = 3
node_no solve = 4
node_no validate = 5
node_no join = 6
node_no classify_failure = 7
node_no evolve = 8
node_no distill = 9
node_no review = 10
node_no store = 11
node_no record_dead_end = 12
node_no reject_draft = 13
node_no finalize = 14

pub record Route : Type 0 where
  pub source : Node
  pub target : Node
  pub predicate_name : String
  pub predicate : RunState → Bool
  pub description : String

-- `{c.id for c in state.criteria if c.is_required}`, with repetitions.
unfoldable pub required_ids : List TaskCriterion → List String
required_ids [] = []
required_ids (c ∷ criteria) =
    let rest = required_ids criteria in if is_required c then c.id ∷ rest else rest

-- `{r.criterion_id for r in state.results if r.passed}`, with repetitions.
unfoldable pub passed_ids : List CriterionResult → List String
passed_ids [] = []
passed_ids (r ∷ results) =
    let rest = passed_ids results in if r.passed then r.criterion_id ∷ rest else rest

unfoldable pub required_criteria_pass : RunState → Bool
unfolding required_ids passed_ids
required_criteria_pass s =
    let passed = passed_ids s.results in all (λ i. contains i passed) (required_ids s.criteria)

unfoldable pub has_branches : RunState → Bool
has_branches s = not (is_empty s.branches)

unfoldable pub join_complete_and_passing : RunState → Bool
join_complete_and_passing s =
    not (is_empty s.merge_audits) && (all is_complete s.merge_audits && required_criteria_pass s)

unfoldable pub failure_signal_present : RunState → Bool
failure_signal_present s = is_some s.failure_signal

-- `results_history[-1] == results_history[-2]`, where there are two.
pub last_two_equal : List (List CriterionResult) → Bool
last_two_equal [] = false
last_two_equal (a ∷ []) = false
last_two_equal (a ∷ b ∷ []) = list_eq result_eq b a
last_two_equal (a ∷ b ∷ c ∷ rest) = last_two_equal (b ∷ c ∷ rest)

-- `failure_class in ("criteria", "budget")`
pub ends_the_run : FailureClass → Bool
ends_the_run FailureClass.criteria = true
ends_the_run FailureClass.budget = true
ends_the_run _ = false

abbrev pub class_permits_retry : Option FailureVerdict → Bool
class_permits_retry none = false
class_permits_retry (some verdict) = not (ends_the_run verdict.failure_class)

unfoldable pub budget_remains_with_progress : RunState → Bool
budget_remains_with_progress s =
    class_permits_retry s.failure
    && (not (leb s.budget.max_attempts s.spent.attempts) && not (last_two_equal s.results_history))

abbrev pub strategy_abstains : Option Strategy → Bool
strategy_abstains (some abstain) = true
strategy_abstains _ = false

abbrev pub strategy_fans_out : Option Strategy → Bool
strategy_fans_out (some portfolio) = true
strategy_fans_out (some decomposition) = true
strategy_fans_out _ = false

abbrev pub strategy_is_single : Option Strategy → Bool
strategy_is_single (some apply) = true
strategy_is_single (some adapt) = true
strategy_is_single (some scratch) = true
strategy_is_single _ = false

abbrev pub verdict_reusable : Option Reusability → Bool
verdict_reusable (some reusable) = true
verdict_reusable _ = false

abbrev pub verdict_one_off : Option Reusability → Bool
verdict_one_off (some one_off) = true
verdict_one_off _ = false

abbrev always : RunState → Bool
always s = true

abbrev route : Node → Node → String → (RunState → Bool) → String → Route
route source target name predicate description = record {
  source = source;
  target = target;
  predicate_name = name;
  predicate = predicate;
  description = description;
}

unfoldable pub routes : List Route
unfolding has_branches join_complete_and_passing failure_signal_present
routes =
    route intake retrieve "always" always "Every intake proceeds to retrieve."
    ∷ route retrieve plan "always" always "Every retrieve proceeds to plan."
    ∷ route plan finalize "abstain" (λ s. strategy_abstains s.strategy)
        "Abstention is a legitimate terminal outcome (terminal='abstained')."
    ∷ route plan fan_out "fan_out_strategy" (λ s. strategy_fans_out s.strategy)
        "Portfolio and decomposition strategies fan out before solving."
    ∷ route plan solve "single_strategy" (λ s. strategy_is_single s.strategy)
        "Single-strategy runs solve directly."
    ∷ route fan_out classify_failure "pre_dispatch_budget_failure" (λ s. is_some s.failure_signal)
        "A failed branch reservation is a budget failure before any branch is dispatched."
    ∷ route fan_out solve "always" (λ s. is_none s.failure_signal)
        "Every successfully dispatched branch proceeds to solve."
    ∷ route solve classify_failure "pre_validation_failure_signal" (λ s. is_some s.failure_signal)
        "Environment, tool, or mid-attempt budget failures occur before or instead of validation (ADR-0008), including after a retry retains prior validation results."
    ∷ route solve validate "attempt_completed"
        (λ s. is_some s.transcript_ref && is_none s.failure_signal)
        "A completed attempt (whether it will pass or fail) proceeds to validation."
    ∷ route validate join "has_branches" has_branches
        "join exists only when fan_out produced branches (ADR-0008 Option 1)."
    ∷ route validate distill "no_branches_and_passing"
        (λ s. not (has_branches s) && (required_criteria_pass s && is_none s.failure_signal))
        "Ordinary single-attempt runs route directly to distill on the default path."
    ∷ route validate classify_failure "no_branches_and_failing"
        (λ s. not (has_branches s) && (not (required_criteria_pass s) || failure_signal_present s))
        "A failed required criterion, or a raised FailureSignal, routes to classification."
    ∷ route join distill "merge_complete_and_passing" join_complete_and_passing
        "Merge audits complete and the selected/synthesised result passes required criteria."
    ∷ route join classify_failure "otherwise" (λ s. not (join_complete_and_passing s))
        "A merge gap or a failed post-merge criterion routes to classification."
    ∷ route classify_failure evolve "retry" budget_remains_with_progress
        "Budget remains, progress was observed, and the class is not criteria or budget."
    ∷ route classify_failure record_dead_end "otherwise" (λ s. not (budget_remains_with_progress s))
        "Exhausted budget, no progress, or a criteria/budget class ends the run here."
    ∷ route evolve solve "always" always "Evolve always re-dispatches to solve."
    ∷ route distill review "reusable" (λ s. verdict_reusable s.reusability)
        "A reusable draft goes to review."
    ∷ route distill finalize "one_off" (λ s. verdict_one_off s.reusability)
        "A one-off is recorded as evidence but not reviewed for storage."
    ∷ route review store "approved" always "Policy auto-approves or a human approved."
    ∷ route review reject_draft "rejected" always "A human or policy rejected the draft."
    ∷ route store finalize "always" always "Store always finalises."
    ∷ route record_dead_end finalize "always" always "record_dead_end always finalises."
    ∷ route reject_draft finalize "always" always "reject_draft always finalises."
    ∷ []

unfoldable pub routes_from : Node → List Route
unfolding routes
routes_from node = keep (λ r. node_no r.source == node_no node) routes

unfoldable pub legal_routes : Node → RunState → List Route
unfolding routes_from
legal_routes node s = keep (λ r. r.predicate s) (routes_from node)
