-- ===== src/Contracts/Run.antt =====
-- contracts/run.py: the state that is threaded through the graph. The fields that neither the route
-- table, the engine nor a node modelled here reads are kept together, serialised, in `rest`.
use recertia.Prelude.{
  ℕ, String, Bool, true, false, not, ◌&&◌, ◌||◌, Option, List, [], ◌∷◌, ◌++◌, is_none, is_empty,
  contains,
}
use recertia.Contracts.Budget.{Budget, Spend, BudgetReservation}
use recertia.Contracts.Common.{Strategy, Arm, control, Terminal}
use recertia.Contracts.Criteria.{TaskCriterion, CriterionResult}
use recertia.Contracts.Failure.{FailureSignal, FailureVerdict}
use recertia.Contracts.Branch.{BranchKind, BranchState, MergeAudit}

-- The literals of a goal's `strategy_hint`.
pub data StrategyHint : Type 0 where
  abstain_hint portfolio_hint decomposition_hint : StrategyHint

-- A task, with its goal by the one field of it that the nodes modelled here read.
pub record Task : Type 0 where
  pub task_id : String
  pub goal : Option (Option StrategyHint)
  pub request : Option String
  pub task_class : Option String
  pub submitted_by : Option String
  pub is_eval_fixture : Bool

pub record SkillCandidateRef : Type 0 where
  pub skill_id : String
  pub version : ℕ
  pub score : ℕ
  pub is_shadow : Bool

pub record MemoryElementRef : Type 0 where
  pub ref : String
  pub summary : Option String

pub record MemoryBundle : Type 0 where
  pub skills : List SkillCandidateRef
  pub facts : List MemoryElementRef
  pub cases : List MemoryElementRef
  pub dead_ends : List MemoryElementRef
  pub tool_cautions : List MemoryElementRef
  pub suppressed : Bool

pub record WorkspaceSnapshot : Type 0 where
  pub attempt_no : ℕ
  pub snapshot_ref : String
  pub restored : Bool

pub data Reusability : Type 0 where
  reusable one_off duplicate : Reusability

pub record RouteEntry : Type 0 where
  pub node : String
  pub route : String
  pub reason : String
  pub attempt_no : ℕ
  pub at : String

pub record RunState : Type 0 where
  pub run_id : String
  pub task : Task
  pub arm : Arm
  pub criteria : List TaskCriterion
  pub bundle : MemoryBundle
  pub chosen : Option SkillCandidateRef
  pub suppressed_skill : Option SkillCandidateRef
  pub strategy : Option Strategy
  pub strategy_reason : Option String
  pub predicted_success : Option ℕ
  pub execution_guide : Option String
  pub attempt_no : ℕ
  pub branches : List BranchState
  pub transcript_ref : Option String
  pub workspace_snapshots : List WorkspaceSnapshot
  pub results : List CriterionResult
  pub results_history : List (List CriterionResult)
  pub certification_observations : List CriterionResult
  pub merge_audits : List MergeAudit
  pub failure_signal : Option FailureSignal
  pub failure : Option FailureVerdict
  pub reusability : Option Reusability
  pub budget : Budget
  pub spent : Spend
  pub reserved : BudgetReservation
  pub route_log : List RouteEntry
  pub terminal : Option Terminal
  pub rest : String

abbrev is_control : Arm → Bool
is_control control = true
is_control _ = false

control_arm_suppresses_bundle : RunState → Bool
control_arm_suppresses_bundle s = not (
    is_control s.arm
    && (not s.bundle.suppressed
        && (not (is_empty s.bundle.skills)
            || (not (is_empty s.bundle.facts) || not (is_empty s.bundle.cases)))))

suppression_requires_control_arm : RunState → Bool
suppression_requires_control_arm s = is_none s.suppressed_skill || is_control s.arm

unfoldable pub owned_of : BranchKind → List String → List String
owned_of BranchKind.decomposition ids = ids
owned_of BranchKind.portfolio ids = []

-- The criteria that decomposition branches own, in order.
unfoldable pub owned : List BranchState → List String
unfolding owned_of
owned [] = []
owned (b ∷ branches) = owned_of b.kind b.owned_criteria ++ owned branches

-- `len(owned) == len(set(owned))`
pub no_repeats : List String → Bool
no_repeats [] = true
no_repeats (x ∷ xs) = not (contains x xs) && no_repeats xs

-- The validators of a run state accept it.
unfoldable pub state_accepted : RunState → Bool
unfolding control_arm_suppresses_bundle suppression_requires_control_arm owned no_repeats
state_accepted s =
    control_arm_suppresses_bundle s
    && (suppression_requires_control_arm s && no_repeats (owned s.branches))
