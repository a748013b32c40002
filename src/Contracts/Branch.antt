-- ===== src/Contracts/Branch.antt =====
-- contracts/branch.py: branches of a fan-out and the audits of their merge.
use recertia.Prelude.{ℕ, String, Bool, ◌&&◌, Option, List, leb, is_empty}
use recertia.Contracts.Budget.{Budget, Spend, BudgetReservation}
use recertia.Contracts.Common.{Strategy}
use recertia.Contracts.Criteria.{CriterionResult}
use recertia.Contracts.Failure.{SkillRef}

pub data BranchKind : Type 0 where
  portfolio decomposition : BranchKind

pub data BranchStatus : Type 0 where
  dispatched running succeeded failed timed_out : BranchStatus

pub record BranchState : Type 0 where
  pub branch_id : String
  pub kind : BranchKind
  pub strategy : Strategy
  pub subtask : Option String
  pub candidate : Option SkillRef
  pub workspace_ref : String
  pub snapshot_ref : Option String
  pub transcript_ref : Option String
  pub status : BranchStatus
  pub budget : Budget
  pub spent : Spend
  pub reserved : BudgetReservation
  pub results : List CriterionResult
  pub selected : Bool
  pub cost_usd : Option ℕ
  pub owned_criteria : List String

pub data MergeAction : Type 0 where
  proceeded flagged failed : MergeAction

pub record MergeAudit : Type 0 where
  pub merge_id : String
  pub expected : ℕ
  pub received : ℕ
  pub missing : List String
  pub action : MergeAction
  pub layered : Bool
  pub batches : List (List String)

unfoldable pub is_complete : MergeAudit → Bool
is_complete m = leb m.expected m.received && is_empty m.missing
