-- ===== src/Nodes/Solve/Env.antt =====
-- What the solve node is given: nodes/context.py's services, by their answers. The n-th operation's
-- answer is that of `op_once`, run now or replayed; the clock is read once before each operation and
-- once after the last of them.
use recertia.Prelude.{ℕ, String, Bool, true, false, Option, some, List, Outcome}
use recertia.Prelude.Int.{ℤ}
use recertia.Contracts.Common.{Strategy, apply, adapt, scratch}
use recertia.Contracts.Branch.{BranchState}
use recertia.Contracts.Criteria.{TaskCriterion, CriterionResult}
use recertia.Contracts.Run.{SkillCandidateRef}
use recertia.Nodes.Attempt.{UsageDelta}

-- What a command of a script, run by the tools, leaves behind.
pub record CommandResult : Type 0 where
  pub returncode : ℤ
  pub flaky : Bool
  pub usage : UsageDelta

-- How a turn of the scratch loop ended.
pub data Turned : Type 0 where
  empty_command : Turned
  refused : String → Turned
  ran : CommandResult → Turned

pub record Turn : Type 0 where
  pub prompt_tokens : ℕ
  pub completion_tokens : ℕ
  pub cost_usd : ℕ
  pub command : String
  pub turned : Turned
  -- the entry that the turn adds to the history of the next prompts
  pub entry : String

-- The summary of an applied skill.
pub record Applied : Type 0 where
  pub is_ok : Bool
  pub transcript_ref : Option String
  pub error : String
  pub merge_timeout : Bool
  pub usage : UsageDelta

pub record Solving : Type 0 where
  pub script : Option (List String)
  pub has_tools : Bool
  pub has_model : Bool
  pub has_applicator : Bool
  pub has_store : Bool
  -- what `finalize` of the transcript's writer returns, where transcripts are kept
  pub transcripts : Option String
  pub proposed : Outcome String String
  pub model_help : String
  -- the commands of a stored version with its parameters bound
  pub skill_script : SkillCandidateRef → Outcome String (List String)
  pub command_op : ℕ → String → Outcome String CommandResult
  -- the turn of the given number, by the history before it
  pub scratch_op : ℕ → List String → Outcome String Turn
  pub apply_op : SkillCandidateRef → Outcome String Applied
  pub scratch_max_steps : ℕ
  -- `run_container_command` in a branch's directory, by the number of the command
  pub branch_command : BranchState → ℕ → String → ℤ
  pub score_owned : BranchState → TaskCriterion → Outcome String CriterionResult
  pub branch_elapsed_s : BranchState → ℕ
  pub branch_workspace : BranchState → String
  pub clock_start : ℕ
  pub clock_at : ℕ → ℕ
  pub clock_end : ℕ
  pub now : String

abbrev pub is_apply_or_adapt : Option Strategy → Bool
is_apply_or_adapt (some apply) = true
is_apply_or_adapt (some adapt) = true
is_apply_or_adapt _ = false

abbrev pub is_scratch : Option Strategy → Bool
is_scratch (some scratch) = true
is_scratch _ = false
