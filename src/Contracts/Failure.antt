-- ===== src/Contracts/Failure.antt =====
-- contracts/failure.py: failure signals and verdicts.
use recertia.Prelude.{ℕ, String, Bool, true, false, not, ◌&&◌, Option, List}

pub data FailureClass : Type 0 where
  environment tool retrieval plan execution criteria budget merge : FailureClass

pub data FailureSource : Type 0 where
  orchestrator solver validator join : FailureSource

pub record FailureSignal : Type 0 where
  pub source : FailureSource
  pub detail : String
  pub at : String
  pub class_hint : Option FailureClass

pub record SkillRef : Type 0 where
  pub skill_id : String
  pub version : ℕ

pub record FailureVerdict : Type 0 where
  pub failure_class : FailureClass
  pub evidence : List String
  pub implicated_skill : Option SkillRef
  pub counts_against_trust : Bool
  pub escalate_to_human : Bool

-- `failure_class in CLASSES_EXCLUDED_FROM_TRUST`
abbrev pub excluded_from_trust : FailureClass → Bool
excluded_from_trust environment = true
excluded_from_trust tool = true
excluded_from_trust budget = true
excluded_from_trust merge = true
excluded_from_trust _ = false

abbrev pub is_criteria : FailureClass → Bool
is_criteria criteria = true
is_criteria _ = false

abbrev pub same_bool : Bool → Bool → Bool
same_bool true b = b
same_bool false b = not b

unfoldable pub is_consistent : FailureVerdict → Bool
is_consistent v =
    same_bool v.counts_against_trust (not (excluded_from_trust v.failure_class))
    && same_bool v.escalate_to_human (is_criteria v.failure_class)
