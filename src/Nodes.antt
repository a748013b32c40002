-- ===== src/Nodes.antt =====
-- The node functions of the graph that are modelled one by one, and what they share.
pub mod Classify
pub mod FanOut
pub mod Plan
pub mod Validate
pub mod Finalize
pub mod Attempt
pub mod Solve
pub mod Join
pub mod Evolve
pub mod System
pub mod Free
use recertia.Prelude.{ℕ, String, Bool, List, Option}
use recertia.Prelude.Int.{ℤ}
use recertia.Contracts.Budget.{Dimension}
use recertia.Contracts.Common.{Strategy}
use recertia.Contracts.Failure.{FailureClass}
use recertia.Contracts.Run.{SkillCandidateRef}

-- The texts that the nodes format, by what they say and the values they show. How Python prints
-- them is a parameter of the nodes.
pub data Message : Type 0 where
  attempts_spent : ℕ → ℕ → Message
  invalid_proof : String → Message
  classified_as : FailureClass → Message
  ambiguous_skills : String → String → Message
  top_candidate below_apply : SkillCandidateRef → Message
  below_adapt : ℕ → Message
  exhausted_before_fan_out : Dimension → Message
  fan_out_refused : Dimension → ℕ → Message
  branch_name : String → Strategy → ℕ → Message
  part_name : ℕ → Message
  dispatched_branches : ℕ → Strategy → Message
  advisory_note : String → Bool → Message
  advisory_excerpt : Bool → String → Message
  failed_observations joined_notes : List String → Message
  exhausted_before_dispatch calls_exhausted scratch_over_budget : Dimension → Message
  signal_at : ℕ → Message
  application_failed : String → Message
  exited : ℕ → ℤ → String → Message
  flaky_shell : String → Message
  attempt_ref : String → ℕ → Message
  model_required model_error : String → Message
  scratch_exited scratch_completed scratch_exhausted : ℕ → Message
  applicator_failed : String → Bool → Message
  branches_ref : String → ℕ → Message
  over_parent branches_over_budget : Dimension → Message
  ran_branches : ℕ → Message
  merge_id : String → ℕ → Message
  merge_gap missing_branches merge_gap_visible : List String → Message
  portfolio_note : Option String → Bool → List String → Message
  decomposition_note : Bool → List String → Message
  skill_approach : SkillCandidateRef → Message
  strategy_approach : Option Strategy → Message
  switch_reason : Option Strategy → Strategy → Message
  no_move : FailureClass → Message
  suppressed_reason : String → String → Message
  template_name template_reason : String → Message
  evolved : Bool → String → String → String → Option String → Message

-- What a node may raise.
pub data NodeError : Type 0 where
  no_failure_signal inconsistent_verdict ambiguous_routes invalid_budget repeated_lens no_snapshot :
      NodeError
  not_restored : String → NodeError
