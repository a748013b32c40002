-- ===== src/Nodes/Solve.antt =====
-- nodes/solve.py: which of the five ways an attempt takes.
pub mod Env
pub mod Script
pub mod Scratch
pub mod Branches
pub mod Charge
pub mod Charged
mod Tests
use recertia.Prelude.{
  ℕ, suc, ◌+◌, String, Bool, true, false, ◌&&◌, ◌||◌, not, Option, none, some, List, [], ◌∷◌, any,
  is_none, is_some, Outcome, ok, raised, if◌then◌else◌,
}
use recertia.Contracts.Common.{Strategy, apply, adapt, scratch}
use recertia.Contracts.Failure.{FailureSignal, FailureSource, FailureClass}
use recertia.Contracts.Run.{RunState, SkillCandidateRef}
use recertia.Graph.Engine.{NodeOutcome}
use recertia.Nodes.{Message, model_required}
use recertia.Nodes.Attempt.{open_meter, failed}
use recertia.Nodes.Solve.Env.{Solving, is_apply_or_adapt, is_scratch}
use recertia.Nodes.Solve.Script.{solve_script_via_tools, solve_legacy_script, solve_via_applicator}
use recertia.Nodes.Solve.Scratch.{solve_scratch_observe_act}
use recertia.Nodes.Solve.Branches.{is_dispatched, solve_branches}

-- What `resolve_script` answers: a script, `ModelRequiredError`, or another exception.
pub data Resolved : Type 0 where
  scripted : List String → Resolved
  needs_model : String → Resolved
  resolve_raises : String → Resolved

abbrev of_skill : Outcome String (List String) → Resolved
of_skill (ok script) = scripted script
of_skill (raised e) = resolve_raises e

abbrev of_model : Outcome String String → Resolved
of_model (ok command) = scripted (command ∷ [])
of_model (raised e) = resolve_raises e

module _ (render : Message → String) (env : Solving) where
  by_strategy : Bool → Resolved
  by_strategy false = scripted ("true" ∷ [])
  by_strategy true =
      if env.has_model
      then of_model env.proposed
      else if env.has_tools || is_some env.transcripts
      then needs_model env.model_help
      else scripted ("true" ∷ [])

  without_script : RunState → Option SkillCandidateRef → Resolved
  unfolding by_strategy
  without_script s none = by_strategy (is_scratch s.strategy)
  without_script s (some c) =
      if is_apply_or_adapt s.strategy && env.has_store
      then of_skill (env.skill_script c)
      else by_strategy (is_scratch s.strategy)

  resolve_with : RunState → Option (List String) → Resolved
  unfolding without_script
  resolve_with s (some script) = scripted script
  resolve_with s none = without_script s s.chosen

  -- `resolve_script`
  pub resolve_script : RunState → Resolved
  unfolding resolve_with
  resolve_script s = resolve_with s env.script

  solve_resolved : RunState → ℕ → Resolved → Outcome String NodeOutcome
  solve_resolved s attempt_no (resolve_raises e) = raised e
  solve_resolved s attempt_no (needs_model e) = ok (
      failed s (open_meter s none env.clock_start)
        (record {
          source = FailureSource.solver;
          detail = render (model_required e);
          at = env.now;
          class_hint = some FailureClass.environment;
        })
        attempt_no "pre_validation_failure_signal" (some "scratch requires a configured model") 1
        env.clock_start)
  solve_resolved s attempt_no (scripted script) =
      if is_some env.transcripts && env.has_tools
      then solve_script_via_tools render env s attempt_no script
      else solve_legacy_script render env s attempt_no script

  -- `solve`
  pub solve_node : RunState → Outcome String NodeOutcome
  unfolding solve_resolved
  solve_node s =
      let attempt_no = s.attempt_no + 1 in
      if any is_dispatched s.branches
      then solve_branches render env s attempt_no
      else if env.has_applicator
          && (is_apply_or_adapt s.strategy && (is_some s.chosen && env.has_store))
      then solve_via_applicator render env s attempt_no
      else if is_none env.script
          && (is_scratch s.strategy
              && (env.has_model && (env.has_tools && is_some env.transcripts)))
      then solve_scratch_observe_act render env s attempt_no
      else solve_resolved s attempt_no (resolve_script s)
