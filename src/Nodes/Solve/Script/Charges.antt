-- ===== src/Nodes/Solve/Script/Charges.antt =====
-- A script and an applied skill charge one attempt.
use recertia.Prelude.{
  ℕ, suc, ◌≡◌, String, Option, none, some, List, [], ◌∷◌, Outcome, ok, raised, refl, arith,
}
use recertia.Contracts.Budget.{Dimension}
use recertia.Contracts.Failure.{FailureSignal}
use recertia.Contracts.Run.{RunState, SkillCandidateRef}
use recertia.Graph.Routes.{legal_routes}
use recertia.Graph.Engine.{NodeOutcome, choose_route}
use recertia.Nodes.{Message}
use recertia.Nodes.Attempt.{AttemptMeter, open_meter, charge, failed, completed}
use recertia.Nodes.Solve.Env.{Solving, CommandResult, Applied}
use recertia.Nodes.Solve.Charge.{IsCharged, Returns, Returns-if, failing, completing}
use recertia.Nodes.Solve.Script.{
  one_call, out_of_budget, bad_exit, command_ran, command_turn, all_ran, script_loop,
  solve_script_via_tools, legacy_exit, legacy_turn, legacy_loop, solve_legacy_script, applied_as,
  applied_skill, solve_via_applicator, is_zero, with_transcript,
}

module _ (render : Message → String) (env : Solving) (s : RunState) (attempt_no : ℕ) where
  -- Any failure with a signal, with its transcript.
  pub failed-IsCharged :
      (m : AttemptMeter) (ref : Option String) (signal : FailureSignal) (remark : Option String)
      (clock : ℕ)
      → m.committed ≡ s.spent
      → IsCharged s (
          with_transcript ref
            (failed s m signal attempt_no "pre_validation_failure_signal" remark 1 clock))
  unfolding failed choose_route legal_routes
  failed-IsCharged m ref signal remark clock opened =
      failing s m 1 _ signal attempt_no remark clock opened (omega arith) refl refl

  pub completed-IsCharged :
      (m : AttemptMeter) (ref : String) (remark : Option String) (clock : ℕ)
      → m.committed ≡ s.spent
      → IsCharged s (completed s m attempt_no ref remark 1 clock)
  unfolding completed choose_route legal_routes
  completed-IsCharged m ref remark clock opened =
      completing s m 1 _ attempt_no ref remark clock opened (omega arith) refl refl

  pub bare_failed-IsCharged :
      (m : AttemptMeter) (signal : FailureSignal) (remark : Option String) (clock : ℕ)
      → m.committed ≡ s.spent
      → IsCharged s (failed s m signal attempt_no "pre_validation_failure_signal" remark 1 clock)
  unfolding failed choose_route legal_routes
  bare_failed-IsCharged m signal remark clock opened =
      failing s m 1 _ signal attempt_no remark clock opened (omega arith) refl refl

  command_turn-IsCharged :
      (m charged : AttemptMeter) (seq : ℕ) (command : String) (d : Option Dimension)
      (rest : Outcome String NodeOutcome)
      → m.committed ≡ s.spent
      → charged.committed ≡ s.spent
      → Returns (IsCharged s) rest
      → Returns (IsCharged s) (command_turn render env s attempt_no m charged seq command d rest)
  unfolding command_turn command_ran bad_exit out_of_budget
  command_turn-IsCharged m charged seq command (some d) rest opened kept h =
      failed-IsCharged m _ _ _ _ opened
  command_turn-IsCharged m charged seq command none rest opened kept h =
      ran (env.command_op seq command)
    where
      ran :
          (answer : Outcome String CommandResult)
          → Returns
              (IsCharged s)
              (command_ran render env s attempt_no charged seq command answer rest)
      ran (raised e) = tt
      ran (ok r) =
          Returns-if (IsCharged s) (is_zero r.returncode) rest _ h
            (failed-IsCharged charged _ _ _ _ kept)

  script_loop-IsCharged :
      (script : List String) (seq : ℕ) (m : AttemptMeter)
      → m.committed ≡ s.spent
      → Returns (IsCharged s) (script_loop render env s attempt_no script seq m)
  unfolding script_loop all_ran charge
  script_loop-IsCharged [] seq m opened = completed-IsCharged m _ _ _ opened
  script_loop-IsCharged (c ∷ script) seq m opened =
      command_turn-IsCharged m _ seq c _ _ opened opened
        (script_loop-IsCharged script (suc seq) _ opened)

  pub solve_script_via_tools-IsCharged :
      (script : List String)
      → Returns (IsCharged s) (solve_script_via_tools render env s attempt_no script)
  unfolding solve_script_via_tools open_meter
  solve_script_via_tools-IsCharged script = script_loop-IsCharged script 0 _ refl

  legacy_loop-IsCharged :
      (script : List String) (seq : ℕ) (m : AttemptMeter)
      → m.committed ≡ s.spent
      → Returns (IsCharged s) (legacy_loop render env s attempt_no script seq m)
  unfolding legacy_loop legacy_turn legacy_exit charge
  legacy_loop-IsCharged [] seq m opened = completed-IsCharged m _ _ _ opened
  legacy_loop-IsCharged (c ∷ script) seq m opened =
      ran (env.command_op seq c) (legacy_loop-IsCharged script (suc seq) (charge one_call m) opened)
    where
      ran :
          (answer : Outcome String CommandResult)
          → Returns
              (IsCharged s)
              (legacy_loop render env s attempt_no script (suc seq) (charge one_call m))
          → Returns (IsCharged s) (
              legacy_turn render env s attempt_no
                (charge one_call m)
                seq
                c
                answer
                (legacy_loop render env s attempt_no script (suc seq) (charge one_call m)))
      ran (raised e) h = tt
      ran (ok r) h =
          Returns-if (IsCharged s) (is_zero r.returncode) _ _ h
            (bare_failed-IsCharged _ _ _ _ opened)

  pub solve_legacy_script-IsCharged :
      (script : List String)
      → Returns (IsCharged s) (solve_legacy_script render env s attempt_no script)
  unfolding solve_legacy_script open_meter
  solve_legacy_script-IsCharged script = legacy_loop-IsCharged script 0 _ refl

  applied_as-IsCharged :
      (m : AttemptMeter) (answer : Outcome String Applied)
      → m.committed ≡ s.spent
      → Returns (IsCharged s) (applied_as render env s attempt_no m answer)
  unfolding applied_as charge
  applied_as-IsCharged m (raised e) opened = tt
  applied_as-IsCharged m (ok r) opened =
      Returns-if (IsCharged s) r.is_ok _ _ (completed-IsCharged _ _ _ _ opened)
        (failed-IsCharged _ _ _ _ _ opened)

  pub solve_via_applicator-IsCharged :
      Returns (IsCharged s) (solve_via_applicator render env s attempt_no)
  unfolding solve_via_applicator applied_skill open_meter
  solve_via_applicator-IsCharged = chosen s.chosen
    where
      chosen :
          (c : Option SkillCandidateRef)
          → Returns (IsCharged s) (applied_skill render env s attempt_no c)
      chosen none = tt
      chosen (some c) =
          applied_as-IsCharged (open_meter s none env.clock_start) (env.apply_op c) refl
