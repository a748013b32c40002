-- ===== src/Nodes/Solve/Script.antt =====
-- nodes/solve_script.py and nodes/solve_apply.py: a script of commands, with tools and without, and a
-- chosen skill. Waves, conflicts and affordances are left out.
pub mod Charges
use recertia.Prelude.{
  ℕ, zero, suc, ◌+◌, String, Bool, true, false, not, Option, none, some, List, [], ◌∷◌, Outcome, ok,
  raised, if◌then◌else◌, str_eq,
}
use recertia.Prelude.Int.{ℤ, pos, eq_ℤ}
use recertia.Contracts.Budget.{Dimension}
use recertia.Contracts.Failure.{FailureSignal, FailureSource, FailureClass}
use recertia.Contracts.Run.{RunState, SkillCandidateRef}
use recertia.Graph.Engine.{NodeOutcome}
use recertia.Nodes.{
  Message, exhausted_before_dispatch, exited, flaky_shell, attempt_ref, applicator_failed,
  calls_exhausted, signal_at, application_failed,
}
use recertia.Nodes.Attempt.{
  UsageDelta, AttemptMeter, open_meter, charge, preflight, failed, completed,
}
use recertia.Nodes.Solve.Env.{Solving, CommandResult, Applied}

abbrev pub one_call : UsageDelta
one_call = record { tool_calls = 1; tokens = 0; cost_usd = 0 }

abbrev pub no_usage : UsageDelta
no_usage = record { tool_calls = 0; tokens = 0; cost_usd = 0 }

-- The update of `transcript_ref` that a failure adds.
abbrev pub with_transcript : Option String → NodeOutcome → NodeOutcome
with_transcript ref out = record out { state = record out.state { transcript_ref = ref } }

abbrev pub or_text : Option String → String → String
or_text none default = default
or_text (some ref) default = ref

-- `summary["transcript_ref"] or default`
abbrev or_nonempty : Option String → String → String
or_nonempty none default = default
or_nonempty (some ref) default = if str_eq ref "" then default else ref

abbrev usage_of : Outcome String CommandResult → UsageDelta
usage_of (raised e) = no_usage
usage_of (ok r) = r.usage

abbrev pub is_zero : ℤ → Bool
is_zero n = eq_ℤ n (pos 0)

module _ (render : Message → String) (env : Solving) where
  abbrev pub solver_signal : String → Option FailureClass → FailureSignal
  solver_signal detail hint = record {
    source = FailureSource.solver;
    detail = detail;
    at = env.now;
    class_hint = hint;
  }

  module _ (s : RunState) (attempt_no : ℕ) where
    -- The end of an attempt whose next call does not fit the budget.
    unfoldable pub out_of_budget : AttemptMeter → ℕ → String → Dimension → NodeOutcome
    out_of_budget m clock remark d = with_transcript env.transcripts (
        failed s m (solver_signal (render (exhausted_before_dispatch d)) (some FailureClass.budget))
          attempt_no "pre_validation_failure_signal" (some remark) 1 clock)

    exit_detail : ℕ → String → CommandResult → String
    exit_detail seq command r =
        if r.flaky
        then render (flaky_shell (render (exited seq r.returncode command)))
        else render (exited seq r.returncode command)

    -- The end of an attempt whose command failed.
    bad_exit : AttemptMeter → ℕ → String → CommandResult → NodeOutcome
    unfolding exit_detail
    bad_exit m seq command r = with_transcript env.transcripts (
        failed s m (solver_signal (exit_detail seq command r) none) attempt_no
          "pre_validation_failure_signal" (some (render (signal_at seq))) 1
          (env.clock_at (suc seq)))

    command_ran :
        AttemptMeter
        → ℕ
        → String
        → Outcome String CommandResult
        → Outcome String NodeOutcome
        → Outcome String NodeOutcome
    unfolding bad_exit
    command_ran m seq command (raised e) rest = raised e
    command_ran m seq command (ok r) rest =
        if is_zero r.returncode then rest else ok (bad_exit m seq command r)

    -- One turn of the loop, with the turns after it.
    command_turn :
        AttemptMeter
        → AttemptMeter
        → ℕ
        → String
        → Option Dimension
        → Outcome String NodeOutcome
        → Outcome String NodeOutcome
    unfolding command_ran
    command_turn m charged seq command (some d) rest =
        ok (out_of_budget m (env.clock_at seq) (render (calls_exhausted d)) d)
    command_turn m charged seq command none rest =
        command_ran charged seq command (env.command_op seq command) rest

    all_ran : AttemptMeter → Outcome String NodeOutcome
    all_ran m = ok (
        completed s m attempt_no
          (or_text env.transcripts (render (attempt_ref s.run_id attempt_no))) none 1 env.clock_end)

    script_loop : List String → ℕ → AttemptMeter → Outcome String NodeOutcome
    unfolding command_turn all_ran
    script_loop [] seq m = all_ran m
    script_loop (c ∷ script) seq m =
        let charged = charge (usage_of (env.command_op seq c)) m in
        command_turn m charged seq c (preflight m 0 one_call (env.clock_at seq))
          (script_loop script (suc seq) charged)

    unfoldable pub solve_script_via_tools : List String → Outcome String NodeOutcome
    unfolding script_loop
    solve_script_via_tools script = script_loop script 0 (open_meter s none env.clock_start)

    legacy_exit : AttemptMeter → ℕ → String → CommandResult → NodeOutcome
    legacy_exit m seq command r =
        failed s m (solver_signal (render (exited seq r.returncode command)) none) attempt_no
          "pre_validation_failure_signal" (some (render (signal_at seq))) 1 (env.clock_at (suc seq))

    legacy_turn :
        AttemptMeter
        → ℕ
        → String
        → Outcome String CommandResult
        → Outcome String NodeOutcome
        → Outcome String NodeOutcome
    unfolding legacy_exit
    legacy_turn m seq command (raised e) rest = raised e
    legacy_turn m seq command (ok r) rest =
        if is_zero r.returncode then rest else ok (legacy_exit m seq command r)

    -- One command is one charge.
    legacy_loop : List String → ℕ → AttemptMeter → Outcome String NodeOutcome
    unfolding legacy_turn all_ran
    legacy_loop [] seq m =
        ok
          (completed s m attempt_no (render (attempt_ref s.run_id attempt_no)) none 1 env.clock_end)
    legacy_loop (c ∷ script) seq m =
        let charged = charge one_call m in
        legacy_turn charged seq c (env.command_op seq c) (legacy_loop script (suc seq) charged)

    pub solve_legacy_script : List String → Outcome String NodeOutcome
    unfolding legacy_loop
    solve_legacy_script script = legacy_loop script 0 (open_meter s none env.clock_start)

    applied_as : AttemptMeter → Outcome String Applied → Outcome String NodeOutcome
    applied_as m (raised e) = raised e
    applied_as m (ok r) =
        let detail = render (applicator_failed r.error r.merge_timeout) in
        let charged = charge r.usage m in
        if r.is_ok
        then ok (
            completed s charged attempt_no
              (or_nonempty r.transcript_ref (render (attempt_ref s.run_id attempt_no))) none 1
              env.clock_end)
        else ok (
            with_transcript r.transcript_ref (
              failed s charged (solver_signal detail none) attempt_no
                "pre_validation_failure_signal" (some (render (application_failed detail))) 1
                env.clock_end))

    applied_skill : Option SkillCandidateRef → Outcome String NodeOutcome
    unfolding applied_as
    applied_skill none = raised "AssertionError"
    applied_skill (some c) = applied_as (open_meter s none env.clock_start) (env.apply_op c)

    -- `solve_via_applicator`
    pub solve_via_applicator : Outcome String NodeOutcome
    unfolding applied_skill
    solve_via_applicator = applied_skill s.chosen
