-- ===== src/Nodes/Solve/Scratch.antt =====
-- nodes/solve_scratch.py: the bounded loop in which the model proposes and observes.
pub mod Charges
use recertia.Prelude.{
  ℕ, zero, suc, ◌+◌, String, Bool, true, false, Option, none, some, List, [], ◌∷◌, ◌++◌, Outcome,
  ok, raised, if◌then◌else◌, min, max,
}
use recertia.Contracts.Budget.{Dimension}
use recertia.Contracts.Failure.{FailureClass}
use recertia.Contracts.Run.{RunState}
use recertia.Graph.Engine.{NodeOutcome}
use recertia.Nodes.{
  Message, attempt_ref, model_error, scratch_exited, scratch_completed, scratch_exhausted,
  scratch_over_budget, exited,
}
use recertia.Nodes.Attempt.{
  UsageDelta, AttemptMeter, open_meter, charge, preflight, failed, completed,
}
use recertia.Nodes.Solve.Env.{Solving, CommandResult, Turn, Turned, empty_command, refused, ran}
use recertia.Nodes.Solve.Script.{
  one_call, no_usage, with_transcript, or_text, is_zero, solver_signal, out_of_budget,
}

-- `max(1, min(20, settings.scratch_max_steps))`
abbrev pub clamped_steps : ℕ → ℕ
clamped_steps n = max 1 (min 20 n)

-- What the model itself used in a turn.
abbrev model_usage : Turn → UsageDelta
model_usage t = record {
  tool_calls = 0;
  tokens = t.prompt_tokens + t.completion_tokens;
  cost_usd = t.cost_usd;
}

abbrev command_usage : Turned → UsageDelta
command_usage empty_command = no_usage
command_usage (refused e) = no_usage
command_usage (ran r) = r.usage

abbrev charge_turn : Outcome String Turn → AttemptMeter → AttemptMeter
charge_turn (raised e) m = m
charge_turn (ok t) m = charge (command_usage t.turned) (charge (model_usage t) m)

abbrev with_entry : Outcome String Turn → List String → List String
with_entry (raised e) history = history
with_entry (ok t) history = elim t.turned [ empty_command ↦ history | _ ↦ history ++ t.entry ∷ [] ]

module _ (render : Message → String) (env : Solving) where
  -- `last_error` after a turn that does not end the loop.
  error_of : ℕ → Outcome String Turn → Option String
  error_of step (raised e) = none
  error_of step (ok t) = elim t.turned [
    | empty_command ↦ some "empty command from model"
    | refused e ↦ some e
    | ran r ↦ some (render (exited step r.returncode t.command))
  ]

  module _ (s : RunState) (attempt_no : ℕ) where
    exhausted : AttemptMeter → Option String → NodeOutcome
    exhausted m last_error = with_transcript env.transcripts (
        failed s m
          (solver_signal render env
            (or_text last_error (render (scratch_exhausted (clamped_steps env.scratch_max_steps))))
            none)
          attempt_no "pre_validation_failure_signal"
          (some "scratch observe-act exhausted without success") 1 env.clock_end)

    succeeded : AttemptMeter → ℕ → NodeOutcome
    succeeded m step =
        completed s m attempt_no
          (or_text env.transcripts (render (attempt_ref s.run_id attempt_no)))
          (some (render (scratch_completed (suc step)))) 1 (env.clock_at (suc step))

    after_turn : AttemptMeter → ℕ → Turned → Outcome String NodeOutcome → Outcome String NodeOutcome
    unfolding succeeded
    after_turn m step empty_command rest = rest
    after_turn m step (refused e) rest = rest
    after_turn m step (ran r) rest = if is_zero r.returncode then ok (succeeded m step) else rest

    turn_of :
        AttemptMeter
        → AttemptMeter
        → ℕ
        → Outcome String Turn
        → Outcome String NodeOutcome
        → Outcome String NodeOutcome
    unfolding after_turn
    turn_of m charged step (raised e) rest = ok (
        with_transcript env.transcripts (
          failed s m
            (solver_signal render env (render (model_error e)) (some FailureClass.environment))
            attempt_no "pre_validation_failure_signal" (some "scratch model error") 1
            (env.clock_at (suc step))))
    turn_of m charged step (ok t) rest = after_turn charged step t.turned rest

    scratch_turn :
        AttemptMeter
        → AttemptMeter
        → ℕ
        → Option Dimension
        → Outcome String Turn
        → Outcome String NodeOutcome
        → Outcome String NodeOutcome
    unfolding turn_of
    scratch_turn m charged step (some d) answer rest = ok (
        out_of_budget render env s attempt_no m (env.clock_at step) (render (scratch_over_budget d))
          d)
    scratch_turn m charged step none answer rest = turn_of m charged step answer rest

    -- The turns that are left, from one of a number on.
    scratch_loop : ℕ → ℕ → List String → Option String → AttemptMeter → Outcome String NodeOutcome
    unfolding scratch_turn exhausted error_of
    scratch_loop zero step history last_error m = ok (exhausted m last_error)
    scratch_loop (suc left) step history last_error m =
        let answer = env.scratch_op step history in
        let charged = charge_turn answer m in
        scratch_turn m charged step (preflight m 0 one_call (env.clock_at step)) answer
          (scratch_loop left (suc step) (with_entry answer history) (error_of step answer) charged)

    pub solve_scratch_observe_act : Outcome String NodeOutcome
    unfolding scratch_loop
    solve_scratch_observe_act =
        scratch_loop (clamped_steps env.scratch_max_steps) 0 [] none
          (open_meter s none env.clock_start)
