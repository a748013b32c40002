-- ===== src/Nodes/Solve/Scratch/Charges.antt =====
-- The scratch loop charges one attempt.
use recertia.Prelude.{
  ℕ, zero, suc, ◌≡◌, String, Option, none, some, List, [], Outcome, ok, raised, refl,
}
use recertia.Contracts.Budget.{Dimension}
use recertia.Contracts.Run.{RunState}
use recertia.Graph.Engine.{NodeOutcome}
use recertia.Nodes.{Message}
use recertia.Nodes.Attempt.{AttemptMeter, open_meter, charge}
use recertia.Nodes.Solve.Env.{Solving, Turn, Turned, empty_command, refused, ran}
use recertia.Nodes.Solve.Charge.{IsCharged, Returns, Returns-if}
use recertia.Nodes.Solve.Script.{is_zero, out_of_budget}
use recertia.Nodes.Solve.Script.Charges.{failed-IsCharged, completed-IsCharged}
use recertia.Nodes.Solve.Scratch.{
  exhausted, succeeded, after_turn, turn_of, scratch_turn, scratch_loop, solve_scratch_observe_act,
  charge_turn, clamped_steps,
}

module _ (render : Message → String) (env : Solving) (s : RunState) (attempt_no : ℕ) where
  charge_turn-committed :
      (answer : Outcome String Turn) (m : AttemptMeter)
      → m.committed ≡ s.spent
      → (charge_turn answer m).committed ≡ s.spent
  unfolding charge
  charge_turn-committed (raised e) m opened = opened
  charge_turn-committed (ok t) m opened = opened

  scratch_turn-IsCharged :
      (m charged : AttemptMeter) (step : ℕ) (d : Option Dimension) (answer : Outcome String Turn)
      (rest : Outcome String NodeOutcome)
      → m.committed ≡ s.spent
      → charged.committed ≡ s.spent
      → Returns (IsCharged s) rest
      → Returns (IsCharged s) (scratch_turn render env s attempt_no m charged step d answer rest)
  unfolding scratch_turn turn_of succeeded out_of_budget
  scratch_turn-IsCharged m charged step (some d) answer rest opened kept h =
      failed-IsCharged render env s attempt_no m _ _ _ _ opened
  scratch_turn-IsCharged m charged step none (raised e) rest opened kept h =
      failed-IsCharged render env s attempt_no m _ _ _ _ opened
  scratch_turn-IsCharged m charged step none (ok t) rest opened kept h = turned t.turned
    where
      turned :
          (t : Turned)
          → Returns (IsCharged s) (after_turn render env s attempt_no charged step t rest)
      turned empty_command = h
      turned (refused e) = h
      turned (ran r) =
          Returns-if (IsCharged s) (is_zero r.returncode) _ rest
            (completed-IsCharged render env s attempt_no charged _ _ _ kept) h

  scratch_loop-IsCharged :
      (left step : ℕ) (history : List String) (last_error : Option String) (m : AttemptMeter)
      → m.committed ≡ s.spent
      → Returns (IsCharged s) (scratch_loop render env s attempt_no left step history last_error m)
  unfolding scratch_loop exhausted
  scratch_loop-IsCharged zero step history last_error m opened =
      failed-IsCharged render env s attempt_no m _ _ _ _ opened
  scratch_loop-IsCharged (suc left) step history last_error m opened =
      scratch_turn-IsCharged m _ step _ (env.scratch_op step history) _ opened
        (charge_turn-committed (env.scratch_op step history) m opened)
        (scratch_loop-IsCharged left (suc step) _ _ _
          (charge_turn-committed (env.scratch_op step history) m opened))

  pub solve_scratch_observe_act-IsCharged :
      Returns (IsCharged s) (solve_scratch_observe_act render env s attempt_no)
  unfolding solve_scratch_observe_act open_meter
  solve_scratch_observe_act-IsCharged =
      scratch_loop-IsCharged (clamped_steps env.scratch_max_steps) 0 [] none _ refl
