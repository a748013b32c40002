-- ===== src/Nodes/FanOut/Books.antt =====
-- fan_out reserves for its branches, but does not charge the run.
use recertia.Prelude.{
  Bool, true, false, not, ◌||◌, String, Option, none, some, List, ok, refl, if◌then◌else◌,
}
use recertia.Contracts.Budget.{Budget, BudgetReservation, Dimension, budget_excess, budget_accepted}
use recertia.Contracts.Run.{RunState}
use recertia.Graph.Engine.{NodeOutcome}
use recertia.Nodes.{Message, invalid_budget}
use recertia.Nodes.Free.{IsFree, IsFree-if, IsFree-raise_if}
use recertia.Nodes.FanOut.{
  FanOutContext, fan_out, split_budget, after_budget, refused, dispatch, decompose,
  dispatched_outcome, child_budget, branch_count, requested, is_portfolio, is_decomposition,
}

module _ (render : Message → String) (ctx : FanOutContext) (s : RunState) where
  decompose-IsFree :
      (child : Budget) (reserved : BudgetReservation) (owned : Option (List (String × List String)))
      → IsFree s (ok (decompose render ctx s child reserved owned))
  unfolding decompose dispatched_outcome
  decompose-IsFree child reserved none = (refl, refl)
  decompose-IsFree child reserved (some owned) = (refl, refl)

  chosen-IsFree :
      (b : Bool) (x y : NodeOutcome)
      → IsFree s (ok x)
      → IsFree s (ok y)
      → IsFree s (ok (if b then x else y))
  chosen-IsFree true x y h k = h
  chosen-IsFree false x y h k = k

  after_budget-IsFree :
      (child : Budget) (reserved : BudgetReservation) (excess : Option Dimension)
      → IsFree s (ok (after_budget render ctx s child reserved excess))
  unfolding after_budget refused dispatch dispatched_outcome
  after_budget-IsFree child reserved (some dimension) = (refl, refl)
  after_budget-IsFree child reserved none =
      chosen-IsFree (is_portfolio s.strategy) _ _ (refl, refl) (decompose-IsFree child reserved _)

  pub fan_out-IsFree : IsFree s (fan_out render ctx s)
  unfolding fan_out split_budget
  fan_out-IsFree =
      let child = child_budget s.budget (branch_count s) in
      let excess = budget_excess s.budget s.spent s.reserved (requested ctx s) in
      IsFree-if s (is_portfolio s.strategy || is_decomposition s.strategy) _ _
        (IsFree-raise_if s (not (budget_accepted child)) invalid_budget
          (ok (after_budget render ctx s child (requested ctx s) excess))
          (after_budget-IsFree child (requested ctx s) excess))
        (refl, refl)
