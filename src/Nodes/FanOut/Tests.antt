-- ===== src/Nodes/FanOut/Tests.antt =====
-- Two criteria dealt out over two branches, and a token limit that is too small to share.
use recertia.Prelude.{◌≡◌, ◌↔◌, String, true, some, none, [], ◌∷◌, List, ok, raised, refl}
use mathlib.Core.List.{Perm}
use recertia.Samples.{run_state, budget, criterion}
use recertia.Contracts.Criteria.{command, judge}
use recertia.Contracts.Budget.{budget_excess, budget_accepted}
use recertia.Contracts.Common.{decomposition}
use recertia.Contracts.Run.{RunState, owned}
use recertia.Graph.Engine.{NodeOutcome}
use recertia.Nodes.{Message, invalid_budget}
use recertia.Nodes.FanOut.{
  FanOutContext, fan_out, split_budget, after_budget, dispatch, decompose, branch_count,
  child_budget, requested, requested_for, requested_per_branch,
}
use recertia.Nodes.FanOut.Partition.{
  partition_criteria, parts_of, part_count, local_criteria, ids_of, distribute, empty_parts, add_at,
  name_parts,
}
use recertia.Nodes.FanOut.Share.{SharedBy, none-SharedBy, fan_out-SharedBy}
use recertia.Nodes.FanOut.Reply.{TooFewTokens, fan_out-invalid_budget_iff, fan_out-owned-Perm}

abbrev text : Message → String
text _ = "text"

abbrev context : FanOutContext
context = record { run_id = "run-1"; script = none; now = "now"; in_workdir = λ name. name }

abbrev decomposed : RunState
decomposed = record run_state {
  strategy = some decomposition;
  criteria =
      criterion "a" command
      ∷ criterion "b" command
      ∷ criterion "c" judge
      ∷ criterion "d" command
      ∷ [];
  budget = record budget { max_cost_usd = none };
}

abbrev two_parts : List (String × List String)
two_parts = ("text", "a" ∷ []) ∷ ("text", "b" ∷ []) ∷ ("text", "d" ∷ []) ∷ []

cut : partition_criteria text (some 4) decomposed ≡ some two_parts
unfolding partition_criteria parts_of part_count local_criteria distribute empty_parts add_at
    name_parts
cut = refl

-- With two branches the reservation fits into what is left.
abbrev small : RunState
small = record decomposed { budget = record budget { max_branches = 2; max_cost_usd = none } }

abbrev few_tokens : RunState
few_tokens = record small { budget = record budget { max_tokens = some 1; max_branches = 2 } }

accepted : budget_accepted few_tokens.budget ≡ true
unfolding budget_accepted
accepted = refl

fan_out-invalid_budget_iff_example :
    (fan_out text context few_tokens ≡ raised invalid_budget)
    ↔ TooFewTokens few_tokens.budget.max_tokens (branch_count few_tokens)
fan_out-invalid_budget_iff_example =
    fan_out-invalid_budget_iff text context few_tokens accepted refl

abbrev dispatched : NodeOutcome
dispatched =
    decompose text context small (child_budget small.budget 2) (requested context small)
      (partition_criteria text (some 2) small)

answers : fan_out text context small ≡ ok dispatched
unfolding fan_out split_budget after_budget dispatch budget_excess requested requested_for
    requested_per_branch child_budget branch_count budget_accepted
answers = refl

goes_on : dispatched.route ≡ some "always"
unfolding decompose partition_criteria parts_of part_count local_criteria distribute empty_parts
    add_at name_parts
goes_on = refl

fan_out-owned-Perm_example : Perm (owned dispatched.state.branches) (ids_of (local_criteria small))
unfolding decompose partition_criteria parts_of part_count local_criteria distribute empty_parts
    add_at name_parts
fan_out-owned-Perm_example =
    fan_out-owned-Perm text context small dispatched refl answers goes_on refl

small_accepted : budget_accepted small.budget ≡ true
unfolding budget_accepted
small_accepted = refl

fan_out-SharedBy_example : SharedBy small.budget dispatched.state.branches
fan_out-SharedBy_example =
    fan_out-SharedBy text context small dispatched small_accepted (none-SharedBy small.budget)
      answers
