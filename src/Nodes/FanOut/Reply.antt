-- ===== src/Nodes/FanOut/Reply.antt =====
-- What `fan_out` answers: which budgets it can split, and what its branches own.
use recertia.Prelude.{
  ℕ, ◌+◌, ◌/◌, ◌≤◌, ◌<◌, ◌≡◌, ◌↔◌, Bool, true, false, if◌then◌else◌, Option, none, some, List, [],
  ◌∷◌, ◌++◌, arith, String, length, leb, ok, raised, subst, sym, ap, refl, ◌&&◌, max, min, ◌||◌,
  ok-injective, raise_if-eq-ok, not,
}
use native.Mathlib.Nat.{le-div_iff_mul-le}
use mathlib.Core.List.{Perm}
use recertia.Contracts.Budget.{
  Budget, BudgetReservation, budget_excess, budget_accepted, positive_or_none, Dimension,
}
use recertia.Contracts.Common.{Strategy}
use recertia.Contracts.Run.{RunState, owned, owned_of}
use recertia.Graph.Engine.{NodeOutcome}
use recertia.Nodes.{Message, invalid_budget}
use recertia.Nodes.FanOut.{
  FanOutContext, is_portfolio, is_decomposition, branch_count, child_budget, requested, share,
  branch, decomposition_branches, fan_out, split_budget, after_budget, dispatch, decompose,
  dispatched_outcome, refused,
}
use recertia.Nodes.FanOut.Partition.{partition_criteria, local_criteria, ids_of}
use recertia.Nodes.FanOut.Partition.Permuted.{owned_ids, partition_criteria-Perm}

-- A limit on tokens that is set, but below the number of branches.
abbrev pub TooFewTokens : Option ℕ → ℕ → Type 0
TooFewTokens none n = ⊥
TooFewTokens (some limit) n = limit < n

share-positive_iff :
    (n : ℕ)
    → 1 ≤ n
    → (limit : Option ℕ) → (positive_or_none (share limit n) ≡ false) ↔ TooFewTokens limit n
share-positive_iff n pos none = ground arith
share-positive_iff n pos (some limit) =
    let reached = le-div_iff_mul-le {k = n} {x = 1} {y = limit} pos in
    (λ h. ground (arith, reached.1), λ h. ground (arith, reached.0))

leb-max : (x : ℕ) → leb 1 (max 1 x) ≡ true
leb-max x = ground arith

accepted-bounds :
    (parent : Budget)
    → budget_accepted parent ≡ true
    → (leb 1 parent.max_branches ≡ true)
      × (leb 1 parent.max_parallel_steps ≡ true)
      × (leb 1 parent.claim_timeout_s ≡ true)
unfolding budget_accepted
accepted-bounds parent good =
    pick (leb 1 parent.max_attempts) (leb 1 parent.max_tool_calls)
      (positive_or_none parent.max_tokens) (leb 1 parent.max_wall_clock_s)
      (leb 1 parent.max_branches) (leb parent.max_branches 16) (leb 1 parent.max_parallel_steps)
      (leb 1 parent.claim_timeout_s) good
  where
    pick :
        (a b c d e f g h : Bool)
        → (a && (b && (c && (d && ((e && f) && (g && h)))))) ≡ true
        → (e ≡ true) × (g ≡ true) × (h ≡ true)
    pick a b c d e f g h all_true = ground arith

child_budget-accepted :
    (n : ℕ) (parent : Budget)
    → budget_accepted parent ≡ true
    → budget_accepted (child_budget parent n) ≡ positive_or_none (share parent.max_tokens n)
unfolding budget_accepted child_budget
child_budget-accepted n parent good =
    let (_, steps, timeout) = accepted-bounds parent good in
    rw
      (
        leb-max (parent.max_attempts / n),
        leb-max (parent.max_tool_calls / n),
        leb-max (parent.max_wall_clock_s / n),
        steps,
        timeout,
      )
      (and_true (positive_or_none (share parent.max_tokens n)))
  where
    and_true : (b : Bool) → (b && true) ≡ b
    and_true b = ground arith

pub branch_count-pos : (s : RunState) → budget_accepted s.budget ≡ true → 1 ≤ branch_count s
unfolding branch_count
branch_count-pos s good =
    let (branches, _, _) = accepted-bounds s.budget good in
    at_least_one s.budget.max_branches
      (if is_portfolio s.strategy
        then length s.bundle.skills
        else min (length s.criteria) s.budget.max_branches)
      branches
  where
    at_least_one : (b d : ℕ) → leb 1 b ≡ true → 1 ≤ min b (max 2 d)
    at_least_one b d h = ground arith

not_portfolio : (o : Option Strategy) → is_decomposition o ≡ true → is_portfolio o ≡ false
not_portfolio o h = ground arith

module _ (render : Message → String) (ctx : FanOutContext) (s : RunState) where
  -- On a run that asks for branches, with a budget within its declared bounds, `fan_out` fails with an
  -- invalid budget exactly when the token limit is set and below the number of branches.
  pub fan_out-invalid_budget_iff :
      budget_accepted s.budget ≡ true
      → (is_portfolio s.strategy || is_decomposition s.strategy) ≡ true
      → (fan_out render ctx s ≡ raised invalid_budget)
        ↔ TooFewTokens s.budget.max_tokens (branch_count s)
  unfolding fan_out split_budget
  fan_out-invalid_budget_iff good asks =
      let few = share-positive_iff (branch_count s) (branch_count-pos s good) s.budget.max_tokens in
      let told = child_budget-accepted (branch_count s) s.budget good in
      (λ h. few.0 (ground arith), λ h. ground (arith, few.1 h))

  owned-decomposition_branches :
      (child : Budget) (i : ℕ) (parts : List (String × List String))
      → owned (decomposition_branches render ctx ctx.run_id child i parts) ≡ owned_ids parts
  unfolding decomposition_branches branch owned owned_of
  owned-decomposition_branches child i [] = refl
  owned-decomposition_branches child i ((name, ids) ∷ parts) =
      ap (λ r. ids ++ r) (owned-decomposition_branches child (i + 1) parts)

  -- The criteria that the branches of an outcome own are those that are not a judge's.
  OwnsLocal : NodeOutcome → Type 0
  OwnsLocal out = Perm (owned out.state.branches) (ids_of (local_criteria s))

  decompose-OwnsLocal :
      (child : Budget) (r : BudgetReservation) (parts : Option (List (String × List String)))
      → partition_criteria render (some (branch_count s)) s ≡ parts
      → is_decomposition (decompose render ctx s child r parts).state.strategy ≡ true
      → OwnsLocal (decompose render ctx s child r parts)
  unfolding OwnsLocal decompose dispatched_outcome
  decompose-OwnsLocal child r none e stays = ground arith
  decompose-OwnsLocal child r (some parts) e stays =
      subst (λ ids. Perm ids (ids_of (local_criteria s)))
        (sym (owned-decomposition_branches child 0 parts))
        (partition_criteria-Perm render (some (branch_count s)) s parts e).0

  after_budget-OwnsLocal :
      (child : Budget) (r : BudgetReservation) (excess : Option Dimension)
      → is_decomposition s.strategy ≡ true
      → (after_budget render ctx s child r excess).route ≡ some "always"
      → is_decomposition (after_budget render ctx s child r excess).state.strategy ≡ true
      → OwnsLocal (after_budget render ctx s child r excess)
  unfolding after_budget refused dispatch
  after_budget-OwnsLocal child r (some d) asks always stays = cc
  after_budget-OwnsLocal child r none asks always stays =
      let cut = partition_criteria render (some (branch_count s)) s in
      let same : after_budget render ctx s child r none ≡ decompose render ctx s child r cut =
        rw (not_portfolio s.strategy asks) refl in
      subst OwnsLocal (sym same) (
        decompose-OwnsLocal child r cut refl
          (subst (λ (o : NodeOutcome). is_decomposition o.state.strategy ≡ true) same stays))

  -- If `fan_out` answers a decomposition with `always` and leaves it a decomposition, its branches own
  -- the ids of exactly the criteria that are not a judge's, each as often as the run has it.
  pub fan_out-owned-Perm :
      (out : NodeOutcome)
      → is_decomposition s.strategy ≡ true
      → fan_out render ctx s ≡ ok out
      → out.route ≡ some "always"
      → is_decomposition out.state.strategy ≡ true
      → Perm (owned out.state.branches) (ids_of (local_criteria s))
  unfolding fan_out split_budget OwnsLocal
  fan_out-owned-Perm out asks answer always stays =
      let child = child_budget s.budget (branch_count s) in
      let r = requested ctx s in
      let excess = budget_excess s.budget s.spent s.reserved r in
      let after = after_budget render ctx s child r excess in
      let split : split_budget render ctx s ≡ ok out =
        rw (not_portfolio s.strategy asks, asks) at answer in
      let same : after ≡ out =
        ok-injective
          (raise_if-eq-ok (not (budget_accepted child)) invalid_budget (ok after) split).1 in
      subst OwnsLocal same (
        after_budget-OwnsLocal child r excess asks
          (subst (λ (o : NodeOutcome). o.route ≡ some "always") (sym same) always)
          (subst (λ (o : NodeOutcome). is_decomposition o.state.strategy ≡ true) (sym same) stays))
