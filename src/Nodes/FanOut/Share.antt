-- ===== src/Nodes/FanOut/Share.antt =====
-- The budgets of the branches of one fan-out, together, against their parent's.
use recertia.Prelude.{
  ◌⊎◌, zero, suc, ◌+◌, ◌-◌, true, not, ◌||◌, length, refl, ap, subst, ok, Bool-cases, ok-injective,
  raise_if-eq-ok, ℕ, ◌*◌, ◌/◌, ◌≤◌, min, max, ◌≡◌, Option, none, some, List, [], ◌∷◌, arith, String,
}
use recertia.Contracts.Budget.{
  Budget, BudgetReservation, budget_accepted, budget_excess, totals, limits, Dimension,
}
use recertia.Contracts.Run.{RunState, SkillCandidateRef}
use recertia.Nodes.FanOut.{
  FanOutContext, branch_count, child_budget, requested_per_branch, requested_for, requested,
  script_calls, or_zero, share, is_portfolio, is_decomposition, strategies, branch,
  portfolio_branches, decomposition_branches, fan_out, split_budget, after_budget, dispatch,
  decompose, dispatched_outcome, refused,
}
use recertia.Nodes.FanOut.Partition.{partition_criteria}
use recertia.Nodes.FanOut.Partition.Permuted.{length-partition_criteria}
use recertia.Nodes.FanOut.Reply.{branch_count-pos}
use recertia.Contracts.Branch.{BranchState}
use recertia.Contracts.Common.{Strategy}
use recertia.Contracts.Failure.{SkillRef}
use recertia.Graph.Engine.{NodeOutcome}
use recertia.Nodes.{Message, invalid_budget}
use native.Mathlib.Nat.{mul-div-le, mul-le-mul_right}
use recertia.Contracts.Budget.Excess.{Within, budget_excess-none_iff}
use recertia.Prelude.{inl, inr}

times-le : (c n : ℕ) → 1 ≤ c → n ≤ c * n
times-le c n h = omega (arith, mul-le-mul_right n h)

share-max-le : (n limit : ℕ) → n ≤ limit → n * max 1 (limit / n) ≤ limit
share-max-le n limit h = elim (compare-one (limit / n)) [
  | inl e ↦ rw e (omega arith)
  | inr e ↦ rw e (mul-div-le limit n)
]
  where
    compare-one : (x : ℕ) → (max 1 x ≡ 1) ⊎ (max 1 x ≡ x)
    compare-one x = ground arith

script_calls-pos : (script : Option (List String)) → 1 ≤ script_calls script
script_calls-pos none = omega arith
script_calls-pos (some []) = omega arith
script_calls-pos (some (x ∷ xs)) = omega arith

-- The budgets of `n` branches add up to no more than their parent's.
record Shared (n : ℕ) (parent child : Budget) : Type 0 where
  attempts : n * child.max_attempts ≤ parent.max_attempts
  tool_calls : n * child.max_tool_calls ≤ parent.max_tool_calls
  tokens : Within parent.max_tokens (n * or_zero child.max_tokens)
  wall_clock_s : n * child.max_wall_clock_s ≤ parent.max_wall_clock_s
  cost_usd : Within parent.max_cost_usd (n * or_zero child.max_cost_usd)

share-Within : (n : ℕ) (limit : Option ℕ) → Within limit (n * or_zero (share limit n))
share-Within n none = tt
share-Within n (some limit) = mul-div-le limit n

module _ (ctx : FanOutContext) (s : RunState) where
  -- If the reservation is admitted, so many budgets as it is for stay within the run's together.
  admitted-Shared :
      budget_excess s.budget s.spent s.reserved (requested ctx s) ≡ none
      → Shared (branch_count s) s.budget (child_budget s.budget (branch_count s))
  unfolding requested requested_for requested_per_branch child_budget totals limits
  admitted-Shared h =
      let n = branch_count s in
      let child = child_budget s.budget n in
      let within = (budget_excess-none_iff s.budget s.spent s.reserved (requested ctx s)).0 h in
      record {
        attempts = share-max-le n s.budget.max_attempts (ground (arith, within Dimension.attempts));
        tool_calls = share-max-le n s.budget.max_tool_calls (
            ground (
              arith,
              within Dimension.tool_calls,
              times-le (script_calls ctx.script) n (script_calls-pos ctx.script),
            ));
        tokens = share-Within n s.budget.max_tokens;
        wall_clock_s = share-max-le n s.budget.max_wall_clock_s (
            ground (
              arith,
              within Dimension.wall_clock_s,
              times-le (min 60 child.max_wall_clock_s) n (omega arith),
            ));
        cost_usd = share-Within n s.budget.max_cost_usd;
      }

-- What branches have together.
abbrev pub total : (Budget → ℕ) → List BranchState → ℕ
total f [] = 0
total f (b ∷ branches) = f b.budget + total f branches

-- The budgets of some branches together stay within a budget.
pub record SharedBy (parent : Budget) (branches : List BranchState) : Type 0 where
  pub all_attempts : total (λ b. b.max_attempts) branches ≤ parent.max_attempts
  pub all_tool_calls : total (λ b. b.max_tool_calls) branches ≤ parent.max_tool_calls
  pub all_tokens : Within parent.max_tokens (total (λ b. or_zero b.max_tokens) branches)
  pub all_wall_clock : total (λ b. b.max_wall_clock_s) branches ≤ parent.max_wall_clock_s
  pub all_cost : Within parent.max_cost_usd (total (λ b. or_zero b.max_cost_usd) branches)

pub none-SharedBy : (parent : Budget) → SharedBy parent []
none-SharedBy parent = record {
  all_attempts = omega arith;
  all_tool_calls = omega arith;
  all_tokens = within_zero parent.max_tokens;
  all_wall_clock = omega arith;
  all_cost = within_zero parent.max_cost_usd;
}
  where
    within_zero : (limit : Option ℕ) → Within limit 0
    within_zero none = tt
    within_zero (some l) = omega arith

-- At most so many branches, each with the same budget.
record AtMost (n : ℕ) (child : Budget) (branches : List BranchState) : Type 0 where
  same : (f : Budget → ℕ) → total f branches ≡ length branches * f child
  few : length branches ≤ n

total-le :
    (n : ℕ) (child : Budget) (branches : List BranchState) (f : Budget → ℕ)
    → AtMost n child branches
    → total f branches ≤ n * f child
total-le n child branches f m = rw (m.same f) (mul-le-mul_right (f child) m.few)

Within-total :
    (limit : Option ℕ) (n : ℕ) (child : Budget) (branches : List BranchState) (f : Budget → ℕ)
    → AtMost n child branches
    → Within limit (n * f child)
    → Within limit (total f branches)
Within-total none n child branches f m h = tt
Within-total (some l) n child branches f m h = let le = total-le n child branches f m in omega arith

AtMost-SharedBy :
    (n : ℕ) (parent child : Budget) (branches : List BranchState)
    → Shared n parent child
    → AtMost n child branches
    → SharedBy parent branches
AtMost-SharedBy n parent child branches h m = record {
  all_attempts =
      Within-total (some parent.max_attempts) n child branches (λ b. b.max_attempts) m h.attempts;
  all_tool_calls =
      Within-total (some parent.max_tool_calls) n child branches (λ b. b.max_tool_calls) m
        h.tool_calls;
  all_tokens =
      Within-total parent.max_tokens n child branches (λ b. or_zero b.max_tokens) m h.tokens;
  all_wall_clock =
      Within-total (some parent.max_wall_clock_s) n child branches (λ b. b.max_wall_clock_s) m
        h.wall_clock_s;
  all_cost =
      Within-total parent.max_cost_usd n child branches (λ b. or_zero b.max_cost_usd) m h.cost_usd;
}

one_more : (n c : ℕ) → c + n * c ≡ suc n * c
one_more n c = grind arith

length-strategies : (n : ℕ) (skills : List SkillCandidateRef) → length (strategies n skills) ≤ n + 1
unfolding strategies
length-strategies zero skills = omega arith
length-strategies (suc n) [] = omega arith
length-strategies (suc n) (c ∷ skills) = let h = length-strategies n skills in omega arith

module _ (render : Message → String) (ctx : FanOutContext) (s : RunState) where
  portfolio-same :
      (child : Budget) (i : ℕ) (ways : List (Strategy × Option SkillRef)) (f : Budget → ℕ)
      → total f (portfolio_branches render ctx ctx.run_id child i ways) ≡ length ways * f child
  unfolding portfolio_branches branch
  portfolio-same child i [] f = omega arith
  portfolio-same child i ((strategy, candidate) ∷ ways) f =
      rw (portfolio-same child (i + 1) ways f) (one_more (length ways) (f child))

  length-portfolio :
      (child : Budget) (i : ℕ) (ways : List (Strategy × Option SkillRef))
      → length (portfolio_branches render ctx ctx.run_id child i ways) ≡ length ways
  unfolding portfolio_branches
  length-portfolio child i [] = refl
  length-portfolio child i ((strategy, candidate) ∷ ways) =
      ap suc (length-portfolio child (i + 1) ways)

  decomposition-same :
      (child : Budget) (i : ℕ) (parts : List (String × List String)) (f : Budget → ℕ)
      → total f (decomposition_branches render ctx ctx.run_id child i parts)
        ≡ length parts * f child
  unfolding decomposition_branches branch
  decomposition-same child i [] f = omega arith
  decomposition-same child i ((name, ids) ∷ parts) f =
      rw (decomposition-same child (i + 1) parts f) (one_more (length parts) (f child))

  length-decomposition :
      (child : Budget) (i : ℕ) (parts : List (String × List String))
      → length (decomposition_branches render ctx ctx.run_id child i parts) ≡ length parts
  unfolding decomposition_branches
  length-decomposition child i [] = refl
  length-decomposition child i ((name, ids) ∷ parts) =
      ap suc (length-decomposition child (i + 1) parts)

  dispatch-AtMost :
      (child : Budget) (r : BudgetReservation)
      → 1 ≤ branch_count s
      → AtMost (branch_count s) child (dispatch render ctx s child r).state.branches
  unfolding dispatch dispatched_outcome decompose
  dispatch-AtMost child r pos = elim (Bool-cases (is_portfolio s.strategy)) [
    | inl e ↦ rw e portfolio
    | inr e ↦ rw e (decomposed (partition_criteria render (some (branch_count s)) s) refl)
  ]
    where
      ways : List (Strategy × Option SkillRef)
      ways = strategies (branch_count s - 1) s.bundle.skills

      portfolio :
          AtMost (branch_count s) child (portfolio_branches render ctx ctx.run_id child 0 ways)
      portfolio = record {
        same = λ f. rw (length-portfolio child 0 ways) (portfolio-same child 0 ways f);
        few =
            let h = length-strategies (branch_count s - 1) s.bundle.skills in
            rw (length-portfolio child 0 ways) (omega arith);
      }

      decomposed :
          (parts : Option (List (String × List String)))
          → partition_criteria render (some (branch_count s)) s ≡ parts
          → AtMost (branch_count s) child (decompose render ctx s child r parts).state.branches
      decomposed none e = record { same = λ f. omega arith; few = omega arith }
      decomposed (some parts) e = record {
        same = λ f. rw (length-decomposition child 0 parts) (decomposition-same child 0 parts f);
        few =
            rw (length-decomposition child 0 parts)
              (length-partition_criteria render (branch_count s) s parts pos e);
      }

  after_budget-SharedBy :
      (excess : Option Dimension)
      → SharedBy s.budget s.branches
      → 1 ≤ branch_count s
      → budget_excess s.budget s.spent s.reserved (requested ctx s) ≡ excess
      → SharedBy s.budget
          (after_budget render ctx s
            (child_budget s.budget (branch_count s))
            (requested ctx s)
            excess).state.branches
  unfolding after_budget refused
  after_budget-SharedBy (some d) before pos e = before
  after_budget-SharedBy none before pos e =
      let child = child_budget s.budget (branch_count s) in
      AtMost-SharedBy (branch_count s) s.budget child _ (admitted-Shared ctx s e)
        (dispatch-AtMost child (requested ctx s) pos)

  -- If a run with a budget within its declared bounds has no branches, or branches whose budgets stay
  -- together within the run's budget in attempts, tool calls, tokens, wall clock and cost, then the
  -- branches that fan_out leaves it with do so too, also where a branch is given at least one.
  pub fan_out-SharedBy :
      (out : NodeOutcome)
      → budget_accepted s.budget ≡ true
      → SharedBy s.budget s.branches
      → fan_out render ctx s ≡ ok out
      → SharedBy s.budget out.state.branches
  unfolding fan_out split_budget
  fan_out-SharedBy out good before answer =
      elim (Bool-cases (is_portfolio s.strategy || is_decomposition s.strategy)) [
        | inl asks ↦ split (rw asks at answer)
        | inr not_asked ↦
            subst (λ (o : NodeOutcome). SharedBy s.budget o.state.branches)
              (ok-injective (rw not_asked at answer)) before
      ]
    where
      split : split_budget render ctx s ≡ ok out → SharedBy s.budget out.state.branches
      split h =
          let child = child_budget s.budget (branch_count s) in
          let excess = budget_excess s.budget s.spent s.reserved (requested ctx s) in
          subst (λ (o : NodeOutcome). SharedBy s.budget o.state.branches)
            (ok-injective
              (raise_if-eq-ok (not (budget_accepted child)) invalid_budget
                (ok (after_budget render ctx s child (requested ctx s) excess)) h).1)
            (after_budget-SharedBy excess before (branch_count-pos s good) refl)
