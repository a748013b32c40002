-- ===== src/Nodes/Join/Winner.antt =====
-- The reduction of a layered portfolio does not change its winner.
use recertia.Prelude.{
  ℕ, zero, suc, ◌≡◌, ◌≤◌, String, Bool, true, false, not, ◌&&◌, Option, none, some, List, [], ◌∷◌,
  keep, contains, refl, sym, ap, arith, str_eq_refl, if◌then◌else◌, max, length, inl, inr, ◌/◌,
  subst, ◌⊎◌,
}
use recertia.Contracts.Branch.{BranchState}
use recertia.Contracts.Run.{RunState}
use recertia.Nodes.Join.{
  Score, exceeds, better, best_of, max_branch, place, ranked, first_n, ids_of, succeeded_of,
  kept_ids, survivor_ids, deselect_others, is_portfolio, eligible, select_portfolio_winner,
  portfolio_score,
}

-- If neither of two steps is better, neither are both together.
exceeds_trans : (a b c : Score) → exceeds a b ≡ false → exceeds b c ≡ false → exceeds a c ≡ false
exceeds_trans a b c h k = ground arith

-- The first of a ranking is the first of the best.
head : List BranchState → Option BranchState
head [] = none
head (b ∷ branches) = some b

head-place : (b : BranchState) (cs : List BranchState) → head (place b cs) ≡ best_of b (head cs)
unfolding place head
head-place b [] = refl
head-place b (c ∷ cs) = pick (better c b)
  where
    pick :
        (x : Bool)
        → head (if x then c ∷ place b cs else b ∷ c ∷ cs) ≡ (if x then some c else some b)
    pick true = refl
    pick false = refl

head-ranked : (branches : List BranchState) → head (ranked branches) ≡ max_branch branches
unfolding ranked max_branch head
head-ranked [] = refl
head-ranked (b ∷ branches) = rw (head-place b (ranked branches), head-ranked branches) refl

exceeds_irrefl : (a : Score) → exceeds a a ≡ false
exceeds_irrefl a = ground arith

exceeds_asym : (a b : Score) → exceeds a b ≡ true → exceeds b a ≡ false
exceeds_asym a b h = ground arith

-- Of two results of `max_branch`, the first is not the better.
no_better : Option BranchState → Option BranchState → Bool
no_better none o = true
no_better (some z) none = false
no_better (some z) (some y) = not (better z y)

no_better-skip :
    (x : BranchState) (o q : Option BranchState)
    → no_better o q ≡ true
    → no_better o (best_of x q) ≡ true
unfolding no_better
no_better-skip x none q h = refl
no_better-skip x (some z) none h = ground arith
no_better-skip x (some z) (some y) h = pick (better y x) refl
  where
    pick : (b : Bool) → better y x ≡ b → no_better (some z) (if b then some y else some x) ≡ true
    pick true e = h
    pick false e =
        ap not (
          exceeds_trans (portfolio_score z) (portfolio_score y) (portfolio_score x) (ground arith)
            e)

no_better-keep :
    (x : BranchState) (o q : Option BranchState)
    → no_better o q ≡ true
    → no_better (best_of x o) (best_of x q) ≡ true
unfolding no_better
no_better-keep x none none h = ap not (exceeds_irrefl (portfolio_score x))
no_better-keep x none (some y) h = pick (better y x) refl
  where
    pick : (b : Bool) → better y x ≡ b → no_better (some x) (if b then some y else some x) ≡ true
    pick true e = ap not (exceeds_asym (portfolio_score y) (portfolio_score x) e)
    pick false e = ap not (exceeds_irrefl (portfolio_score x))
no_better-keep x (some z) none h = ground arith
no_better-keep x (some z) (some y) h = pick (better z x) (better y x) refl refl
  where
    pick :
        (a b : Bool)
        → better z x ≡ a
        → better y x ≡ b
        → no_better (if a then some z else some x) (if b then some y else some x) ≡ true
    pick true true e f = h
    pick true false e f = ground (
      arith,
      e,
      exceeds_trans (portfolio_score z) (portfolio_score y) (portfolio_score x) (ground arith) f,
    )
    pick false true e f = ap not (exceeds_asym (portfolio_score y) (portfolio_score x) f)
    pick false false e f = ap not (exceeds_irrefl (portfolio_score x))

max-keep-no_better :
    (p : BranchState → Bool) (xs : List BranchState)
    → no_better (max_branch (keep p xs)) (max_branch xs) ≡ true
unfolding max_branch no_better
max-keep-no_better p [] = refl
max-keep-no_better p (x ∷ xs) = pick (p x) (max-keep-no_better p xs)
  where
    pick :
        (b : Bool)
        → no_better (max_branch (keep p xs)) (max_branch xs) ≡ true
        → no_better (max_branch (if b then x ∷ keep p xs else keep p xs)) (max_branch (x ∷ xs))
          ≡ true
    pick true h = no_better-keep x (max_branch (keep p xs)) (max_branch xs) h
    pick false h = no_better-skip x (max_branch (keep p xs)) (max_branch xs) h

of_some : BranchState → Option BranchState → BranchState
of_some x none = x
of_some x (some y) = y

some-injective : {a b : BranchState} → some a ≡ some b → a ≡ b
unfolding of_some
some-injective {a} h = ap (of_some a) h

best_of-cases :
    (x w : BranchState) (q : Option BranchState) → best_of x q ≡ some w → (q ≡ some w) ⊎ (x ≡ w)
best_of-cases x w none h = inr (some-injective h)
best_of-cases x w (some y) h = pick (better y x) h
  where
    pick : (b : Bool) → (if b then some y else some x) ≡ some w → (some y ≡ some w) ⊎ (x ≡ w)
    pick true e = inl e
    pick false e = inr (some-injective e)

-- The best of more than is kept, where the one in front is the best of all.
best_kept :
    (x : BranchState) (o q : Option BranchState)
    → no_better o q ≡ true
    → best_of x q ≡ some x
    → best_of x o ≡ some x
unfolding no_better
best_kept x none q h e = refl
best_kept x (some z) none h e = ground arith
best_kept x (some z) (some y) h e = pick (better y x) refl e
  where
    pick :
        (b : Bool)
        → better y x ≡ b
        → (if b then some y else some x) ≡ some x
        → (if better z x then some z else some x) ≡ some x
    pick true f g = ground (
      arith,
      subst (λ a. better a x ≡ true) (some-injective g) f,
      exceeds_irrefl (portfolio_score x),
    )
    pick false f g =
        rw
          (exceeds_trans (portfolio_score z) (portfolio_score y) (portfolio_score x) (ground arith)
            f)
          refl

-- Keeping the best leaves it the best.
max-keep :
    (p : BranchState → Bool) (xs : List BranchState) (w : BranchState)
    → max_branch xs ≡ some w
    → p w ≡ true
    → max_branch (keep p xs) ≡ some w
unfolding max_branch
max-keep p [] w h k = ground arith
max-keep p (x ∷ xs) w h k = either (best_of-cases x w (max_branch xs) h) (λ e. max-keep p xs w e k)
  where
    first :
        (b : Bool)
        → p x ≡ b
        → best_of x (max_branch xs) ≡ some x
        → p x ≡ true
        → max_branch (if b then x ∷ keep p xs else keep p xs) ≡ some x
    first true e best kept =
        best_kept x (max_branch (keep p xs)) (max_branch xs) (max-keep-no_better p xs) best
    first false e best kept = ground arith

    later :
        (b : Bool)
        → max_branch (keep p xs) ≡ some w
        → max_branch xs ≡ some w
        → max_branch (if b then x ∷ keep p xs else keep p xs) ≡ some w
    later true e f = rw e (rw f at h)
    later false e f = e

    either :
        (max_branch xs ≡ some w) ⊎ (x ≡ w)
        → (max_branch xs ≡ some w → max_branch (keep p xs) ≡ some w)
        → max_branch (keep p (x ∷ xs)) ≡ some w
    either (inl e) rest = later (p x) (rest e) e
    either (inr e) rest = rw (← e) (first (p x) refl (rw (← e) at h) (rw (← e) at k))

-- A reduction to one branch or more keeps the first of the ranking.
kept_first :
    (n : ℕ) (b : BranchState) (best : List BranchState)
    → 1 ≤ n
    → contains b.branch_id (ids_of (first_n n (b ∷ best))) ≡ true
unfolding first_n
kept_first zero b best h = ground arith
kept_first (suc n) b best h = rw (str_eq_refl b.branch_id) refl

-- Branches that are not eligible may be changed.
eligible-deselect :
    (ids : List String) (branches : List BranchState)
    → eligible (some ids) (succeeded_of (deselect_others (some ids) branches))
      ≡ eligible (some ids) (succeeded_of branches)
unfolding deselect_others
eligible-deselect ids [] = refl
eligible-deselect ids (b ∷ branches) = ground (arith, eligible-deselect ids branches)

-- With the winner's id among those that are eligible, the restriction changes nothing.
select-eligible :
    (ids : List String) (branches : List BranchState) (w : BranchState)
    → max_branch (succeeded_of branches) ≡ some w
    → contains w.branch_id ids ≡ true
    → select_portfolio_winner (some ids) (deselect_others (some ids) branches)
      ≡ select_portfolio_winner none branches
unfolding select_portfolio_winner
select-eligible ids branches w best chosen =
    rw
      (
        eligible-deselect ids branches,
        max-keep (λ b. contains b.branch_id ids) (succeeded_of branches) w best chosen,
        best,
      )
      refl

-- Whether or not a portfolio is large enough to be reduced to the better half of its successful
-- branches first, join selects the branch that it would select from all of them.
pub reduced-winner :
    (s : RunState) (layered : Bool)
    → select_portfolio_winner
        (survivor_ids layered s)
        (deselect_others (survivor_ids layered s) s.branches)
      ≡ select_portfolio_winner none s.branches
unfolding survivor_ids deselect_others kept_ids head
reduced-winner s layered = pick (layered && is_portfolio s.strategy)
  where
    same :
        (rank : List BranchState)
        → head rank ≡ max_branch (succeeded_of s.branches)
        → select_portfolio_winner (kept_ids rank) (deselect_others (kept_ids rank) s.branches)
          ≡ select_portfolio_winner none s.branches
    same [] h = refl
    same (b ∷ best) h =
        select-eligible (ids_of (first_n (max 2 (length (b ∷ best) / 2)) (b ∷ best))) s.branches b
          (sym h) (kept_first (max 2 (length (b ∷ best) / 2)) b best (omega arith))

    pick :
        (x : Bool)
        → select_portfolio_winner
            (if x then kept_ids (ranked (succeeded_of s.branches)) else none)
            (deselect_others
              (if x then kept_ids (ranked (succeeded_of s.branches)) else none)
              s.branches)
          ≡ select_portfolio_winner none s.branches
    pick true = same (ranked (succeeded_of s.branches)) (head-ranked (succeeded_of s.branches))
    pick false = refl
