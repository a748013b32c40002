-- ===== src/Graph/Ops/Threads/Bounded.antt =====
-- How many threads run an operation whose claim waiters dropped.
use recertia.Prelude.{
  ℕ, ◌+◌, ◌≤◌, Bool, true, false, ◌&&◌, Option, none, some, List, [], ◌∷◌, ◌≡◌, inl, inr, refl, sym,
  subst, find, count, is_some, if◌then◌else◌, arith, Bool-cases,
}
use recertia.Prelude.Rows.{find-append_none, find-update_where-some, find-true}
use recertia.Graph.Ops.{
  OpKey, Stored, sentinel, result, OpRow, same_key, has_key, pending_row, is_live, claim_pending,
  claim_stored, claim_row, pass,
}
use recertia.Graph.Ops.Threads.{
  Reach, Step, System, begun, die, dies, done, drop_count, drop_of, drops, enter, entered, enters,
  later, leave, leaves, overdue, put_in, puts, remove_one, restart, restarts, runs,
}
use recertia.Graph.Ops.Threads.Frame.{
  Frame, die-Frame, leave-Frame, overdue-Frame, pass-Frame, put-Frame, same_key-eq, same_key_refl,
}
use recertia.Graph.Ops.Threads.Exclusive.{live-install, put-kept}

-- Whether an operation is claimed, and has a row, as a number.
abbrev held_no : OpKey → System → ℕ
held_no k s = if is_live k s.ops && is_some (find (has_key k) s.ops.rows) then 1 else 0

-- Every thread but one that runs the operation came after a dropped claim.
abbrev IsBounded : OpKey → ℕ → System → Type 0
IsBounded k n s = runs k s ≤ n + held_no k s

held_no-le : (k : OpKey) (s : System) → held_no k s ≤ 1
held_no-le k s = ground arith

Frame-IsBounded :
    (k : OpKey) (n : ℕ) (s t : System) → Frame k s t → IsBounded k n s → IsBounded k n t
Frame-IsBounded k n s t f h = rw (f.runs_same, f.live_same, f.rows_same) h

count-remove_one_fewer :
    (k : OpKey) (cs : List OpKey)
    → 1 ≤ count (λ c. same_key c k) cs
    → count (λ c. same_key c k) (remove_one k cs) + 1 ≡ count (λ c. same_key c k) cs
unfolding remove_one
count-remove_one_fewer k [] h = ground arith
count-remove_one_fewer k (c ∷ cs) h = ground (arith, count-remove_one_fewer k cs)

fewer-IsBounded :
    (k : OpKey) (n : ℕ) (s t : System) → runs k t + 1 ≡ runs k s → IsBounded k n s → IsBounded k n t
fewer-IsBounded k n s t e h = omega (arith, held_no-le k s)

module _ (k : OpKey) (n : ℕ) (s : System) (h : IsBounded k n s) where
  claim_pending-IsBounded :
      (r : OpRow) (b : Bool)
      → find (has_key k) s.ops.rows ≡ some r
      → is_live k s.ops ≡ b
      → IsBounded k n (entered k s (claim_pending k s.ops b))
  unfolding claim_pending begun
  claim_pending-IsBounded r true f live = h
  claim_pending-IsBounded r false f live =
      let found =
        find-update_where-some (has_key k) (has_key k) (λ x. record x { stored = sentinel })
          (λ x _. refl) s.ops.rows r f in
      ground (
        arith,
        same_key_refl k,
        live,
        live-install k s.ops.live_claims,
        find-true (has_key k) s.ops.rows r f,
        found,
      )

  claim_row-IsBounded :
      (o : Option OpRow)
      → find (has_key k) s.ops.rows ≡ o
      → IsBounded k n (entered k s (claim_row k s.ops o))
  unfolding claim_row claim_stored begun
  claim_row-IsBounded none f = ground (
    arith,
    same_key_refl k,
    f,
    live-install k s.ops.live_claims,
    find-append_none (has_key k) s.ops.rows (pending_row k ∷ []) f,
  )
  claim_row-IsBounded (some r) f = stored r.stored
    where
      stored : (v : Stored) → IsBounded k n (entered k s (claim_stored k s.ops v))
      stored sentinel = claim_pending-IsBounded r (is_live k s.ops) f refl
      stored (result v) = h

  enter-IsBounded : (admitted : Bool) → IsBounded k n (enter admitted k s)
  unfolding enter pass begun
  enter-IsBounded false = h
  enter-IsBounded true = claim_row-IsBounded (find (has_key k) s.ops.rows) refl

  put_in-IsBounded :
      (v : Stored) (o : Option OpRow)
      → find (has_key k) s.ops.rows ≡ o
      → IsBounded k n (put_in k v s)
  unfolding put_in
  put_in-IsBounded v (some r) f = subst (IsBounded k n) (sym (put-kept k v s r f)) h
  put_in-IsBounded v none f = more (rw f at h)
    where
      more :
          runs k s ≤ n + (if is_live k s.ops && false then 1 else 0) → IsBounded k n (put_in k v s)
      more few = ground arith

-- A step on an operation, whichever it is.
at_key :
    (k : OpKey) (n : ℕ) (s : System) (j : OpKey) (t : OpKey → System)
    → (same_key j k ≡ false → Frame k s (t j))
    → IsBounded k n (t k)
    → IsBounded k n s
    → IsBounded k n (t j)
at_key k n s j t other own h = elim (Bool-cases (same_key j k)) [
  | inl e ↦ subst (λ i. IsBounded k n (t i)) (sym (same_key-eq j k e)) own
  | inr e ↦ Frame-IsBounded k n s (t j) (other e) h
]

left-IsBounded :
    (k : OpKey) (n : ℕ) (s : System) (j : OpKey) (t : OpKey → System)
    → (same_key j k ≡ false → Frame k s (t j))
    → ((i : OpKey) → (t i).running ≡ remove_one i s.running)
    → 1 ≤ runs j s
    → IsBounded k n s
    → IsBounded k n (t j)
left-IsBounded k n s j t other removed some_run h = elim (Bool-cases (same_key j k)) [
  | inl e ↦
      subst (λ i. IsBounded k n (t i)) (sym (same_key-eq j k e))
        (fewer-IsBounded k n s (t k)
          (rw (removed k) (
            count-remove_one_fewer k s.running
              (subst (λ i. 1 ≤ runs i s) (same_key-eq j k e) some_run)))
          h)
  | inr e ↦ Frame-IsBounded k n s (t j) (other e) h
]

overdue-IsBounded :
    (k : OpKey) (n : ℕ) (s : System) (j : OpKey)
    → IsBounded k n s
    → IsBounded k (n + (if same_key j k then 1 else 0)) (overdue j s)
unfolding overdue
overdue-IsBounded k n s j h = elim (Bool-cases (same_key j k)) [
  | inl e ↦ own e
  | inr e ↦
      let kept = Frame-IsBounded k n s (overdue j s) (overdue-Frame j k e s) h in rw e (omega arith)
]
  where
    own : same_key j k ≡ true → IsBounded k (n + (if same_key j k then 1 else 0)) (overdue j s)
    own e = let few = held_no-le k s in rw e (omega arith)

Step-IsBounded :
    (k : OpKey) (n : ℕ) (s t : System) (step : Step s t)
    → IsBounded k n s
    → IsBounded k (n + drop_of k s t step) t
unfolding leave die restart
Step-IsBounded k n _ _ (enters admitted j s) h =
    let kept =
      at_key k n s j (λ i. enter admitted i s) (λ e. pass-Frame j k e admitted s)
        (enter-IsBounded k n s h admitted) h in
    omega arith
Step-IsBounded k n _ _ (leaves admitted j answer token s l) h =
    let kept =
      left-IsBounded k n s j (λ i. leave admitted i answer token s)
        (λ e. leave-Frame j k e admitted answer token s) (λ i. refl) l h in
    omega arith
Step-IsBounded k n _ _ (dies owns j s l) h =
    let kept =
      left-IsBounded k n s j (λ i. die owns i s) (λ e. die-Frame j k e owns s) (λ i. refl) l h in
    omega arith
Step-IsBounded k n _ _ (drops j s) h = overdue-IsBounded k n s j h
Step-IsBounded k n _ _ (restarts s) h = omega arith
Step-IsBounded k n _ _ (puts j v s) h =
    let kept =
      at_key k n s j (λ i. put_in i v s) (λ e. put-Frame j k e v s)
        (put_in-IsBounded k n s h v (find (has_key k) s.ops.rows) refl) h in
    omega arith

pub Reach-runs :
    (k : OpKey) (n : ℕ) (s t : System) (reach : Reach s t)
    → IsBounded k n s
    → runs k t ≤ n + drop_count k s t reach + 1
Reach-runs k n _ _ (done s) h = omega (arith, held_no-le k s)
Reach-runs k n _ _ (later s t u step rest) h =
    let later_runs =
      Reach-runs k (n + drop_of k s t step) t u rest (Step-IsBounded k n s t step h) in
    omega arith
