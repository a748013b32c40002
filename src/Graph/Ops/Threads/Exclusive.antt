-- ===== src/Graph/Ops/Threads/Exclusive.antt =====
-- One thread at most runs an operation whose claim no waiter dropped.
use recertia.Prelude.{
  ◌≤◌, Bool, true, false, Option, none, some, List, [], ◌∷◌, ◌≡◌, ◌⊎◌, inl, inr, refl, sym, ap,
  subst, find, count, any, arith, Bool-cases,
}
use recertia.Prelude.Rows.{find-append_none, find-update_where-some, find-true}
use recertia.Graph.Ops.{
  OpKey, Stored, sentinel, result, OpRow, same_key, has_key, is_pending, put, insert, pending_row,
  is_live, install_claim, claim_pending, claim_stored, claim_row, pass,
}
use recertia.Graph.Ops.Threads.{
  Reach, Step, System, begun, die, dies, done, drop_count, drop_of, drops, enter, entered, enters,
  later, leave, leaves, overdue, put_in, puts, remove_one, restart, restarts, runs,
}
use recertia.Graph.Ops.Threads.Frame.{
  Frame, count-remove_one_self, die-Frame, leave-Frame, overdue-Frame, pass-Frame, put-Frame,
  same_key-eq, same_key_refl,
}

-- One thread runs the operation, and has its claim and its pending row.
pub record IsHeld (k : OpKey) (s : System) : Type 0 where
  pub one : runs k s ≡ 1
  pub live : is_live k s.ops ≡ true
  pub row : OpRow
  pub found : find (has_key k) s.ops.rows ≡ some row
  pub waiting : is_pending row.stored ≡ true

-- No thread runs the operation, or one does and holds it.
abbrev pub IsExclusive : OpKey → System → Type 0
IsExclusive k s = (runs k s ≡ 0) ⊎ IsHeld k s

Frame-IsExclusive : (k : OpKey) (s t : System) → Frame k s t → IsExclusive k s → IsExclusive k t
Frame-IsExclusive k s t f (inl h) = inl (rw f.runs_same h)
Frame-IsExclusive k s t f (inr h) = inr (record {
  one = rw f.runs_same h.one;
  live = rw f.live_same h.live;
  row = h.row;
  found = rw f.rows_same h.found;
  waiting = h.waiting;
})

-- A step on the operation itself.
module _ (k : OpKey) where
  pub live-install : (live : List OpKey) → any (λ c. same_key c k) (install_claim k live) ≡ true
  unfolding install_claim
  live-install live = ground (arith, same_key_refl k)

  claim_pending-IsExclusive :
      (s : System) (r : OpRow) (b : Bool)
      → find (has_key k) s.ops.rows ≡ some r
      → is_live k s.ops ≡ b
      → is_pending r.stored ≡ true
      → IsExclusive k s
      → IsExclusive k (entered k s (claim_pending k s.ops b))
  unfolding claim_pending begun
  claim_pending-IsExclusive s r true f live waiting x = x
  claim_pending-IsExclusive s r false f live waiting (inl h) = inr (record {
    one = ground (arith, same_key_refl k);
    live = live-install s.ops.live_claims;
    row = record r { stored = sentinel };
    found = ground (
      arith,
      find-true (has_key k) s.ops.rows r f,
      find-update_where-some (has_key k) (has_key k) (λ x. record x { stored = sentinel })
          (λ x _. refl) s.ops.rows r f,
    );
    waiting = refl;
  })
  claim_pending-IsExclusive s r false f live waiting (inr h) = ground (arith, live, h.live)

  claim_row-IsExclusive :
      (s : System) (o : Option OpRow)
      → find (has_key k) s.ops.rows ≡ o
      → IsExclusive k s
      → IsExclusive k (entered k s (claim_row k s.ops o))
  unfolding claim_row claim_stored begun
  claim_row-IsExclusive s none f (inl h) = inr (record {
    one = ground (arith, same_key_refl k);
    live = live-install s.ops.live_claims;
    row = pending_row k;
    found =
        ground
          (arith, same_key_refl k, find-append_none (has_key k) s.ops.rows (pending_row k ∷ []) f);
    waiting = refl;
  })
  claim_row-IsExclusive s none f (inr h) = ground (arith, f, h.found)
  claim_row-IsExclusive s (some r) f x = stored r.stored refl
    where
      stored : (v : Stored) → r.stored ≡ v → IsExclusive k (entered k s (claim_stored k s.ops v))
      stored sentinel e = claim_pending-IsExclusive s r (is_live k s.ops) f refl (ap is_pending e) x
      stored (result v) e = x

  enter-IsExclusive :
      (admitted : Bool) (s : System) → IsExclusive k s → IsExclusive k (enter admitted k s)
  unfolding enter pass begun
  enter-IsExclusive false s x = x
  enter-IsExclusive true s x = claim_row-IsExclusive s (find (has_key k) s.ops.rows) refl x

  left :
      (s : System)
      → IsExclusive k s
      → 1 ≤ runs k s
      → count (λ c. same_key c k) (remove_one k s.running) ≡ 0
  left s (inl h) some_run = omega arith
  left s (inr h) some_run = count-remove_one_self k s.running h.one

-- A `put` does not touch a row that is there.
pub put-kept :
    (j : OpKey) (v : Stored) (s : System) (r : OpRow)
    → find (has_key j) s.ops.rows ≡ some r
    → put_in j v s ≡ s
unfolding put_in put insert
put-kept j sentinel s r f = refl
put-kept j (result v) s r f = rw f refl

put_in-IsExclusive :
    (k j : OpKey) (v : Stored) (s : System) → IsExclusive k s → IsExclusive k (put_in j v s)
unfolding put_in
put_in-IsExclusive k j v s (inl h) = inl h
put_in-IsExclusive k j v s (inr h) = elim (Bool-cases (same_key j k)) [
  | inl e ↦ inr (
      subst (IsHeld k)
        (sym (
          put-kept j v s h.row (
            subst (λ i. find (has_key i) s.ops.rows ≡ some h.row) (sym (same_key-eq j k e))
              h.found)))
        h)
  | inr e ↦ Frame-IsExclusive k s (put_in j v s) (put-Frame j k e v s) (inr h)
]

pub Step-IsExclusive :
    (k : OpKey) (s t : System) (step : Step s t)
    → drop_of k s t step ≡ 0
    → IsExclusive k s
    → IsExclusive k t
unfolding leave die restart
Step-IsExclusive k _ _ (enters admitted j s) undropped x = elim (Bool-cases (same_key j k)) [
  | inl e ↦
      subst (λ i. IsExclusive k (enter admitted i s)) (sym (same_key-eq j k e))
        (enter-IsExclusive k admitted s x)
  | inr e ↦ Frame-IsExclusive k s (enter admitted j s) (pass-Frame j k e admitted s) x
]
Step-IsExclusive k _ _ (leaves admitted j answer token s h) undropped x =
    elim (Bool-cases (same_key j k)) [
      | inl e ↦
          subst (λ i. IsExclusive k (leave admitted i answer token s)) (sym (same_key-eq j k e))
            (inl (left k s x (subst (λ i. 1 ≤ runs i s) (same_key-eq j k e) h)))
      | inr e ↦
          Frame-IsExclusive k s (leave admitted j answer token s)
            (leave-Frame j k e admitted answer token s) x
    ]
Step-IsExclusive k _ _ (dies owns j s h) undropped x = elim (Bool-cases (same_key j k)) [
  | inl e ↦
      subst (λ i. IsExclusive k (die owns i s)) (sym (same_key-eq j k e))
        (inl (left k s x (subst (λ i. 1 ≤ runs i s) (same_key-eq j k e) h)))
  | inr e ↦ Frame-IsExclusive k s (die owns j s) (die-Frame j k e owns s) x
]
Step-IsExclusive k _ _ (restarts s) undropped x = inl refl
Step-IsExclusive k _ _ (puts j v s) undropped x = put_in-IsExclusive k j v s x
Step-IsExclusive k _ _ (drops j s) undropped x = elim (Bool-cases (same_key j k)) [
  | inl e ↦ ground (arith, e, undropped)
  | inr e ↦ Frame-IsExclusive k s (overdue j s) (overdue-Frame j k e s) x
]

pub Reach-IsExclusive :
    (k : OpKey) (s t : System) (reach : Reach s t)
    → drop_count k s t reach ≡ 0
    → IsExclusive k s
    → IsExclusive k t
Reach-IsExclusive k _ _ (done s) undropped x = x
Reach-IsExclusive k _ _ (later s t u step rest) undropped x =
    Reach-IsExclusive k t u rest (omega arith) (Step-IsExclusive k s t step (omega arith) x)
