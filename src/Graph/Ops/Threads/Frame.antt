-- ===== src/Graph/Ops/Threads/Frame.antt =====
-- What a step on one operation leaves alone of another.
use recertia.Prelude.{
  ℕ, String, Bool, true, false, ◌&&◌, Option, none, some, List, [], ◌∷◌, ◌≡◌, inl, inr, refl, sym,
  subst, find, count, any, is_some, arith, Bool-cases, eq_iff, str_eq_refl,
}
use recertia.Prelude.Rows.{
  any-remove_where_other, find-remove_where_other, find-append_skip, update_where,
  find-update_where_other,
}
use recertia.Graph.Ops.{
  OpKey, Stored, sentinel, result, OpRow, same_key, has_key, is_pending, put, insert, pending_row,
  is_live, install_claim, release_claim, drop_stale, claim_pending, claim_stored, claim_row, pass,
  Answer, answered, raises, with_result, give_up, keep_result, finish_op,
}
use recertia.Graph.Ops.Threads.{
  System, begun, die, enter, entered, leave, overdue, put_in, remove_one, runs, stored_or_same,
}

pub same_key-eq : (a b : OpKey) → same_key a b ≡ true → a ≡ b
same_key-eq a b h =
    let e : a.incarnation ≡ b.incarnation = ground arith in
    let f : a.attempt_no ≡ b.attempt_no = ground arith in
    let g : a.op_seq ≡ b.op_seq = ground arith in
    rw
      (
        ← (eq_iff a.run_id b.run_id).0 (ground arith),
        ← (eq_iff a.node b.node).0 (ground arith),
        ← e,
        ← f,
        ← g,
      )
      refl

pub same_key_refl : (a : OpKey) → same_key a a ≡ true
same_key_refl a = ground (arith, str_eq_refl a.run_id, str_eq_refl a.node)

apart : (j k c : OpKey) → same_key j k ≡ false → same_key c j ≡ true → same_key c k ≡ false
apart j k c h e = subst (λ x. same_key x k ≡ false) (sym (same_key-eq c j e)) h

other_way : (j k : OpKey) → same_key j k ≡ false → same_key k j ≡ false
other_way j k h = elim (Bool-cases (same_key k j)) [
  | inl e ↦ ground (arith, same_key_refl j, subst (λ x. same_key j x ≡ false) (same_key-eq k j e) h)
  | inr f ↦ f
]

-- What a step on another operation leaves alone.
pub record Frame (k : OpKey) (s t : System) : Type 0 where
  pub runs_same : runs k t ≡ runs k s
  pub live_same : is_live k t.ops ≡ is_live k s.ops
  pub rows_same : find (has_key k) t.ops.rows ≡ find (has_key k) s.ops.rows

count-remove_one_other :
    (j k : OpKey) (cs : List OpKey)
    → same_key j k ≡ false
    → count (λ c. same_key c k) (remove_one j cs) ≡ count (λ c. same_key c k) cs
unfolding remove_one
count-remove_one_other j k [] h = refl
count-remove_one_other j k (c ∷ cs) h =
    ground (arith, apart j k c h, count-remove_one_other j k cs h)

pub count-remove_one_self :
    (k : OpKey) (cs : List OpKey)
    → count (λ c. same_key c k) cs ≡ 1
    → count (λ c. same_key c k) (remove_one k cs) ≡ 0
unfolding remove_one
count-remove_one_self k [] h = refl
count-remove_one_self k (c ∷ cs) h = ground (arith, count-remove_one_self k cs)

module _ (j k : OpKey) (ne : same_key j k ≡ false) where
  claims_other :
      (live : List OpKey)
      → (any (λ c. same_key c k) (install_claim j live) ≡ any (λ c. same_key c k) live)
        × (any (λ c. same_key c k) (release_claim j live) ≡ any (λ c. same_key c k) live)
  unfolding install_claim release_claim
  claims_other live =
      let rest =
        any-remove_where_other (λ c. same_key c k) (λ c. same_key c j) (λ c. apart j k c ne) live in
      (ground arith, rest)

  same_other : (x : OpRow) → has_key j x ≡ true → has_key k x ≡ false
  same_other x = apart j k x.key ne

  updates_other :
      (f : OpRow → OpRow)
      → ((x : OpRow) → has_key k (f x) ≡ has_key k x)
      → (rows : List OpRow)
      → find (has_key k) (update_where (has_key j) f rows) ≡ find (has_key k) rows
  updates_other f same rows =
      find-update_where_other (has_key j) (has_key k) f (λ x _. same x) rows
        (λ x e. apart k j x.key (other_way j k ne) e)

  claim_pending-Frame : (s : System) (b : Bool) → Frame k s (entered j s (claim_pending j s.ops b))
  unfolding claim_pending begun install_claim
  claim_pending-Frame s true = record { runs_same = refl; live_same = refl; rows_same = refl }
  claim_pending-Frame s false = record {
    runs_same = ground arith;
    live_same = (claims_other s.ops.live_claims).0;
    rows_same = updates_other (λ x. record x { stored = sentinel }) (λ x. refl) s.ops.rows;
  }

  claim_row-Frame : (s : System) (o : Option OpRow) → Frame k s (entered j s (claim_row j s.ops o))
  unfolding claim_row claim_stored begun install_claim
  claim_row-Frame s none = record {
    runs_same = ground arith;
    live_same = (claims_other s.ops.live_claims).0;
    rows_same = find-append_skip (has_key k) s.ops.rows (pending_row j) ne;
  }
  claim_row-Frame s (some r) = stored r.stored
    where
      stored : (v : Stored) → Frame k s (entered j s (claim_stored j s.ops v))
      stored sentinel = claim_pending-Frame s (is_live j s.ops)
      stored (result v) = record { runs_same = refl; live_same = refl; rows_same = refl }

  pub pass-Frame : (admitted : Bool) (s : System) → Frame k s (enter admitted j s)
  unfolding enter pass
  pass-Frame false s = record { runs_same = refl; live_same = refl; rows_same = refl }
  pass-Frame true s = claim_row-Frame s (find (has_key j) s.ops.rows)

  give_up-Frame :
      (s : System) → Frame k s (record { ops = give_up j s.ops; running = remove_one j s.running })
  unfolding give_up
  give_up-Frame s = record {
    runs_same = count-remove_one_other j k s.running ne;
    live_same = (claims_other s.ops.live_claims).1;
    rows_same =
        find-remove_where_other (has_key k) (λ r. has_key j r && is_pending r.stored)
          (λ x e. same_other x (ground arith)) s.ops.rows;
  }

  pub leave-Frame :
      (admitted : Bool) (answer : Answer) (token : Option ℕ) (s : System)
      → Frame k s (leave admitted j answer token s)
  unfolding leave finish_op keep_result
  leave-Frame true (answered (result v)) token s = record {
    runs_same = count-remove_one_other j k s.running ne;
    live_same = (claims_other s.ops.live_claims).1;
    rows_same = updates_other (with_result v token) (λ x. refl) s.ops.rows;
  }
  leave-Frame false (answered (result v)) token s = give_up-Frame s
  leave-Frame admitted (answered sentinel) token s = give_up-Frame s
  leave-Frame admitted raises token s = give_up-Frame s

  pub die-Frame : (owns : Bool) (s : System) → Frame k s (die owns j s)
  unfolding die
  die-Frame true s = record {
    runs_same = count-remove_one_other j k s.running ne;
    live_same = (claims_other s.ops.live_claims).1;
    rows_same = refl;
  }
  die-Frame false s = record {
    runs_same = count-remove_one_other j k s.running ne;
    live_same = refl;
    rows_same = refl;
  }

  pub overdue-Frame : (s : System) → Frame k s (overdue j s)
  unfolding overdue drop_stale
  overdue-Frame s = record {
    runs_same = refl;
    live_same = (claims_other s.ops.live_claims).1;
    rows_same = refl;
  }

  insert-Frame :
      (v : String) (s : System) (b : Bool)
      → Frame k s (record s { ops = stored_or_same (insert j v s.ops b) s.ops })
  unfolding insert
  insert-Frame v s true = record { runs_same = refl; live_same = refl; rows_same = refl }
  insert-Frame v s false = record {
    runs_same = refl;
    live_same = refl;
    rows_same = find-append_skip (has_key k) s.ops.rows _ ne;
  }

  pub put-Frame : (v : Stored) (s : System) → Frame k s (put_in j v s)
  unfolding put_in put
  put-Frame sentinel s = record { runs_same = refl; live_same = refl; rows_same = refl }
  put-Frame (result v) s = insert-Frame v s (is_some (find (has_key j) s.ops.rows))
