-- ===== src/Graph/Ops/Threads/Settled.antt =====
-- An operation that has its result.
use recertia.Prelude.{
  ℕ, ◌≤◌, String, Bool, true, false, Option, some, ◌≡◌, inl, inr, refl, sym, ap, subst, find, arith,
}
use recertia.Graph.Ops.{
  OpKey, Stored, result, OpRow, same_key, has_key, is_pending, returns, drop_stale, claim_stored,
  claim_row, pass, Answer,
}
use recertia.Graph.Ops.Threads.{
  Reach, Step, System, die, dies, done, drop_of, drops, enter, enters, later, leave, leaves,
  overdue, put_in, puts, restart, restarts, runs,
}
use recertia.Graph.Ops.Threads.Frame.{Frame, leave-Frame, pass-Frame, put-Frame, same_key-eq}
use recertia.Graph.Ops.Threads.Exclusive.{IsExclusive, Step-IsExclusive, put-kept}

-- A row with a result.
abbrev pub HasResult : OpKey → OpRow → String → System → Type 0
HasResult k r v s = (find (has_key k) s.ops.rows ≡ some r) × (r.stored ≡ result v)

pub pass-returns :
    (k : OpKey) (r : OpRow) (v : String) (s : System)
    → HasResult k r v s
    → pass true k s.ops ≡ (returns v, s.ops)
unfolding pass claim_row claim_stored
pass-returns k r v s h = rw (h.0, h.1) refl

enter-kept :
    (k : OpKey) (admitted : Bool) (r : OpRow) (v : String) (s : System)
    → HasResult k r v s
    → HasResult k r v (enter admitted k s)
unfolding enter pass
enter-kept k true r v s h = rw (pass-returns k r v s h) h
enter-kept k false r v s h = h

-- Nothing runs an operation that has its result.
pub idle :
    (k : OpKey) (r : OpRow) (v : String) (s : System)
    → IsExclusive k s
    → HasResult k r v s
    → runs k s ≡ 0
idle k r v s (inl h) kept = h
idle k r v s (inr h) kept = ground (arith, h.found, h.waiting, kept.0, ap is_pending kept.1)

Frame-HasResult :
    (k : OpKey) (r : OpRow) (v : String) (s t : System)
    → Frame k s t
    → HasResult k r v s
    → HasResult k r v t
Frame-HasResult k r v s t f h = (rw f.rows_same h.0, h.1)

leave-kept :
    (k j : OpKey) (b : Bool) (r : OpRow) (v : String) (admitted : Bool) (answer : Answer)
    (token : Option ℕ) (s : System)
    → same_key j k ≡ b
    → 1 ≤ runs j s
    → IsExclusive k s
    → HasResult k r v s
    → HasResult k r v (leave admitted j answer token s)
leave-kept k j false r v admitted answer token s e l x h =
    Frame-HasResult k r v s _ (leave-Frame j k e admitted answer token s) h
leave-kept k j true r v admitted answer token s e l x h =
    let none_left = idle k r v s x h in
    let one_left = subst (λ i. 1 ≤ runs i s) (same_key-eq j k e) l in (ground arith, h.1)

put_in-kept :
    (k j : OpKey) (b : Bool) (r : OpRow) (v : String) (w : Stored) (s : System)
    → same_key j k ≡ b
    → HasResult k r v s
    → HasResult k r v (put_in j w s)
put_in-kept k j false r v w s e h = Frame-HasResult k r v s _ (put-Frame j k e w s) h
put_in-kept k j true r v w s e h =
    subst (HasResult k r v)
      (sym (
        put-kept j w s r
          (subst (λ i. find (has_key i) s.ops.rows ≡ some r) (sym (same_key-eq j k e)) h.0)))
      h

enters-kept :
    (k j : OpKey) (b : Bool) (r : OpRow) (v : String) (admitted : Bool) (s : System)
    → same_key j k ≡ b
    → HasResult k r v s
    → HasResult k r v (enter admitted j s)
enters-kept k j false r v admitted s e h = Frame-HasResult k r v s _ (pass-Frame j k e admitted s) h
enters-kept k j true r v admitted s e h =
    subst (λ i. HasResult k r v (enter admitted i s)) (sym (same_key-eq j k e))
      (enter-kept k admitted r v s h)

-- An operation that nothing runs and that has its result.
abbrev IsSettled : OpKey → OpRow → String → System → Type 0
IsSettled k r v s = (runs k s ≡ 0) × HasResult k r v s

settled :
    (k : OpKey) (r : OpRow) (v : String) (s t : System) (step : Step s t)
    → drop_of k s t step ≡ 0
    → IsSettled k r v s
    → HasResult k r v t
    → IsSettled k r v t
settled k r v s t step undropped h kept =
    (idle k r v t (Step-IsExclusive k s t step undropped (inl h.0)) kept, kept)

Step-IsSettled :
    (k : OpKey) (r : OpRow) (v : String) (s t : System)
    → Step s t
    → IsSettled k r v s
    → IsSettled k r v t
unfolding die restart overdue drop_stale
Step-IsSettled k r v _ _ (enters admitted j s) h =
    settled k r v s _ (enters admitted j s) refl h
      (enters-kept k j (same_key j k) r v admitted s refl h.1)
Step-IsSettled k r v _ _ (leaves admitted j answer token s l) h =
    settled k r v s _ (leaves admitted j answer token s l) refl h
      (leave-kept k j (same_key j k) r v admitted answer token s refl l (inl h.0) h.1)
Step-IsSettled k r v _ _ (dies owns j s l) h = settled k r v s _ (dies owns j s l) refl h h.1
Step-IsSettled k r v _ _ (drops j s) h = h
Step-IsSettled k r v _ _ (restarts s) h = settled k r v s _ (restarts s) refl h h.1
Step-IsSettled k r v _ _ (puts j w s) h =
    settled k r v s _ (puts j w s) refl h (put_in-kept k j (same_key j k) r v w s refl h.1)

pub Reach-IsSettled :
    (k : OpKey) (r : OpRow) (v : String) (s t : System)
    → Reach s t
    → IsSettled k r v s
    → IsSettled k r v t
Reach-IsSettled k r v _ _ (done s) h = h
Reach-IsSettled k r v _ _ (later s t u step rest) h =
    Reach-IsSettled k r v t u rest (Step-IsSettled k r v s t step h)
