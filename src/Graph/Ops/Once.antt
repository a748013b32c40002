-- ===== src/Graph/Ops/Once.antt =====
-- The results on `run_once` by many threads of a process.
use recertia.Prelude.{
  ℕ, zero, suc, ◌+◌, ◌≤◌, String, Bool, true, false, Option, some, ◌≡◌, ◌⊎◌, inl, inr, refl, ap,
  if◌then◌else◌, arith,
}
use recertia.Prelude.Rows.{find-update_where-some, find-true}
use recertia.Graph.Ops.{
  OpKey, Stored, sentinel, result, OpRow, has_key, is_pending, get, waits, returns, fence_refused,
  claim_pending, claim_stored, claim_row, pass, answered, with_result, keep_result, finish_op,
}
use recertia.Graph.Ops.Threads.{Reach, System, drop_count, leave, leaves, runs}
use recertia.Graph.Ops.Threads.Exclusive.{IsExclusive, IsHeld, Reach-IsExclusive, Step-IsExclusive}
use recertia.Graph.Ops.Threads.Bounded.{Reach-runs}
use recertia.Graph.Ops.Threads.Settled.{HasResult, Reach-IsSettled, idle, pass-returns}

held-waits :
    (k : OpKey) (b : Bool) (s : System)
    → IsHeld k s
    → (pass b k s.ops).0 ≡ (if b then waits else fence_refused)
unfolding pass claim_row claim_stored claim_pending
held-waits k false s h = refl
held-waits k true s h = rw h.found (stored h.row.stored refl)
  where
    stored : (v : Stored) → h.row.stored ≡ v → (claim_stored k s.ops v).0 ≡ waits
    stored sentinel e = rw h.live refl
    stored (result v) e = ground (arith, h.waiting, ap is_pending e)

-- From a state in which no thread runs the operation, through passes, failures, deaths of threads,
-- restarts of the process and claims that a waiter drops after its deadline, in any order: at most one
-- thread more runs the operation than claims on it were dropped. If none was dropped then no thread
-- runs it, or one does, and every pass of another thread waits for it, unless the fence refuses it.
pub run_once-alone :
    (k : OpKey) (s t : System) (admitted : Bool)
    → runs k s ≡ 0
    → (reach : Reach s t)
    → (runs k t ≤ drop_count k s t reach + 1)
      × ((1 ≤ drop_count k s t reach)
          ⊎ ((runs k t ≡ 0)
              ⊎ ((runs k t ≡ 1)
                  × ((pass admitted k t.ops).0 ≡ (if admitted then waits else fence_refused)))))
run_once-alone k s t admitted h reach = (
  let few = Reach-runs k 0 s t reach (omega arith) in omega arith,
  split (drop_count k s t reach) refl,
)
  where
    either :
        IsExclusive k t
        → (runs k t ≡ 0)
          ⊎ ((runs k t ≡ 1)
              × ((pass admitted k t.ops).0 ≡ (if admitted then waits else fence_refused)))
    either (inl none_left) = inl none_left
    either (inr held) = inr (held.one, held-waits k admitted t held)

    split :
        (n : ℕ)
        → drop_count k s t reach ≡ n
        → (1 ≤ n)
          ⊎ ((runs k t ≡ 0)
              ⊎ ((runs k t ≡ 1)
                  × ((pass admitted k t.ops).0 ≡ (if admitted then waits else fence_refused))))
    split zero e = inr (either (Reach-IsExclusive k s t reach e (inl h)))
    split (suc n) e = inl (omega arith)

kept_result :
    (k : OpKey) (v : String) (token : Option ℕ) (s : System) (h : IsHeld k s)
    → HasResult k (with_result v token h.row) v (leave true k (answered (result v)) token s)
unfolding leave finish_op keep_result
kept_result k v token s h = (
  ground (
    arith,
    h.found,
    find-true (has_key k) s.ops.rows h.row h.found,
    find-update_where-some (has_key k) (has_key k) (with_result v token) (λ x _. refl) s.ops.rows
        h.row h.found,
  ),
  refl,
)

get-result :
    (k : OpKey) (r : OpRow) (v : String) (s : System) → HasResult k r v s → get k s.ops ≡ some v
unfolding get
get-result k r v s h = rw (h.0, h.1) refl

-- If a thread that runs an operation stores its result under a token that the fence admits, and no
-- waiter dropped a claim on the operation after its deadline until then, since a state in which no
-- thread ran it, then in every later state, whatever is dropped by then, no thread runs the operation,
-- every pass that the fence admits returns that result and changes nothing, and the ledger reads it.
pub run_once-returns :
    (k : OpKey) (v : String) (token : Option ℕ) (s t u : System)
    → runs k s ≡ 0
    → (before : Reach s t) → drop_count k s t before ≡ 0
    → 1 ≤ runs k t
    → Reach (leave true k (answered (result v)) token t) u
    → (runs k u ≡ 0) × ((pass true k u.ops ≡ (returns v, u.ops)) × (get k u.ops ≡ some v))
run_once-returns k v token s t u h before undropped some_run after =
    from (Reach-IsExclusive k s t before undropped (inl h))
  where
    from :
        IsExclusive k t
        → (runs k u ≡ 0) × ((pass true k u.ops ≡ (returns v, u.ops)) × (get k u.ops ≡ some v))
    from (inl none_left) = absurd (omega arith)
    from (inr held) =
        let r = with_result v token held.row in
        let kept = kept_result k v token t held in
        let left =
          Step-IsExclusive k t _ (leaves true k (answered (result v)) token t some_run) refl
            (inr held) in
        let settled_after = Reach-IsSettled k r v _ u after (idle k r v _ left kept, kept) in
        (
          settled_after.0,
          (pass-returns k r v u settled_after.1, get-result k r v u settled_after.1),
        )
