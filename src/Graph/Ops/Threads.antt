-- ===== src/Graph/Ops/Threads.antt =====
-- `run_once` by many threads of a process, with its crashes and with waiters past their deadline, as steps.
pub mod Frame
pub mod Exclusive
pub mod Bounded
pub mod Settled
use recertia.Prelude.{
  ℕ, zero, suc, ◌+◌, ◌≤◌, String, Bool, true, false, ◌&&◌, Option, none, some, List, [], ◌∷◌, ◌≡◌,
  ◌⊎◌, inl, inr, refl, sym, ap, subst, find, count, any, is_some, Outcome, ok, raised,
  if◌then◌else◌, arith, Bool-cases, eq_iff, str_eq_refl,
}
use recertia.Prelude.Rows.{
  any-remove_where_other, find-remove_where_other, find-append_skip, update_where, find-append_none,
  find-update_where_other, find-update_where-some, find-true,
}
use recertia.Graph.Ops.{
  OpError, OpKey, Stored, sentinel, result, OpRow, Operations, same_key, has_key, is_pending, get,
  put, insert, pending_row, Pass, claims, waits, returns, fence_refused, is_live, install_claim,
  release_claim, drop_stale, claim_pending, claim_stored, claim_row, pass, Answer, answered, raises,
  with_result, give_up, keep_result, finish_op,
}

-- The threads that run an operation's function, by its key, beside the ledger.
pub record System : Type 0 where
  pub ops : Operations
  pub running : List OpKey

abbrev pub runs : OpKey → System → ℕ
runs k s = count (λ c. same_key c k) s.running

pub remove_one : OpKey → List OpKey → List OpKey
remove_one k [] = []
remove_one k (c ∷ cs) = let rest = remove_one k cs in if same_key c k then cs else c ∷ rest

-- A thread that claims the operation begins to run it.
pub begun : OpKey → Pass → List OpKey → List OpKey
begun k claims running = k ∷ running
begun k waits running = running
begun k fence_refused running = running
begun k (returns v) running = running

-- The system after a pass of a thread.
abbrev pub entered : OpKey → System → Pass × Operations → System
entered k s (p, ops) = record { ops = ops; running = begun k p s.running }

unfoldable pub enter : Bool → OpKey → System → System
unfolding begun
enter admitted k s = entered k s (pass admitted k s.ops)

unfoldable pub leave : Bool → OpKey → Answer → Option ℕ → System → System
unfolding remove_one
leave admitted k answer token s = record {
  ops = finish_op admitted k answer token s.ops;
  running = remove_one k s.running;
}

-- A thread that dies takes its claim with it, if the claim is still its own: `_live_wait_event` does
-- not count a dead owner.
unfoldable pub die : Bool → OpKey → System → System
unfolding release_claim remove_one
die owns k s = record {
  ops = record s.ops {
    live_claims = if owns then release_claim k s.ops.live_claims else s.ops.live_claims;
  };
  running = remove_one k s.running;
}

unfoldable pub overdue : OpKey → System → System
unfolding drop_stale
overdue k s = record s { ops = drop_stale k s.ops }

unfoldable pub restart : System → System
restart s = record { ops = record s.ops { live_claims = [] }; running = [] }

abbrev pub stored_or_same : Outcome OpError Operations → Operations → Operations
stored_or_same (ok ops) old = ops
stored_or_same (raised e) old = old

unfoldable pub put_in : OpKey → Stored → System → System
put_in k v s = record s { ops = stored_or_same (put k v s.ops) s.ops }

-- What can happen.
pub data Step : System → System → Type 0 where
  enters : (admitted : Bool) (k : OpKey) (s : System) → Step s (enter admitted k s)
  leaves :
      (admitted : Bool) (k : OpKey) (answer : Answer) (token : Option ℕ) (s : System)
      → 1 ≤ runs k s
      → Step s (leave admitted k answer token s)
  dies : (owns : Bool) (k : OpKey) (s : System) → 1 ≤ runs k s → Step s (die owns k s)
  drops : (k : OpKey) (s : System) → Step s (overdue k s)
  restarts : (s : System) → Step s (restart s)
  puts : (k : OpKey) (v : Stored) (s : System) → Step s (put_in k v s)

pub data Reach : System → System → Type 0 where
  done : (s : System) → Reach s s
  later : (s t u : System) → Step s t → Reach t u → Reach s u

-- How often waiters whose deadline had passed dropped the claim on an operation.
abbrev pub drop_of : OpKey → (s t : System) → Step s t → ℕ
drop_of k _ _ (drops j s) = if same_key j k then 1 else 0
drop_of k _ _ (enters admitted j s) = 0
drop_of k _ _ (leaves admitted j answer token s h) = 0
drop_of k _ _ (dies owns j s h) = 0
drop_of k _ _ (restarts s) = 0
drop_of k _ _ (puts j v s) = 0

abbrev pub drop_count : OpKey → (s t : System) → Reach s t → ℕ
drop_count k _ _ (done s) = 0
drop_count k _ _ (later s t u step rest) = drop_of k s t step + drop_count k t u rest
