-- ===== src/Graph/Ops.antt =====
-- graph/ops.py: `OperationLedger`. Each transaction is a function whose fence, `_require_fence`, has
-- answered with a Boolean. A live claim is a key whose holder runs in this process; a result is its
-- JSON text.
pub mod Threads
pub mod Once
mod Tests
use recertia.Prelude.{
  ℕ, zero, suc, ◌+◌, ◌==◌, String, Bool, true, false, not, ◌&&◌, Option, none, some, List, [], ◌∷◌,
  ◌++◌, str_eq, find, count, any, is_some, Outcome, ok, raised, if◌then◌else◌,
}
use recertia.Prelude.Rows.{update_where, remove_where}

-- `OpKey`
pub record OpKey : Type 0 where
  pub run_id : String
  pub incarnation : ℕ
  pub attempt_no : ℕ
  pub node : String
  pub op_seq : ℕ

-- What `result_json` holds: the sentinel of a pending operation, or a result.
pub data Stored : Type 0 where
  sentinel : Stored
  result : String → Stored

-- A row of `operations`.
pub record OpRow : Type 0 where
  pub key : OpKey
  pub stored : Stored
  pub fencing_token : Option ℕ

-- The table, and `_live_claims` of the process.
pub record Operations : Type 0 where
  pub rows : List OpRow
  pub live_claims : List OpKey

pub data OpError : Type 0 where
  operation_conflict pending_refused : OpError

abbrev pub same_key : OpKey → OpKey → Bool
same_key a b =
    str_eq a.run_id b.run_id
    && (a.incarnation == b.incarnation
        && (a.attempt_no == b.attempt_no && (str_eq a.node b.node && (a.op_seq == b.op_seq))))

abbrev pub has_key : OpKey → OpRow → Bool
has_key k r = same_key r.key k

-- `_is_pending`
abbrev pub is_pending : Stored → Bool
is_pending sentinel = true
is_pending (result _) = false

abbrev result_of : Option OpRow → Option String
result_of none = none
result_of (some r) = elim r.stored [ sentinel ↦ none | result v ↦ some v ]

-- `get`, with `none` for an operation that is not applied.
unfoldable pub get : OpKey → Operations → Option String
get k ops = result_of (find (has_key k) ops.rows)

abbrev pending_row : OpKey → OpRow
pending_row k = record { key = k; stored = sentinel; fencing_token = none }

insert : OpKey → String → Operations → Bool → Outcome OpError Operations
insert k v ops true = raised operation_conflict
insert k v ops false = ok (record ops {
  rows = ops.rows ++ (record { key = k; stored = result v; fencing_token = none }) ∷ [];
})

-- `put`
unfoldable pub put : OpKey → Stored → Operations → Outcome OpError Operations
unfolding insert
put k sentinel ops = raised pending_refused
put k (result v) ops = insert k v ops (is_some (find (has_key k) ops.rows))

-- How one pass of the loop of `run_once` ends.
pub data Pass : Type 0 where
  fence_refused waits claims : Pass
  returns : String → Pass

abbrev pub is_live : OpKey → Operations → Bool
is_live k ops = any (λ c. same_key c k) ops.live_claims

-- `_install_claim`
pub install_claim : OpKey → List OpKey → List OpKey
install_claim k live = k ∷ remove_where (λ c. same_key c k) live

-- `_release_claim`
release_claim : OpKey → List OpKey → List OpKey
release_claim k live = remove_where (λ c. same_key c k) live

claim_pending : OpKey → Operations → Bool → Pass × Operations
unfolding install_claim
claim_pending k ops true = (waits, ops)
claim_pending k ops false = (
  claims,
  record {
    rows = update_where (has_key k) (λ x. record x { stored = sentinel }) ops.rows;
    live_claims = install_claim k ops.live_claims;
  },
)

claim_stored : OpKey → Operations → Stored → Pass × Operations
unfolding claim_pending
claim_stored k ops (result v) = (returns v, ops)
claim_stored k ops sentinel = claim_pending k ops (is_live k ops)

claim_row : OpKey → Operations → Option OpRow → Pass × Operations
unfolding install_claim claim_stored
claim_row k ops none = (
  claims,
  record { rows = ops.rows ++ pending_row k ∷ []; live_claims = install_claim k ops.live_claims },
)
claim_row k ops (some r) = claim_stored k ops r.stored

-- One pass of the loop, under the lock.
pub pass : Bool → OpKey → Operations → Pass × Operations
unfolding claim_row
pass admitted k ops =
    let claim = claim_row k ops (find (has_key k) ops.rows) in
    if admitted then claim else (fence_refused, ops)

-- What a waiter does whose deadline has passed: it drops the claim, whoever holds it, and the next
-- pass claims the operation.
pub drop_stale : OpKey → Operations → Operations
unfolding release_claim
drop_stale k ops = record ops { live_claims = release_claim k ops.live_claims }

-- What the operation's function did.
pub data Answer : Type 0 where
  answered : Stored → Answer
  raises : Answer

abbrev with_result : String → Option ℕ → OpRow → OpRow
with_result v token r = record r { stored = result v; fencing_token = token }

-- The handler of an exception: the row that is still pending is deleted.
give_up : OpKey → Operations → Operations
unfolding release_claim
give_up k ops = record {
  rows = remove_where (λ r. has_key k r && is_pending r.stored) ops.rows;
  live_claims = release_claim k ops.live_claims;
}

keep_result : Bool → OpKey → String → Option ℕ → Operations → Operations
unfolding give_up release_claim
keep_result true k v token ops = record {
  rows = update_where (has_key k) (with_result v token) ops.rows;
  live_claims = release_claim k ops.live_claims;
}
keep_result false k v token ops = give_up k ops

-- The part of `run_once` after the claim, with the answer of the fence at its end.
pub finish_op : Bool → OpKey → Answer → Option ℕ → Operations → Operations
unfolding keep_result give_up
finish_op admitted k (answered (result v)) token ops = keep_result admitted k v token ops
finish_op admitted k (answered sentinel) token ops = give_up k ops
finish_op admitted k raises token ops = give_up k ops

-- `count_for_node`
pub count_for_node : OpKey → Operations → ℕ
count_for_node k ops =
    count
      (λ r.
        str_eq r.key.run_id k.run_id
        && (r.key.incarnation == k.incarnation
            && (r.key.attempt_no == k.attempt_no
                && (str_eq r.key.node k.node && not (is_pending r.stored)))))
      ops.rows
