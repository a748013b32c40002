-- ===== src/Persistence/Idempotency.antt =====
-- persistence/idempotency.py: the rows of idempotency_keys. Each operation is one transaction; the
-- clock's whole seconds are an argument. The bounded sweep meets the expired rows in their order of
-- insertion, which SQL leaves open.
pub mod Replay
pub mod Fencing
pub mod Progress
mod Tests
use recertia.Prelude.{
  ℕ, zero, suc, ◌+◌, ◌==◌, String, Bool, true, false, not, ◌&&◌, Option, none, some, List, [], ◌∷◌,
  ◌++◌, str_eq, ltb, leb, find, count, if◌then◌else◌,
}
use recertia.Prelude.Rows.{update_where, remove_where}

abbrev pub lease_seconds : ℕ
lease_seconds = 30

abbrev pub sweep_limit : ℕ
sweep_limit = 500

pub record KeyScope : Type 0 where
  pub tenant_id : String
  pub program_id : String
  pub step_id : String
  pub key : String

pub data KeyState : Type 0 where
  pending complete : KeyState

-- A row of `idempotency_keys`.
pub record KeyRow : Type 0 where
  pub scope : KeyScope
  pub request_hash : String
  pub state : KeyState
  pub run_id : Option String
  pub created_at : ℕ
  pub expires_at : ℕ

pub data Reservation : Type 0 where
  reserved : ℕ → Reservation
  replay : Option String → Reservation
  taken_over : ℕ → Reservation
  in_progress mismatch : Reservation

pub data Completion : Type 0 where
  completed superseded lost : Completion

abbrev pub same_scope : KeyScope → KeyScope → Bool
same_scope a b =
    str_eq a.tenant_id b.tenant_id
    && (str_eq a.program_id b.program_id && (str_eq a.step_id b.step_id && str_eq a.key b.key))

abbrev pub in_scope : KeyScope → KeyRow → Bool
in_scope scope r = same_scope r.scope scope

abbrev pub is_pending : KeyState → Bool
is_pending pending = true
is_pending complete = false

abbrev pub is_expired : ℕ → KeyRow → Bool
is_expired now r = leb r.expires_at now

-- At most a number of expired rows are deleted.
pub sweep : ℕ → ℕ → List KeyRow → List KeyRow
sweep zero now rows = rows
sweep (suc left) now [] = []
sweep (suc left) now (r ∷ rows) =
    let dropped = sweep left now rows in
    let kept = sweep (suc left) now rows in if is_expired now r then dropped else r ∷ kept

-- The rows after the two deletions at the head of `reserve`.
unfoldable pub swept : KeyScope → ℕ → List KeyRow → List KeyRow
unfolding sweep
swept scope now rows =
    remove_where (λ r. in_scope scope r && is_expired now r) (sweep sweep_limit now rows)

abbrev new_row : KeyScope → String → ℕ → ℕ → KeyRow
new_row scope hash now ttl = record {
  scope = scope;
  request_hash = hash;
  state = pending;
  run_id = none;
  created_at = now;
  expires_at = now + ttl;
}

abbrev renewed : ℕ → ℕ → KeyRow → KeyRow
renewed now ttl r = record r { created_at = now; expires_at = now + ttl }

-- The answer on the live row that stands in the way of the insert.
on_row : KeyScope → String → ℕ → ℕ → List KeyRow → KeyRow → Reservation × List KeyRow
on_row scope hash now ttl rows r =
    if not (str_eq r.request_hash hash)
    then (mismatch, rows)
    else if not (is_pending r.state)
    then (replay r.run_id, rows)
    else if ltb now (r.created_at + lease_seconds)
    then (in_progress, rows)
    else (
      taken_over now,
      update_where (λ x. in_scope scope x && is_pending x.state) (renewed now ttl) rows,
    )

after_sweep : KeyScope → String → ℕ → ℕ → List KeyRow → Option KeyRow → Reservation × List KeyRow
unfolding on_row
after_sweep scope hash now ttl rows none = (reserved now, rows ++ new_row scope hash now ttl ∷ [])
after_sweep scope hash now ttl rows (some r) = on_row scope hash now ttl rows r

-- `reserve`, with the time to live of the store's rows.
pub reserve : ℕ → KeyScope → String → ℕ → List KeyRow → Reservation × List KeyRow
unfolding after_sweep
reserve ttl scope hash now rows =
    let live = swept scope now rows in
    after_sweep scope hash now ttl live (find (in_scope scope) live)

-- The row that a request holds by its lease.
abbrev pub holds : KeyScope → String → ℕ → KeyRow → Bool
holds scope hash lease r =
    in_scope scope r
    && (is_pending r.state && (str_eq r.request_hash hash && (r.created_at == lease)))

abbrev bound : String → KeyRow → KeyRow
bound run r = record r { state = complete; run_id = some run }

abbrev same_run : Option String → String → Bool
same_run none run = false
same_run (some r) run = str_eq r run

-- The answer of `complete` where its update touched no row.
not_held : String → String → Option KeyRow → Completion
not_held hash run none = lost
not_held hash run (some r) =
    if not (str_eq r.request_hash hash)
    then lost
    else if is_pending r.state
    then superseded
    else if same_run r.run_id run
    then completed
    else lost

pub complete_key : KeyScope → String → String → ℕ → List KeyRow → Completion × List KeyRow
unfolding not_held
complete_key scope hash run lease rows =
    let updated = update_where (holds scope hash lease) (bound run) rows in
    if count (holds scope hash lease) rows == 1
    then (completed, updated)
    else (not_held hash run (find (in_scope scope) updated), updated)

pub release_key : KeyScope → String → ℕ → List KeyRow → List KeyRow
release_key scope hash lease rows = remove_where (holds scope hash lease) rows

-- One transaction on the table, by its time and what it asks for.
pub data Call : Type 0 where
  reserves : KeyScope → String → Call
  completes : KeyScope → String → String → ℕ → Call
  releases : KeyScope → String → ℕ → Call

unfoldable pub after_call : ℕ → ℕ → Call → List KeyRow → List KeyRow
after_call ttl now (reserves scope hash) rows = (reserve ttl scope hash now rows).1
after_call ttl now (completes scope hash run lease) rows =
    (complete_key scope hash run lease rows).1
after_call ttl now (releases scope hash lease) rows = release_key scope hash lease rows

-- Any number of transactions, the last one first.
pub after_calls : ℕ → List (ℕ × Call) → List KeyRow → List KeyRow
unfolding after_call
after_calls ttl [] rows = rows
after_calls ttl ((now, c) ∷ calls) rows = after_call ttl now c (after_calls ttl calls rows)
