-- ===== src/Graph/Lease.antt =====
-- graph/lease.py: the lease of one run. What the lock file and the operating system answer enters as
-- an argument: whether the thread lock and the flock were free, what the lock file held, the fresh
-- generation, and the two clocks. Times are whole numbers of one unit.
pub mod Fencing
pub mod History
mod Tests
use recertia.Prelude.{
  ℕ, suc, ◌+◌, max, ◌==◌, String, Bool, true, false, not, ◌&&◌, ◌||◌, Option, none, some, List, [],
  ◌∷◌, ◌++◌, str_eq, find, is_none, ltb, leb, Outcome, ok, raised, ◌>>=◌, raise_if, if◌then◌else◌,
}
use recertia.Prelude.Rows.{update_where}
use recertia.Persistence.Fence.{
  LeaseStatus, held, released, LeaseRow, LeaseTable, is_row, stored_status,
}

pub data RunBusy : Type 0 where
  run_busy : RunBusy

-- `RunLease.__init__`, for a lease that is kept in a database.
pub record LeaseKey : Type 0 where
  pub tenant_id : String
  pub run_id : String
  pub owner_id : String
  pub ttl_s : ℕ

-- What `acquire` meets.
pub record LockFile : Type 0 where
  pub thread_free : Bool
  pub flock_free : Bool
  pub path_existed : Bool
  pub prior_token : ℕ
  pub prior_gen : Option String
  pub new_gen : String
  pub now_wall : ℕ
  pub now_mono : ℕ

abbrev not_empty : String → Bool
not_empty s = not (str_eq s "")

-- `path_existed and prior_gen and stored_gen and prior_gen == stored_gen`
pub same_generation : Bool → Option String → Option String → Bool
same_generation existed (some prior) (some stored) =
    existed && (not_empty prior && (not_empty stored && str_eq prior stored))
same_generation existed _ _ = false

mono_expired : ℕ → Option ℕ → ℕ → Bool
mono_expired ttl none now_mono = false
mono_expired ttl (some stored) now_mono = ltb now_mono stored || leb (stored + ttl) now_mono

-- An unreadable wall-clock heartbeat counts as expired.
unfoldable pub expired : ℕ → Option ℕ → Option ℕ → ℕ → ℕ → Bool
unfolding mono_expired
expired ttl none mono now_wall now_mono = true
expired ttl (some beat) mono now_wall now_mono =
    leb (beat + ttl) now_wall || mono_expired ttl mono now_mono

-- The incarnation of the new holder, or a refusal, from the row that is stored.
unfoldable pub next_incarnation : LeaseKey → LockFile → LeaseRow → LeaseStatus → Outcome RunBusy ℕ
unfolding same_generation expired
next_incarnation key file row released = ok row.incarnation
next_incarnation key file row held =
    if same_generation file.path_existed file.prior_gen row.lock_gen
    then ok row.incarnation
    else if expired key.ttl_s row.heartbeat_at row.heartbeat_mono file.now_wall file.now_mono
    then ok (row.incarnation + 1)
    else raised run_busy

unfoldable pub held_row : LeaseKey → LockFile → ℕ → ℕ → LeaseRow
held_row key file token incarnation = record {
  tenant_id = key.tenant_id;
  run_id = key.run_id;
  owner_id = key.owner_id;
  fencing_token = token;
  incarnation = incarnation;
  heartbeat_at = some file.now_wall;
  heartbeat_mono = some file.now_mono;
  lock_gen = some file.new_gen;
  status = some held;
}

-- INSERT ... ON CONFLICT(tenant_id, run_id) DO UPDATE.
unfoldable pub upsert : LeaseKey → LeaseRow → Option LeaseRow → LeaseTable → LeaseTable
upsert key row none rows = rows ++ row ∷ []
upsert key row (some _) rows = update_where (is_row key.tenant_id key.run_id) (λ _. row) rows

-- What the caller holds after an `acquire`.
pub record Held : Type 0 where
  pub token : ℕ
  pub incarnation : ℕ
  pub rows : LeaseTable

-- The row that is written, and what the caller then holds.
abbrev held_at : LeaseKey → LockFile → ℕ → LeaseTable → Option LeaseRow → ℕ → Held
held_at key file token rows old incarnation = record {
  token = token;
  incarnation = incarnation;
  rows = upsert key (held_row key file token incarnation) old rows;
}

unfoldable pub record_acquire : LeaseKey → LockFile → ℕ → LeaseTable → Outcome RunBusy Held
record_acquire key file token rows = elim (find (is_row key.tenant_id key.run_id) rows) [
  | none ↦ ok (held_at key file token rows none 1)
  | some row ↦ next_incarnation key file row (stored_status row) >>= λ incarnation.
      ok (held_at key file (max token (row.fencing_token + 1)) rows (some row) incarnation)
]

unfoldable pub acquire : LeaseKey → LockFile → LeaseTable → Outcome RunBusy Held
acquire key file rows =
    raise_if (not file.thread_free) run_busy (
      raise_if (not file.flock_free) run_busy (record_acquire key file (file.prior_token + 1) rows))

-- `_mark_released`
unfoldable pub release : LeaseKey → LeaseTable → LeaseTable
release key rows =
    update_where (is_row key.tenant_id key.run_id) (λ row. record row { status = some released })
      rows

-- `_touch_row`, by the holder of `token`.
unfoldable pub heartbeat : LeaseKey → ℕ → ℕ → ℕ → LeaseTable → LeaseTable
heartbeat key token now_wall now_mono rows =
    update_where (λ row. is_row key.tenant_id key.run_id row && row.fencing_token == token)
      (λ row. record row { heartbeat_at = some now_wall; heartbeat_mono = some now_mono }) rows
