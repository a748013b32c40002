-- ===== src/Persistence/Fence.antt =====
-- persistence/fence.py: the fencing compare against the table `run_leases`. A database that is
-- missing, or that has no such table, is `none`. A NULL status, and every status of a table that has
-- no status column, reads as held.
pub mod Verdict
use recertia.Prelude.{
  ℕ, ◌==◌, String, Bool, true, false, not, ◌&&◌, Option, none, some, List, str_eq, find, is_none,
  Outcome, ok, raised, raise_if, if◌then◌else◌,
}

pub data LeaseStatus : Type 0 where
  held released : LeaseStatus

pub record LeaseRow : Type 0 where
  pub tenant_id : String
  pub run_id : String
  pub owner_id : String
  pub fencing_token : ℕ
  pub incarnation : ℕ
  pub heartbeat_at : Option ℕ
  pub heartbeat_mono : Option ℕ
  pub lock_gen : Option String
  pub status : Option LeaseStatus

abbrev pub LeaseTable : Type 0
LeaseTable = List LeaseRow

pub data LeaseLost : Type 0 where
  lease_lost : LeaseLost

-- The argument `missing_row`.
pub data MissingRow : Type 0 where
  reject allow : MissingRow

abbrev pub is_row : String → String → LeaseRow → Bool
is_row tenant run row = str_eq row.tenant_id tenant && str_eq row.run_id run

unfoldable pub stored_status : LeaseRow → LeaseStatus
stored_status row = elim row.status [ none ↦ held | some status ↦ status ]

unfoldable pub on_missing : MissingRow → Outcome LeaseLost (Unit {0})
on_missing allow = ok tt
on_missing reject = raised lease_lost

unfoldable pub token_matches : Option ℕ → ℕ → Bool
token_matches none stored = false
token_matches (some token) stored = token == stored

abbrev pub check_status : LeaseStatus → Option ℕ → ℕ → Outcome LeaseLost (Unit {0})
check_status held token stored = if token_matches token stored then ok tt else raised lease_lost
check_status released token stored = raised lease_lost

-- The nested `_check`, on an open connection.
unfoldable pub check :
    Option LeaseTable → String → String → Option ℕ → MissingRow → Outcome LeaseLost (Unit {0})
unfolding on_missing token_matches stored_status
check none tenant run token missing = on_missing missing
check (some rows) tenant run token missing = elim (find (is_row tenant run) rows) [
  | none ↦ on_missing missing
  | some row ↦ check_status (stored_status row) token row.fencing_token
]

abbrev pub rejects : MissingRow → Bool
rejects allow = false
rejects reject = true

unfoldable pub require_lease_token :
    Option LeaseTable → String → String → Option ℕ → MissingRow → Outcome LeaseLost (Unit {0})
require_lease_token db tenant run token missing =
    raise_if (is_none token && rejects missing) lease_lost (check db tenant run token missing)
