-- ===== src/Persistence/Fence/Verdict.antt =====
-- What the fence answers, by the row that is stored for the run.
use recertia.Prelude.{
  sym, refl, inl, inr, ℕ, ◌==◌, String, ◌≡◌, ◌↔◌, Option, none, some, find, Outcome, ok, raised,
  arith, Option-cases, opt_eq, if◌then◌else◌,
}
use recertia.Persistence.Fence.{
  LeaseRow, LeaseTable, LeaseStatus, held, released, LeaseLost, lease_lost, MissingRow, reject,
  allow, is_row, stored_status, check_status, token_matches, on_missing, check, require_lease_token,
}

-- The answer where a row is stored: the caller's token against the row's, and never once released.
abbrev pub verdict : LeaseStatus → Option ℕ → ℕ → Outcome LeaseLost (Unit {0})
verdict held token stored = if opt_eq ◌==◌ token (some stored) then ok tt else raised lease_lost
verdict released token stored = raised lease_lost

verdict-check :
    (status : LeaseStatus) (token : Option ℕ) (stored : ℕ)
    → check_status status token stored ≡ verdict status token stored
unfolding token_matches
verdict-check held none stored = ground arith
verdict-check held (some token) stored = ground arith
verdict-check released token stored = ground arith

verdict-none : (status : LeaseStatus) (stored : ℕ) → verdict status none stored ≡ raised lease_lost
verdict-none held stored = ground arith
verdict-none released stored = ground arith

module _ (rows : LeaseTable) (tenant run : String) where
  check-stored :
      (row : LeaseRow) (token : Option ℕ) (missing : MissingRow)
      → find (is_row tenant run) rows ≡ some row
      → check (some rows) tenant run token missing
        ≡ verdict (stored_status row) token row.fencing_token
  unfolding check
  check-stored row token missing found =
      rw (found, check) (verdict-check (stored_status row) token row.fencing_token)

  check-absent :
      (token : Option ℕ) (missing : MissingRow)
      → find (is_row tenant run) rows ≡ none
      → check (some rows) tenant run token missing ≡ on_missing missing
  unfolding check
  check-absent token missing absent = rw (absent, check)

  pub require_lease_token-stored :
      (row : LeaseRow) (token : Option ℕ) (missing : MissingRow)
      → find (is_row tenant run) rows ≡ some row
      → require_lease_token (some rows) tenant run token missing
        ≡ verdict (stored_status row) token row.fencing_token
  unfolding require_lease_token
  require_lease_token-stored row (some token) missing found =
      check-stored row (some token) missing found
  require_lease_token-stored row none allow found = check-stored row none allow found
  require_lease_token-stored row none reject found =
      sym (verdict-none (stored_status row) row.fencing_token)

  pub require_lease_token-absent :
      (token : Option ℕ) (missing : MissingRow)
      → find (is_row tenant run) rows ≡ none
      → require_lease_token (some rows) tenant run token missing ≡ on_missing missing
  unfolding require_lease_token on_missing
  require_lease_token-absent (some token) missing absent = check-absent (some token) missing absent
  require_lease_token-absent none allow absent = check-absent none allow absent
  require_lease_token-absent none reject absent = refl

-- Who may write: with no row, the callers that a missing row allows; with a row, the holder of its
-- token while it is held.
abbrev pub MayWrite : Option LeaseRow → Option ℕ → MissingRow → Type 0
MayWrite none token missing = missing ≡ allow
MayWrite (some row) token missing = (stored_status row ≡ held) × (token ≡ some row.fencing_token)

verdict-ok_iff :
    (status : LeaseStatus) (token : Option ℕ) (stored : ℕ)
    → (verdict status token stored ≡ ok tt) ↔ ((status ≡ held) × (token ≡ some stored))
verdict-ok_iff held none stored = (λ h. ground arith, λ h. ground arith)
verdict-ok_iff held (some token) stored = (λ h. ground arith, λ h. ground arith)
verdict-ok_iff released token stored = (λ h. ground arith, λ h. ground arith)

on_missing-ok_iff : (missing : MissingRow) → (on_missing missing ≡ ok tt) ↔ (missing ≡ allow)
unfolding on_missing
on_missing-ok_iff allow = (λ h. refl, λ h. refl)
on_missing-ok_iff reject = (λ h. ground arith, λ h. ground arith)

-- On a database with the lease table the fence lets a write pass exactly if its caller may write:
-- the run has no row and the caller allows that, or the row is held and has the caller's token.
pub require_lease_token-admits_iff :
    (rows : LeaseTable) (tenant run : String) (token : Option ℕ) (missing : MissingRow)
    → (require_lease_token (some rows) tenant run token missing ≡ ok tt)
      ↔ MayWrite (find (is_row tenant run) rows) token missing
require_lease_token-admits_iff rows tenant run token missing =
    elim (Option-cases (find (is_row tenant run) rows)) [
      | inl absent ↦
          rw (require_lease_token-absent rows tenant run token missing absent, absent)
            (on_missing-ok_iff missing)
      | inr (row, found) ↦
          rw (require_lease_token-stored rows tenant run row token missing found, found)
            (verdict-ok_iff (stored_status row) token row.fencing_token)
    ]
