-- ===== src/Graph/Lease/Fencing.antt =====
-- What an acquired lease admits and refuses at the fence, and how tokens and incarnations move.
use recertia.Prelude.{
  ap, ◌∙◌, sym, subst, max, ok-injective, >>=-eq-ok, ℕ, ◌+◌, ◌<◌, ◌≡◌, ◌⊎◌, refl, inl, inr, true,
  false, ◌&&◌, Option, none, some, String, str_eq, eq_iff, find, ok, raised, arith, Option-cases,
  if◌then◌else◌, opt_eq, ◌==◌,
}
use recertia.Prelude.Rows.{find-update_where_self, find-append_none}
use recertia.Persistence.Fence.{
  LeaseRow, LeaseTable, LeaseStatus, held, released, MissingRow, is_row, stored_status,
  require_lease_token, lease_lost,
}
use recertia.Persistence.Fence.Verdict.{require_lease_token-stored}
use recertia.Graph.Lease.{
  LeaseKey, LockFile, Held, held_row, held_at, next_incarnation, same_generation, expired, upsert,
  record_acquire, acquire,
}

abbrev pub row_of : LeaseKey → LeaseTable → Option LeaseRow
row_of key rows = find (is_row key.tenant_id key.run_id) rows

is_row_self : (t r : String) → (str_eq t t && str_eq r r) ≡ true
is_row_self t r = ground (arith, eq_iff t t, eq_iff r r)

row_of-upsert :
    (key : LeaseKey) (file : LockFile) (token inc : ℕ) (rows : LeaseTable) (old : Option LeaseRow)
    → row_of key rows ≡ old
    → row_of key (upsert key (held_row key file token inc) old rows)
      ≡ some (held_row key file token inc)
unfolding upsert held_row
row_of-upsert key file token inc rows none e =
    find-append_none (is_row key.tenant_id key.run_id) rows _ e
    ∙ rw (is_row_self key.tenant_id key.run_id)
row_of-upsert key file token inc rows (some row) e =
    find-update_where_self (is_row key.tenant_id key.run_id) _
      (λ x _. is_row_self key.tenant_id key.run_id) rows
    ∙ rw e

-- The row that an `acquire` leaves, and how its token compares with the row that it met.
pub record Acquired (key : LeaseKey) (rows : LeaseTable) (h : Held) : Type 0 where
  pub row : LeaseRow
  pub stored : row_of key h.rows ≡ some row
  pub same_token : row.fencing_token ≡ h.token
  pub is_held : row.status ≡ some held
  pub grows : (old : LeaseRow) → row_of key rows ≡ some old → old.fencing_token < h.token
  pub shape : h.rows ≡ upsert key row (row_of key rows) rows

held_at-Acquired :
    (key : LeaseKey) (file : LockFile) (token inc : ℕ) (rows : LeaseTable) (old : Option LeaseRow)
    → row_of key rows ≡ old
    → ((o : LeaseRow) → old ≡ some o → o.fencing_token < token)
    → Acquired key rows (held_at key file token rows old inc)
unfolding held_row
held_at-Acquired key file token inc rows old e grows = record {
  row = held_row key file token inc;
  stored = row_of-upsert key file token inc rows old e;
  same_token = refl;
  is_held = refl;
  grows = λ o eo. grows o (sym e ∙ eo);
  shape = ap (λ x. upsert key (held_row key file token inc) x rows) (sym e);
}

record_acquire-Acquired :
    (key : LeaseKey) (file : LockFile) (token : ℕ) (rows : LeaseTable) (h : Held)
    → record_acquire key file token rows ≡ ok h
    → Acquired key rows h
unfolding record_acquire
record_acquire-Acquired key file token rows h e = elim (Option-cases (row_of key rows)) [
  | inl absent ↦
      subst (Acquired key rows) (ok-injective (rw (absent, record_acquire) at e))
        (held_at-Acquired key file token 1 rows none absent (λ o p. cc))
  | inr (row, found) ↦
      let m = max token (row.fencing_token + 1) in
      let inv =
        >>=-eq-ok (next_incarnation key file row (stored_status row)) _
          (rw (found, record_acquire) at e) in
      subst (Acquired key rows) (ok-injective inv.2) (
        held_at-Acquired key file m inv.0 rows (some row) found
          (λ o p. let q : row ≡ o = cc in rw (← q) (omega arith)))
]

pub acquire-record_acquire :
    (key : LeaseKey) (file : LockFile) (rows : LeaseTable) (h : Held)
    → acquire key file rows ≡ ok h
    → record_acquire key file (file.prior_token + 1) rows ≡ ok h
unfolding acquire
acquire-record_acquire key file rows h e = ground arith

pub acquire-Acquired :
    (key : LeaseKey) (file : LockFile) (rows : LeaseTable) (h : Held)
    → acquire key file rows ≡ ok h
    → Acquired key rows h
acquire-Acquired key file rows h e =
    record_acquire-Acquired key file (file.prior_token + 1) rows h
      (acquire-record_acquire key file rows h e)

held_status : (row : LeaseRow) → row.status ≡ some held → stored_status row ≡ held
unfolding stored_status
held_status row e = rw e

module _ (key : LeaseKey) (file : LockFile) (rows : LeaseTable) (h : Held) where
  -- An acquired token passes the fence, and every other token, or none, is refused.
  pub acquire-fences :
      acquire key file rows ≡ ok h
      → (token : Option ℕ) (missing : MissingRow)
      → require_lease_token (some h.rows) key.tenant_id key.run_id token missing
        ≡ (if opt_eq ◌==◌ token (some h.token) then ok tt else raised lease_lost)
  acquire-fences e token missing =
      let a = acquire-Acquired key file rows h e in
      require_lease_token-stored h.rows key.tenant_id key.run_id a.row token missing a.stored
      ∙ rw (held_status a.row a.is_held, a.same_token)

-- What `acquire` may do to a row that it meets.
abbrev pub Takes : LeaseKey → LockFile → LeaseRow → LeaseStatus → Held → Type 0
Takes key file row released h = h.incarnation ≡ row.incarnation
Takes key file row held h =
    ((same_generation file.path_existed file.prior_gen row.lock_gen ≡ true)
      × (h.incarnation ≡ row.incarnation))
    ⊎ ((same_generation file.path_existed file.prior_gen row.lock_gen ≡ false)
        × (expired key.ttl_s row.heartbeat_at row.heartbeat_mono file.now_wall file.now_mono ≡ true)
        × (h.incarnation ≡ row.incarnation + 1))

next_incarnation-Takes :
    (key : LeaseKey) (file : LockFile) (row : LeaseRow) (status : LeaseStatus) (h : Held)
    → next_incarnation key file row status ≡ ok h.incarnation
    → Takes key file row status h
unfolding next_incarnation
next_incarnation-Takes key file row held h e = ground arith
next_incarnation-Takes key file row released h e = ground arith

-- An `acquire` that meets a row of the run keeps the incarnation if the row is released or if the
-- lock file is the one that the dead holder left; it takes a held row over from another lock file
-- only after its heartbeat expired, and then the incarnation grows by one.
pub acquire-Takes :
    (key : LeaseKey) (file : LockFile) (rows : LeaseTable) (h : Held) (row : LeaseRow)
    → row_of key rows ≡ some row
    → acquire key file rows ≡ ok h
    → Takes key file row (stored_status row) h
unfolding record_acquire
acquire-Takes key file rows h row found e =
    let made = acquire-record_acquire key file rows h e in
    let inv =
      >>=-eq-ok (next_incarnation key file row (stored_status row)) _
        (rw (found, record_acquire) at made) in
    next_incarnation-Takes key file row (stored_status row) h
      (inv.1 ∙ ap (λ (x : Held). ok x.incarnation) (ok-injective inv.2))

abbrev pub TakesStored : LeaseKey → LockFile → Option LeaseRow → Held → Type 0
TakesStored key file none h = Unit {0}
TakesStored key file (some row) h = Takes key file row (stored_status row) h

-- After an acquire, its token passes the fence, and every other token, or none, is refused. An acquire
-- that met a row of the run kept the incarnation if the row was released or if the lock file was the
-- one that the dead holder left; it took a held row over from another lock file only after its heartbeat
-- expired, and then the incarnation grew by one.
pub acquire-TakesStored :
    (key : LeaseKey) (file : LockFile) (rows : LeaseTable) (h : Held) (token : Option ℕ)
    (missing : MissingRow)
    → acquire key file rows ≡ ok h
    → (require_lease_token (some h.rows) key.tenant_id key.run_id token missing
        ≡ (if opt_eq ◌==◌ token (some h.token) then ok tt else raised lease_lost))
      × TakesStored key file (row_of key rows) h
acquire-TakesStored key file rows h token missing e =
    (acquire-fences key file rows h e token missing, met (row_of key rows) refl)
  where
    met : (o : Option LeaseRow) → row_of key rows ≡ o → TakesStored key file o h
    met none found = tt
    met (some row) found = acquire-Takes key file rows h row found e
