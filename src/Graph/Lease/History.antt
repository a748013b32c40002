-- ===== src/Graph/Lease/History.antt =====
-- Leases over time: a token that was superseded or released is never admitted again, whatever
-- acquires, releases and heartbeats follow, of this run or of others.
use recertia.Prelude.{
  &&-true, ℕ, ◌≤◌, ◌<◌, ◌≡◌, refl, inl, inr, ◌∙◌, Bool, true, false, Option, none, some, String,
  str_eq, eq_iff, find, ok, raised, arith, Bool-cases, if◌then◌else◌,
}
use recertia.Prelude.Rows.{
  update_where, find-update_where-some, find-update_where_self, find-true, find-append_some,
}
use recertia.Persistence.Fence.{
  LeaseRow, LeaseTable, released, MissingRow, is_row, stored_status, require_lease_token,
  lease_lost,
}
use recertia.Persistence.Fence.Verdict.{verdict, require_lease_token-stored}
use recertia.Graph.Lease.{LeaseKey, LockFile, Held, upsert, acquire, release, heartbeat}
use recertia.Graph.Lease.Fencing.{row_of, acquire-Acquired}

-- One call on the table of leases, by any process.
pub data LeaseStep : LeaseTable → LeaseTable → Type 0 where
  acquired :
      (key : LeaseKey) (file : LockFile) (rows : LeaseTable) (h : Held)
      → acquire key file rows ≡ ok h
      → LeaseStep rows h.rows
  released_by : (key : LeaseKey) (rows : LeaseTable) → LeaseStep rows (release key rows)
  touched :
      (key : LeaseKey) (token now_wall now_mono : ℕ) (rows : LeaseTable)
      → LeaseStep rows (heartbeat key token now_wall now_mono rows)

pub data LeaseReach (start : LeaseTable) : LeaseTable → Type 0 where
  here : LeaseReach start start
  next : {a b : LeaseTable} → LeaseReach start a → LeaseStep a b → LeaseReach start b

module _ (tenant run : String) (token : ℕ) where
  -- The row says that `token` is over: a later token is stored, or this one was released.
  pub data Over (row : LeaseRow) : Type 0 where
    superseded : token < row.fencing_token → Over row
    let_go : token ≡ row.fencing_token → row.status ≡ some released → Over row

  pub record Dead (rows : LeaseTable) : Type 0 where
    pub row : LeaseRow
    pub stored : find (is_row tenant run) rows ≡ some row
    pub over : Over row

  -- An update that keeps every run's key, and under which the token stays over in the run's row.
  Dead-update_where :
      (p : LeaseRow → Bool) (f : LeaseRow → LeaseRow) (rows : LeaseTable)
      → ((x : LeaseRow) → p x ≡ true → is_row tenant run (f x) ≡ is_row tenant run x)
      → (d : Dead rows) → (p d.row ≡ true → Over (f d.row))
      → Dead (update_where p f rows)
  Dead-update_where p f rows same d keeps = record {
    row = if p d.row then f d.row else d.row;
    stored = find-update_where-some p (is_row tenant run) f same rows d.row d.stored;
    over = choose (p d.row) refl;
  }
    where
      choose : (b : Bool) → p d.row ≡ b → Over (if b then f d.row else d.row)
      choose true e = keeps e
      choose false e = d.over

  release-Dead : (key : LeaseKey) (rows : LeaseTable) → Dead rows → Dead (release key rows)
  unfolding release
  release-Dead key rows d =
      Dead-update_where (is_row key.tenant_id key.run_id) _ rows (λ x _. refl) d
        (λ _. released_over d.over)
    where
      released_over : Over d.row → Over (record d.row { status = some released })
      released_over (superseded h) = superseded h
      released_over (let_go e s) = let_go e refl

  heartbeat-Dead :
      (key : LeaseKey) (t wall mono : ℕ) (rows : LeaseTable)
      → Dead rows
      → Dead (heartbeat key t wall mono rows)
  unfolding heartbeat
  heartbeat-Dead key t wall mono rows d =
      Dead-update_where _ _ rows (λ x _. refl) d (λ _. touched_over d.over)
    where
      touched_over :
          Over d.row → Over (record d.row { heartbeat_at = some wall; heartbeat_mono = some mono })
      touched_over (superseded h) = superseded h
      touched_over (let_go e s) = let_go e s

  Over-le : {row : LeaseRow} → Over row → token ≤ row.fencing_token
  Over-le (superseded h) = omega arith
  Over-le (let_go e s) = omega arith

  same_key :
      (t r : String) (row : LeaseRow)
      → is_row tenant run row ≡ true
      → is_row t r row ≡ true
      → (t ≡ tenant) × (r ≡ run)
  same_key t r row h k = ground (
    arith,
    eq_iff row.tenant_id tenant,
    eq_iff row.run_id run,
    eq_iff row.tenant_id t,
    eq_iff row.run_id r,
  )

  keyed_alike :
      (t r : String) (x y : LeaseRow)
      → is_row t r x ≡ true
      → is_row t r y ≡ true
      → is_row tenant run y ≡ is_row tenant run x
  keyed_alike t r x y h k =
      let hx = &&-true (str_eq x.tenant_id t) (str_eq x.run_id r) h in
      let hy = &&-true (str_eq y.tenant_id t) (str_eq y.run_id r) k in
      rw (
        (eq_iff x.tenant_id t).0 hx.0,
        (eq_iff x.run_id r).0 hx.1,
        (eq_iff y.tenant_id t).0 hy.0,
        (eq_iff y.run_id r).0 hy.1,
      )

  -- A new row of another run leaves this run's row as it is.
  upsert-Dead :
      (key : LeaseKey) (new : LeaseRow) (old : Option LeaseRow) (rows : LeaseTable)
      → is_row key.tenant_id key.run_id new ≡ true
      → (d : Dead rows) → is_row key.tenant_id key.run_id d.row ≡ false
      → Dead (upsert key new old rows)
  unfolding upsert
  upsert-Dead key new none rows k d apart = record {
    row = d.row;
    stored = find-append_some (is_row tenant run) rows _ d.row d.stored;
    over = d.over;
  }
  upsert-Dead key new (some _) rows k d apart =
      Dead-update_where (is_row key.tenant_id key.run_id) (λ _. new) rows
        (λ x h. keyed_alike key.tenant_id key.run_id x new h k) d (λ h. cc)

  acquire-Dead :
      (key : LeaseKey) (file : LockFile) (rows : LeaseTable) (h : Held)
      → acquire key file rows ≡ ok h
      → Dead rows
      → Dead h.rows
  acquire-Dead key file rows h e d =
      let a = acquire-Acquired key file rows h e in
      let new_key = find-true (is_row key.tenant_id key.run_id) h.rows a.row a.stored in
      elim (Bool-cases (is_row key.tenant_id key.run_id d.row)) [
        | inl mine ↦
            let same =
              same_key key.tenant_id key.run_id d.row
                (find-true (is_row tenant run) rows d.row d.stored) mine in
            record {
              row = a.row;
              stored = rw (← same.0, ← same.1) a.stored;
              over = superseded (
                  let grown = a.grows d.row (rw (same.0, same.1) d.stored) in
                  let kept = Over-le d.over in omega (arith, a.same_token));
            }
        | inr other ↦ rw a.shape (upsert-Dead key a.row (row_of key rows) rows new_key d other)
      ]

  LeaseStep-Dead : {a b : LeaseTable} → LeaseStep a b → Dead a → Dead b
  LeaseStep-Dead (acquired key file rows h e) d = acquire-Dead key file rows h e d
  LeaseStep-Dead (released_by key rows) d = release-Dead key rows d
  LeaseStep-Dead (touched key t wall mono rows) d = heartbeat-Dead key t wall mono rows d

  LeaseReach-Dead : {a b : LeaseTable} → Dead a → LeaseReach a b → Dead b
  LeaseReach-Dead d here = d
  LeaseReach-Dead d (next r s) = LeaseStep-Dead s (LeaseReach-Dead d r)

  Dead-refused :
      (rows : LeaseTable) (missing : MissingRow)
      → Dead rows
      → require_lease_token (some rows) tenant run (some token) missing ≡ raised lease_lost
  unfolding stored_status
  Dead-refused rows missing d =
      require_lease_token-stored rows tenant run d.row (some token) missing d.stored
      ∙ refused d.over
    where
      refused :
          Over d.row
          → verdict (stored_status d.row) (some token) d.row.fencing_token ≡ raised lease_lost
      refused (superseded h) = ground arith
      refused (let_go e s) = rw s

-- A token that a later `acquire` of the run has overtaken is refused at the fence after every
-- sequence of acquires, releases and heartbeats that follows, of this run and of others.
pub overtaken_token_refused :
    (key : LeaseKey) (file : LockFile) (rows after : LeaseTable) (h : Held) (old : LeaseRow)
    (missing : MissingRow)
    → row_of key rows ≡ some old
    → acquire key file rows ≡ ok h
    → LeaseReach h.rows after
    → require_lease_token (some after) key.tenant_id key.run_id (some old.fencing_token) missing
      ≡ raised lease_lost
overtaken_token_refused key file rows after h old missing before now later =
    let a = acquire-Acquired key file rows h now in
    let dead : Dead key.tenant_id key.run_id old.fencing_token h.rows = record {
      row = a.row;
      stored = a.stored;
      over = superseded (let g = a.grows old before in omega (arith, a.same_token));
    } in
    Dead-refused key.tenant_id key.run_id old.fencing_token after missing
      (LeaseReach-Dead key.tenant_id key.run_id old.fencing_token dead later)

released-Dead :
    (key : LeaseKey) (rows : LeaseTable) (old : LeaseRow)
    → row_of key rows ≡ some old
    → Dead key.tenant_id key.run_id old.fencing_token (release key rows)
unfolding release
released-Dead key rows old before = record {
  row = record old { status = some released };
  stored = find-update_where_self (is_row key.tenant_id key.run_id) _ (λ x h. h) rows ∙ rw before;
  over = let_go refl refl;
}

-- A released lease stays released for its last token: after a `release`, and whatever follows, the
-- token that the row held is refused.
pub released_token_refused :
    (key : LeaseKey) (rows after : LeaseTable) (old : LeaseRow) (missing : MissingRow)
    → row_of key rows ≡ some old
    → LeaseReach (release key rows) after
    → require_lease_token (some after) key.tenant_id key.run_id (some old.fencing_token) missing
      ≡ raised lease_lost
released_token_refused key rows after old missing before later =
    Dead-refused key.tenant_id key.run_id old.fencing_token after missing (
      LeaseReach-Dead key.tenant_id key.run_id old.fencing_token (released-Dead key rows old before)
        later)

-- How the token of a row is lost: another acquire takes it over, or it is released.
pub data Ends (key : LeaseKey) (rows : LeaseTable) : LeaseTable → Type 0 where
  overtaken : (file : LockFile) (h : Held) → acquire key file rows ≡ ok h → Ends key rows h.rows
  given_up : Ends key rows (release key rows)

-- Once the token of a run's row is overtaken by an `acquire` or given up by a `release`, it is refused
-- at the fence after every sequence of acquires, releases and heartbeats that follows, of this run
-- and of others.
pub old_token_refused :
    (key : LeaseKey) (rows lost after : LeaseTable) (old : LeaseRow) (missing : MissingRow)
    → row_of key rows ≡ some old
    → Ends key rows lost
    → LeaseReach lost after
    → require_lease_token (some after) key.tenant_id key.run_id (some old.fencing_token) missing
      ≡ raised lease_lost
old_token_refused key rows _ after old missing before (overtaken file h e) later =
    overtaken_token_refused key file rows after h old missing before e later
old_token_refused key rows _ after old missing before given_up later =
    released_token_refused key rows after old missing before later
