-- ===== src/Persistence/Idempotency/Fencing.antt =====
-- A key has at most one row, and only the request whose lease that row bears can bind or free it.
use recertia.Prelude.{
  ℕ, zero, suc, ◌≤◌, ◌+◌, String, Bool, true, ◌&&◌, Option, none, some, List, [], ◌∷◌, ◌++◌, ◌≡◌,
  ◌≢◌, refl, subst, find, count, str_eq, arith, Bool-cases, inl, inr, eq_iff, str_eq_refl,
}
use recertia.Prelude.Rows.{
  update_where, find-true, count-update_where, count-append, count-find-none, count-find_unique,
  count-remove_where_le, find-update_where-some, find-append_none, update_where-none,
  remove_where-none,
}
use recertia.Persistence.Idempotency.{
  KeyScope, KeyRow, Reservation, superseded, reserved, taken_over, reserves, completes, releases,
  same_scope, in_scope, is_pending, is_expired, sweep, sweep_limit, swept, new_row, renewed, on_row,
  after_sweep, reserve, holds, bound, not_held, complete_key, release_key, Call, after_call,
  after_calls,
}

-- No key has two rows, which the table's primary key enforces.
abbrev pub HasUniqueScopes : List KeyRow → Type 0
HasUniqueScopes rows = (scope : KeyScope) → count (in_scope scope) rows ≤ 1

pub same_scope-eq : (a b : KeyScope) → same_scope a b ≡ true → a ≡ b
same_scope-eq a b h =
    rw
      (
        ← (eq_iff a.tenant_id b.tenant_id).0 (ground arith),
        ← (eq_iff a.program_id b.program_id).0 (ground arith),
        ← (eq_iff a.step_id b.step_id).0 (ground arith),
        ← (eq_iff a.key b.key).0 (ground arith),
      )
      refl

pub same_scope_refl : (a : KeyScope) → same_scope a a ≡ true
same_scope_refl a =
    rw (str_eq_refl a.tenant_id, str_eq_refl a.program_id, str_eq_refl a.step_id, str_eq_refl a.key)
      refl

count-sweep_le :
    (p : KeyRow → Bool) (n now : ℕ) (rows : List KeyRow) → count p (sweep n now rows) ≤ count p rows
unfolding sweep
count-sweep_le p zero now rows = omega arith
count-sweep_le p (suc n) now [] = omega arith
count-sweep_le p (suc n) now (x ∷ rows) =
    ground (arith, count-sweep_le p n now rows, count-sweep_le p (suc n) now rows)

count-swept_le :
    (p : KeyRow → Bool) (scope : KeyScope) (now : ℕ) (rows : List KeyRow)
    → count p (swept scope now rows) ≤ count p rows
unfolding swept
count-swept_le p scope now rows = omega (
  arith,
  count-sweep_le p sweep_limit now rows,
  count-remove_where_le p (λ x. in_scope scope x && is_expired now x) (sweep sweep_limit now rows),
)

-- A row is inserted for a key that has none.
count-insert :
    (own scope : KeyScope) (hash : String) (now ttl : ℕ) (rows : List KeyRow)
    → find (in_scope scope) rows ≡ none
    → count (in_scope own) rows ≤ 1
    → count (in_scope own) (rows ++ new_row scope hash now ttl ∷ []) ≤ 1
count-insert own scope hash now ttl rows h u = elim (Bool-cases (same_scope scope own)) [
  | inl e ↦ ground (
    arith,
    h,
    count-append (in_scope own) rows (new_row scope hash now ttl ∷ []),
    subst (λ s. count (in_scope s) rows ≡ 0) (same_scope-eq scope own e)
        (count-find-none (in_scope scope) rows h),
  )
  | inr e ↦ ground (arith, count-append (in_scope own) rows (new_row scope hash now ttl ∷ []))
]

after_sweep-HasUniqueScopes :
    (scope : KeyScope) (hash : String) (now ttl : ℕ) (rows : List KeyRow) (o : Option KeyRow)
    → find (in_scope scope) rows ≡ o
    → HasUniqueScopes rows
    → HasUniqueScopes (after_sweep scope hash now ttl rows o).1
unfolding after_sweep on_row
after_sweep-HasUniqueScopes scope hash now ttl rows none h u own =
    count-insert own scope hash now ttl rows h (u own)
after_sweep-HasUniqueScopes scope hash now ttl rows (some r) h u own = ground (
  arith,
  u own,
  count-update_where (λ x. in_scope scope x && is_pending x.state) (in_scope own) (renewed now ttl)
      (λ x. refl) rows,
)

swept-HasUniqueScopes :
    (scope : KeyScope) (now : ℕ) (rows : List KeyRow)
    → HasUniqueScopes rows
    → HasUniqueScopes (swept scope now rows)
swept-HasUniqueScopes scope now rows u own =
    omega (arith, u own, count-swept_le (in_scope own) scope now rows)

pub reserve-HasUniqueScopes :
    (ttl : ℕ) (scope : KeyScope) (hash : String) (now : ℕ) (rows : List KeyRow)
    → HasUniqueScopes rows
    → HasUniqueScopes (reserve ttl scope hash now rows).1
unfolding reserve
reserve-HasUniqueScopes ttl scope hash now rows u =
    after_sweep-HasUniqueScopes scope hash now ttl (swept scope now rows)
      (find (in_scope scope) (swept scope now rows)) refl (swept-HasUniqueScopes scope now rows u)

pub complete_key-HasUniqueScopes :
    (scope : KeyScope) (hash run : String) (lease : ℕ) (rows : List KeyRow)
    → HasUniqueScopes rows
    → HasUniqueScopes (complete_key scope hash run lease rows).1
unfolding complete_key
complete_key-HasUniqueScopes scope hash run lease rows u own = ground (
  arith,
  u own,
  count-update_where (holds scope hash lease) (in_scope own) (bound run) (λ x. refl) rows,
)

after_call-HasUniqueScopes :
    (ttl now : ℕ) (c : Call) (rows : List KeyRow)
    → HasUniqueScopes rows
    → HasUniqueScopes (after_call ttl now c rows)
unfolding after_call release_key
after_call-HasUniqueScopes ttl now (reserves scope hash) rows u =
    reserve-HasUniqueScopes ttl scope hash now rows u
after_call-HasUniqueScopes ttl now (completes scope hash run lease) rows u =
    complete_key-HasUniqueScopes scope hash run lease rows u
after_call-HasUniqueScopes ttl now (releases scope hash lease) rows u =
    λ own. omega (arith, u own, count-remove_where_le (in_scope own) (holds scope hash lease) rows)

after_calls-HasUniqueScopes :
    (ttl : ℕ) (calls : List (ℕ × Call)) (rows : List KeyRow)
    → HasUniqueScopes rows
    → HasUniqueScopes (after_calls ttl calls rows)
unfolding after_calls
after_calls-HasUniqueScopes ttl [] rows u = u
after_calls-HasUniqueScopes ttl ((now, c) ∷ calls) rows u =
    after_call-HasUniqueScopes ttl now c (after_calls ttl calls rows)
      (after_calls-HasUniqueScopes ttl calls rows u)

-- The row of a request that was just granted a key.
abbrev pub IsHeld : KeyScope → String → ℕ → ℕ → KeyRow → Type 0
IsHeld scope hash now ttl r =
    (in_scope scope r ≡ true)
    × ((str_eq r.request_hash hash ≡ true)
        × ((is_pending r.state ≡ true) × ((r.created_at ≡ now) × (r.expires_at ≡ now + ttl))))

abbrev pub lease_of : Reservation → Option ℕ
lease_of (reserved lease) = some lease
lease_of (taken_over lease) = some lease
lease_of _ = none

on_row-granted :
    (scope : KeyScope) (hash : String) (now ttl lease : ℕ) (rows : List KeyRow) (r : KeyRow)
    → lease_of (on_row scope hash now ttl rows r).0 ≡ some lease
    → (lease ≡ now)
      × ((str_eq r.request_hash hash ≡ true)
          × ((is_pending r.state ≡ true)
              × ((on_row scope hash now ttl rows r).1
                  ≡ update_where
                      (λ x. in_scope scope x && is_pending x.state)
                      (renewed now ttl)
                      rows)))
unfolding on_row
on_row-granted scope hash now ttl lease rows r e =
    (ground arith, (ground arith, (ground arith, ground arith)))

after_sweep-IsHeld :
    (scope : KeyScope) (hash : String) (now ttl lease : ℕ) (rows : List KeyRow) (o : Option KeyRow)
    → find (in_scope scope) rows ≡ o
    → lease_of (after_sweep scope hash now ttl rows o).0 ≡ some lease
    → (lease ≡ now)
      × ((r : KeyRow) × ((find (in_scope scope) (after_sweep scope hash now ttl rows o).1 ≡ some r)
            × IsHeld scope hash now ttl r))
unfolding after_sweep
after_sweep-IsHeld scope hash now ttl lease rows none h e = (
  ground arith,
  (
    new_row scope hash now ttl,
    (
      ground (
        arith,
        same_scope_refl scope,
        find-append_none (in_scope scope) rows (new_row scope hash now ttl ∷ []) h,
      ),
      (same_scope_refl scope, (str_eq_refl hash, (refl, (refl, refl)))),
    ),
  ),
)
after_sweep-IsHeld scope hash now ttl lease rows (some r) h e =
    held (on_row-granted scope hash now ttl lease rows r e)
  where
    held :
        (lease ≡ now)
          × ((str_eq r.request_hash hash ≡ true)
              × ((is_pending r.state ≡ true)
                  × ((on_row scope hash now ttl rows r).1
                      ≡ update_where
                          (λ x. in_scope scope x && is_pending x.state)
                          (renewed now ttl)
                          rows)))
        → (lease ≡ now)
          × ((x : KeyRow) × ((find (in_scope scope) (on_row scope hash now ttl rows r).1 ≡ some x)
                × IsHeld scope hash now ttl x))
    held (at, (same, (waits, updated))) = (
      at,
      (
        renewed now ttl r,
        (
          ground (
            arith,
            updated,
            find-true (in_scope scope) rows r h,
            find-update_where-some (λ x. in_scope scope x && is_pending x.state) (in_scope scope)
                (renewed now ttl) (λ x _. refl) rows r h,
          ),
          (find-true (in_scope scope) rows r h, (same, (waits, (refl, refl)))),
        ),
      ),
    )

-- What a request finds after it was granted a key.
pub reserve-IsHeld :
    (ttl : ℕ) (scope : KeyScope) (hash : String) (now lease : ℕ) (rows : List KeyRow)
    → lease_of (reserve ttl scope hash now rows).0 ≡ some lease
    → (lease ≡ now)
      × ((r : KeyRow) × ((find (in_scope scope) (reserve ttl scope hash now rows).1 ≡ some r)
            × IsHeld scope hash now ttl r))
unfolding reserve
reserve-IsHeld ttl scope hash now lease rows e =
    after_sweep-IsHeld scope hash now ttl lease (swept scope now rows)
      (find (in_scope scope) (swept scope now rows)) refl e

pub holds-in_scope :
    (scope : KeyScope) (hash : String) (lease : ℕ) (x : KeyRow)
    → holds scope hash lease x ≡ true
    → in_scope scope x ≡ true
holds-in_scope scope hash lease x h = ground arith

-- A request whose row bears another lease changes no row.
other_lease :
    (scope : KeyScope) (hash run : String) (old lease ttl : ℕ) (rows : List KeyRow) (r : KeyRow)
    → count (in_scope scope) rows ≤ 1
    → find (in_scope scope) rows ≡ some r
    → IsHeld scope hash lease ttl r
    → old ≢ lease
    → (complete_key scope hash run old rows ≡ (superseded, rows))
      × (release_key scope hash old rows ≡ rows)
unfolding complete_key release_key not_held
other_lease scope hash run old lease ttl rows r u h (own, (same, (waits, (at, until)))) ne = (
  rw (update_where-none (holds scope hash old) (bound run) rows idle, idle, h) (ground arith),
  remove_where-none (holds scope hash old) rows idle,
)
  where
    idle : count (holds scope hash old) rows ≡ 0
    idle = ground (
      arith,
      count-find_unique (in_scope scope) (holds scope hash old) (holds-in_scope scope hash old) rows
          r h u,
    )

-- From a table with at most one row for each key, any requests leave one with at most one row for each
-- key. When a request there is granted a key under a lease, the table still has at most one row for
-- each key, and a request for the same key and body with any other lease can neither bind nor free it:
-- its completion is answered as superseded, and neither call changes any row.
pub reserve-Fences :
    (ttl : ℕ) (scope : KeyScope) (hash : String) (now : ℕ) (calls : List (ℕ × Call))
    → (rows : List KeyRow) (lease old : ℕ) (run : String) → HasUniqueScopes rows
    → lease_of (reserve ttl scope hash now (after_calls ttl calls rows)).0 ≡ some lease
    → old ≢ lease
    → HasUniqueScopes (reserve ttl scope hash now (after_calls ttl calls rows)).1
      × ((complete_key scope hash run old
              (reserve ttl scope hash now (after_calls ttl calls rows)).1
            ≡ (superseded, (reserve ttl scope hash now (after_calls ttl calls rows)).1))
          × (release_key scope hash old (reserve ttl scope hash now (after_calls ttl calls rows)).1
              ≡ (reserve ttl scope hash now (after_calls ttl calls rows)).1))
reserve-Fences ttl scope hash now calls rows lease old run u e ne =
    fenced (reserve-IsHeld ttl scope hash now lease (after_calls ttl calls rows) e)
  where
    unique : HasUniqueScopes (reserve ttl scope hash now (after_calls ttl calls rows)).1
    unique =
        reserve-HasUniqueScopes ttl scope hash now (after_calls ttl calls rows)
          (after_calls-HasUniqueScopes ttl calls rows u)

    fenced :
        (lease ≡ now)
          × ((r : KeyRow) × ((find
                    (in_scope scope)
                    (reserve ttl scope hash now (after_calls ttl calls rows)).1
                  ≡ some r)
                × IsHeld scope hash now ttl r))
        → HasUniqueScopes (reserve ttl scope hash now (after_calls ttl calls rows)).1
          × ((complete_key scope hash run old
                  (reserve ttl scope hash now (after_calls ttl calls rows)).1
                ≡ (superseded, (reserve ttl scope hash now (after_calls ttl calls rows)).1))
              × (release_key scope hash old
                    (reserve ttl scope hash now (after_calls ttl calls rows)).1
                  ≡ (reserve ttl scope hash now (after_calls ttl calls rows)).1))
    fenced (at, (r, (found, held))) = (
      unique,
      other_lease scope hash run old now ttl
          (reserve ttl scope hash now (after_calls ttl calls rows)).1 r (unique scope) found held
          (λ same. ne (rw at same)),
    )
