-- ===== src/Persistence/Idempotency/Progress.antt =====
-- A key whose request died is bound by a retry once the lease has run out.
use recertia.Prelude.{
  ℕ, zero, suc, ◌<◌, ◌≤◌, ◌+◌, String, Bool, true, false, ◌&&◌, Option, none, some, List, [], ◌∷◌,
  ◌≡◌, refl, sym, subst, find, count, All, if◌then◌else◌, str_eq, arith,
}
use recertia.Prelude.Rows.{
  count-find_unique, find-update_where-some, All-remove_where, find-true, All-find,
}
use recertia.Persistence.Idempotency.{
  KeyScope, KeyRow, completed, replay, lease_seconds, in_scope, is_pending, is_expired, sweep,
  sweep_limit, swept, on_row, after_sweep, reserve, holds, bound, complete_key, Call, after_calls,
}
use recertia.Persistence.Idempotency.Fencing.{
  HasUniqueScopes, reserve-HasUniqueScopes, IsHeld, lease_of, reserve-IsHeld, holds-in_scope,
}
use recertia.Persistence.Idempotency.Replay.{reserve-Replays}

-- Whatever row the key has waits since the lease's time, for a request with the same body.
abbrev pub IsAbandoned : KeyScope → String → ℕ → KeyRow → Type 0
IsAbandoned scope hash now r =
    in_scope scope r ≡ true
    → (str_eq r.request_hash hash ≡ true)
      × ((is_pending r.state ≡ true) × (r.created_at + lease_seconds ≤ now))

All-sweep {ℓ} :
    (P : KeyRow → Type ℓ) (n now : ℕ) (rows : List KeyRow) → All P rows → All P (sweep n now rows)
unfolding sweep
All-sweep P zero now rows h = h
All-sweep P (suc n) now [] h = h
All-sweep P (suc n) now (x ∷ rows) h =
    head (is_expired now x) (All-sweep P n now rows h.1) (All-sweep P (suc n) now rows h.1)
  where
    head :
        (b : Bool)
        → All P (sweep n now rows)
        → All P (sweep (suc n) now rows)
        → All P (if b then sweep n now rows else x ∷ sweep (suc n) now rows)
    head true a c = a
    head false a c = (h.0, c)

All-swept {ℓ} :
    (P : KeyRow → Type ℓ) (scope : KeyScope) (now : ℕ) (rows : List KeyRow)
    → All P rows
    → All P (swept scope now rows)
unfolding swept
All-swept P scope now rows h =
    All-remove_where P (λ x. in_scope scope x && is_expired now x) (sweep sweep_limit now rows)
      (All-sweep P sweep_limit now rows h)

abandoned-find :
    (scope : KeyScope) (hash : String) (now : ℕ) (rows : List KeyRow) (r : KeyRow)
    → All (IsAbandoned scope hash now) rows
    → find (in_scope scope) rows ≡ some r
    → (str_eq r.request_hash hash ≡ true)
      × ((is_pending r.state ≡ true) × (r.created_at + lease_seconds ≤ now))
abandoned-find scope hash now rows r h f =
    All-find (IsAbandoned scope hash now) (in_scope scope) rows r h f
      (find-true (in_scope scope) rows r f)

granted_sweep :
    (scope : KeyScope) (hash : String) (now ttl : ℕ) (rows : List KeyRow) (o : Option KeyRow)
    → All (IsAbandoned scope hash now) rows
    → find (in_scope scope) rows ≡ o
    → lease_of (after_sweep scope hash now ttl rows o).0 ≡ some now
unfolding after_sweep on_row
granted_sweep scope hash now ttl rows none h f = refl
granted_sweep scope hash now ttl rows (some r) h f =
    ground (arith, abandoned-find scope hash now rows r h f)

granted :
    (ttl : ℕ) (scope : KeyScope) (hash : String) (now : ℕ) (rows : List KeyRow)
    → All (IsAbandoned scope hash now) rows
    → lease_of (reserve ttl scope hash now rows).0 ≡ some now
unfolding reserve
granted ttl scope hash now rows h =
    granted_sweep scope hash now ttl (swept scope now rows)
      (find (in_scope scope) (swept scope now rows))
      (All-swept (IsAbandoned scope hash now) scope now rows h) refl

-- The holder of a lease binds the key.
complete-bound :
    (scope : KeyScope) (hash run : String) (now ttl : ℕ) (rows : List KeyRow) (r : KeyRow)
    → count (in_scope scope) rows ≤ 1
    → find (in_scope scope) rows ≡ some r
    → IsHeld scope hash now ttl r
    → ((complete_key scope hash run now rows).0 ≡ completed)
      × (find (in_scope scope) (complete_key scope hash run now rows).1 ≡ some (bound run r))
unfolding complete_key
complete-bound scope hash run now ttl rows r u f (own, (same, (waits, (at, until)))) = (
  ground (
    arith,
    count-find_unique (in_scope scope) (holds scope hash now) (holds-in_scope scope hash now) rows r
        f u,
  ),
  ground (
    arith,
    find-update_where-some (holds scope hash now) (in_scope scope) (bound run) (λ x _. refl) rows r
        f,
  ),
)

-- In a table with at most one row for each key, let the key's row, if there is one, wait since 30
-- seconds or more for a request with the same body. Then a request for the key with that body is granted
-- a lease, its completion with that lease binds the run, and after any requests before the
-- row's new expiry a request for the key with that body is answered with that run until then.
pub reserve-Completes :
    (ttl : ℕ) (scope : KeyScope) (hash run : String) (now later : ℕ) (calls : List (ℕ × Call))
    → (rows : List KeyRow) → HasUniqueScopes rows
    → All (IsAbandoned scope hash now) rows
    → All (λ c. c.0 < now + ttl) calls
    → later < now + ttl
    → (lease_of (reserve ttl scope hash now rows).0 ≡ some now)
      × (((complete_key scope hash run now (reserve ttl scope hash now rows).1).0 ≡ completed)
          × ((reserve ttl scope hash later (
                after_calls ttl calls
                  (complete_key scope hash run now (reserve ttl scope hash now rows).1).1)).0
              ≡ replay (some run)))
reserve-Completes ttl scope hash run now later calls rows u h early before = (
  granted ttl scope hash now rows h,
  finish (reserve-IsHeld ttl scope hash now now rows (granted ttl scope hash now rows h)),
)
  where
    finish :
        (now ≡ now)
          × ((r : KeyRow) × ((find (in_scope scope) (reserve ttl scope hash now rows).1 ≡ some r)
                × IsHeld scope hash now ttl r))
        → ((complete_key scope hash run now (reserve ttl scope hash now rows).1).0 ≡ completed)
          × ((reserve ttl scope hash later (
                after_calls ttl calls
                  (complete_key scope hash run now (reserve ttl scope hash now rows).1).1)).0
              ≡ replay (some run))
    finish (at, (r, (f, held))) =
        let bind =
          complete-bound scope hash run now ttl (reserve ttl scope hash now rows).1 r
            (reserve-HasUniqueScopes ttl scope hash now rows u scope) f held in
        let until = held.1.1.1.1 in
        (
          bind.0,
          ground (
            arith,
            held.1.0,
            reserve-Replays ttl scope hash later calls
                (complete_key scope hash run now (reserve ttl scope hash now rows).1).1
                (bound run r) bind.1 refl (subst (λ e. All (λ c. c.0 < e) calls) (sym until) early)
                (subst (λ e. later < e) (sym until) before),
          ),
        )
