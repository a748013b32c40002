-- ===== src/Persistence/Idempotency/Replay.antt =====
-- A bound key answers every later request, whatever other requests do, until it expires.
use recertia.Prelude.{
  ℕ, zero, suc, ◌<◌, String, Bool, false, ◌&&◌, Option, none, some, List, [], ◌∷◌, ◌≡◌, refl, find,
  All, str_eq, if◌then◌else◌, arith,
}
use recertia.Prelude.Rows.{
  update_where, find-remove_where, find-update_where-some, find-append_some,
}
use recertia.Persistence.Idempotency.{
  KeyScope, KeyRow, replay, mismatch, reserves, completes, releases, in_scope, is_pending,
  is_expired, sweep, sweep_limit, swept, new_row, renewed, on_row, after_sweep, reserve, holds,
  bound, complete_key, release_key, Call, after_call, after_calls,
}

pub find-sweep :
    (p : KeyRow → Bool) (n now : ℕ) (rows : List KeyRow) (r : KeyRow)
    → find p rows ≡ some r
    → is_expired now r ≡ false
    → find p (sweep n now rows) ≡ some r
unfolding sweep
find-sweep p zero now rows r h e = h
find-sweep p (suc n) now [] r h e = h
find-sweep p (suc n) now (x ∷ rows) r h e =
    ground (arith, find-sweep p n now rows r, find-sweep p (suc n) now rows r)

pub find-swept :
    (p : KeyRow → Bool) (scope : KeyScope) (now : ℕ) (rows : List KeyRow) (r : KeyRow)
    → find p rows ≡ some r
    → now < r.expires_at
    → find p (swept scope now rows) ≡ some r
unfolding swept
find-swept p scope now rows r h e =
    find-remove_where p (λ x. in_scope scope x && is_expired now x) (sweep sweep_limit now rows) r
      (find-sweep p sweep_limit now rows r h (ground arith)) (ground arith)

-- The update of the rows that wait leaves a bound row as it is.
find-renewed :
    (p : KeyRow → Bool)
    → ((now ttl : ℕ) (x : KeyRow) → p (renewed now ttl x) ≡ p x)
    → (scope : KeyScope) (now ttl : ℕ) (rows : List KeyRow) (r : KeyRow) → find p rows ≡ some r
    → is_pending r.state ≡ false
    → find p (update_where (λ x. in_scope scope x && is_pending x.state) (renewed now ttl) rows)
      ≡ some r
find-renewed p same scope now ttl rows r h b = ground (
  arith,
  find-update_where-some (λ x. in_scope scope x && is_pending x.state) p (renewed now ttl)
      (λ x. λ _. same now ttl x) rows r h,
)

find-on_row :
    (p : KeyRow → Bool)
    → ((now ttl : ℕ) (x : KeyRow) → p (renewed now ttl x) ≡ p x)
    → (scope : KeyScope) (hash : String) (now ttl : ℕ) (rows : List KeyRow) (x r : KeyRow)
    → find p rows ≡ some r
    → is_pending r.state ≡ false
    → find p (on_row scope hash now ttl rows x).1 ≡ some r
unfolding on_row
find-on_row p same scope hash now ttl rows x r h b =
    ground (arith, find-renewed p same scope now ttl rows r)

find-after_sweep :
    (p : KeyRow → Bool)
    → ((now ttl : ℕ) (x : KeyRow) → p (renewed now ttl x) ≡ p x)
    → (scope : KeyScope) (hash : String) (now ttl : ℕ) (rows : List KeyRow) (o : Option KeyRow)
      (r : KeyRow)
    → find p rows ≡ some r
    → is_pending r.state ≡ false
    → find p (after_sweep scope hash now ttl rows o).1 ≡ some r
unfolding after_sweep
find-after_sweep p same scope hash now ttl rows none r h b =
    find-append_some p rows (new_row scope hash now ttl ∷ []) r h
find-after_sweep p same scope hash now ttl rows (some x) r h b =
    find-on_row p same scope hash now ttl rows x r h b

find-after_call :
    (own : KeyScope) (ttl now : ℕ) (c : Call) (rows : List KeyRow) (r : KeyRow)
    → find (in_scope own) rows ≡ some r
    → is_pending r.state ≡ false
    → now < r.expires_at
    → find (in_scope own) (after_call ttl now c rows) ≡ some r
unfolding after_call reserve complete_key release_key
find-after_call own ttl now (reserves scope hash) rows r h b e =
    find-after_sweep (in_scope own) (λ _ _ _. refl) scope hash now ttl (swept scope now rows)
      (find (in_scope scope) (swept scope now rows)) r
      (find-swept (in_scope own) scope now rows r h e) b
find-after_call own ttl now (completes scope hash run lease) rows r h b e = ground (
  arith,
  find-update_where-some (holds scope hash lease) (in_scope own) (bound run) (λ _ _. refl) rows r h,
)
find-after_call own ttl now (releases scope hash lease) rows r h b e =
    find-remove_where (in_scope own) (holds scope hash lease) rows r h (ground arith)

pub find-after_calls :
    (own : KeyScope) (ttl : ℕ) (calls : List (ℕ × Call)) (rows : List KeyRow) (r : KeyRow)
    → find (in_scope own) rows ≡ some r
    → is_pending r.state ≡ false
    → All (λ c. c.0 < r.expires_at) calls
    → find (in_scope own) (after_calls ttl calls rows) ≡ some r
unfolding after_calls
find-after_calls own ttl [] rows r h b early = h
find-after_calls own ttl ((now, c) ∷ calls) rows r h b early =
    find-after_call own ttl now c (after_calls ttl calls rows) r
      (find-after_calls own ttl calls rows r h b early.1) b early.0

-- Once a key is bound to a run, then after any further requests to the store, each before the row
-- expires, a request for the key before that time is answered with the bound run when its body hashes
-- to the recorded hash and with a mismatch when it does not.
pub reserve-Replays :
    (ttl : ℕ) (scope : KeyScope) (hash : String) (now : ℕ) (calls : List (ℕ × Call))
    → (rows : List KeyRow) (r : KeyRow) → find (in_scope scope) rows ≡ some r
    → is_pending r.state ≡ false
    → All (λ c. c.0 < r.expires_at) calls
    → now < r.expires_at
    → (reserve ttl scope hash now (after_calls ttl calls rows)).0
      ≡ (if str_eq r.request_hash hash then replay r.run_id else mismatch)
unfolding reserve after_sweep on_row
reserve-Replays ttl scope hash now calls rows r h b early e =
    rw
      (find-swept (in_scope scope) scope now (after_calls ttl calls rows) r
        (find-after_calls scope ttl calls rows r h b early) e)
      (ground arith)
