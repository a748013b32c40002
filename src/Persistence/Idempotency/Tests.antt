-- ===== src/Persistence/Idempotency/Tests.antt =====
-- One key of a program's step, requested, lost, taken over and bound.
use recertia.Prelude.{none, some, [], ◌∷◌, ◌≡◌, refl, arith}
use recertia.Persistence.Idempotency.{
  KeyScope, pending, complete, KeyRow, reserved, replay, taken_over, in_progress, mismatch,
  superseded, lost, completed, reserves, releases, swept, reserve, complete_key, release_key,
  after_calls,
}
use recertia.Persistence.Idempotency.Replay.{reserve-Replays}
use recertia.Persistence.Idempotency.Fencing.{reserve-Fences, HasUniqueScopes, lease_of}
use recertia.Persistence.Idempotency.Progress.{reserve-Completes}

abbrev own : KeyScope
own = record { tenant_id = "local"; program_id = "p"; step_id = "s"; key = "k" }

abbrev stale : KeyRow
stale = record {
  scope = own;
  request_hash = "h";
  state = pending;
  run_id = none;
  created_at = 100;
  expires_at = 1000;
}

abbrev bound_row : KeyRow
bound_row = record stale { state = complete; run_id = some "run-1" }

-- An expired row makes way, a young one does not, another body is refused.
expired_row : (reserve 60 own "h" 1000 (stale ∷ [])).0 ≡ reserved 1000
unfolding reserve swept
expired_row = refl

young_row : (reserve 60 own "h" 129 (stale ∷ [])).0 ≡ in_progress
unfolding reserve swept
young_row = refl

other_body : (reserve 60 own "g" 200 (stale ∷ [])).0 ≡ mismatch
unfolding reserve swept
other_body = refl

taken : (reserve 60 own "h" 130 (stale ∷ [])).0 ≡ taken_over 130
unfolding reserve swept
taken = refl

-- The same second's completion by another request that bound the same run.
bound_again : (complete_key own "h" "run-1" 7 (bound_row ∷ [])).0 ≡ completed
unfolding complete_key
bound_again = refl

bound_elsewhere : (complete_key own "h" "run-2" 7 (bound_row ∷ [])).0 ≡ lost
unfolding complete_key
bound_elsewhere = refl

reserve-Replays_example :
    (reserve 60 own "h" 500 (
      after_calls 60
        ((400, releases own "h" 100) ∷ (300, reserves own "g") ∷ [])
        (bound_row ∷ []))).0
    ≡ replay (some "run-1")
reserve-Replays_example =
    reserve-Replays 60 own "h" 500 ((400, releases own "h" 100) ∷ (300, reserves own "g") ∷ [])
      (bound_row ∷ []) bound_row refl refl (omega arith, (omega arith, tt)) (omega arith)

stale-HasUniqueScopes : HasUniqueScopes (stale ∷ [])
stale-HasUniqueScopes scope = ground arith

reserve-Fences_example :
    HasUniqueScopes (reserve 60 own "h" 200 (stale ∷ [])).1
    × ((complete_key own "h" "run-1" 100 (reserve 60 own "h" 200 (stale ∷ [])).1
          ≡ (superseded, (reserve 60 own "h" 200 (stale ∷ [])).1))
        × (release_key own "h" 100 (reserve 60 own "h" 200 (stale ∷ [])).1
            ≡ (reserve 60 own "h" 200 (stale ∷ [])).1))
unfolding reserve after_calls swept
reserve-Fences_example =
    reserve-Fences 60 own "h" 200 [] (stale ∷ []) 200 100 "run-1" stale-HasUniqueScopes refl
      (omega arith)

reserve-Completes_example :
    (lease_of (reserve 60 own "h" 200 (stale ∷ [])).0 ≡ some 200)
    × (((complete_key own "h" "run-9" 200 (reserve 60 own "h" 200 (stale ∷ [])).1).0 ≡ completed)
        × ((reserve 60 own "h" 250 (
              after_calls 60
                ((230, releases own "h" 100) ∷ [])
                (complete_key own "h" "run-9" 200 (reserve 60 own "h" 200 (stale ∷ [])).1).1)).0
            ≡ replay (some "run-9")))
reserve-Completes_example =
    reserve-Completes 60 own "h" "run-9" 200 250 ((230, releases own "h" 100) ∷ []) (stale ∷ [])
      stale-HasUniqueScopes ((λ _. (refl, (refl, omega arith))), tt) (omega arith, tt) (omega arith)
