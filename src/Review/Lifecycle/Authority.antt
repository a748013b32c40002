-- ===== src/Review/Lifecycle/Authority.antt =====
-- The versions that the functions of review/lifecycle.py leave approved.
use recertia.Prelude.{
  Bool, true, false, not, ◌&&◌, Option, none, some, List, [], ◌∷◌, find, ltb, Outcome, ok, raised,
  raise_if, ◌>>=◌, ◌≡◌, ◌∙◌, refl, sym, arith, if◌then◌else◌,
}
use mathlib.Core.Option
use recertia.Prelude.Rows.{update_where, find-update_where-map}
use recertia.Review.Lifecycle.{
  Lifecycle, shadow, not_shadow, lift_too_low, too_few_applications, too_few_successes,
  inapplicable, not_benched, approved, candidate, benched, quarantined, needs_recert, is_lifecycle,
  is_retrievable, VersionRef, Stored, LifecycleError, AutonomyConfig, Evidence, RetirementAction,
  too_little, no_estimate, no_interval, keeps, retires, retirement_decision, is_at, write_refused,
  unless, write_status, inactive, get_status, below_lift, advance_to_candidate,
  quarantine_on_failures, uses_ref, mark_parents_needs_recert, benched_with, decided_bench,
  bench_on_contribution, restored_from, restore_benched, Call, advances, quarantines, benches,
  restores, call, or_same, after_calls,
}

-- Every version that is approved after was approved before, with the same record.
abbrev pub KeepsApproved : List Stored → List Stored → Type 0
KeepsApproved rows after =
    (ref : VersionRef) (v : Stored)
    → find (is_at ref) after ≡ some v
    → is_lifecycle v.lifecycle approved ≡ true
    → find (is_at ref) rows ≡ some v

update_where-KeepsApproved :
    (p : Stored → Bool) (f : Stored → Stored)
    → ((ref : VersionRef) (x : Stored) → is_at ref (f x) ≡ is_at ref x)
    → ((x : Stored) → is_lifecycle (f x).lifecycle approved ≡ false)
    → (rows : List Stored) → KeepsApproved rows (update_where p f rows)
update_where-KeepsApproved p f same never rows ref v h a =
    before (find (is_at ref) rows) refl
      (sym (find-update_where-map p (is_at ref) f (same ref) rows) ∙ h)
  where
    before :
        (o : Option Stored)
        → find (is_at ref) rows ≡ o
        → Option.map (λ x. if p x then f x else x) (find (is_at ref) rows) ≡ some v
        → find (is_at ref) rows ≡ some v
    before none e g = ground (arith, rw e at g)
    before (some x) e g = ground (arith, e, rw e at g, never x)

abbrev Keeps : List Stored → Outcome LifecycleError (List Stored) → Type 0
Keeps rows (ok after) = KeepsApproved rows after
Keeps rows (raised e) = Unit

same_KeepsApproved : (rows : List Stored) → KeepsApproved rows rows
same_KeepsApproved rows ref v h a = h

Keeps-raise_if :
    (rows : List Stored) (b : Bool) (e : LifecycleError) (x : Outcome LifecycleError (List Stored))
    → Keeps rows x
    → Keeps rows (raise_if b e x)
Keeps-raise_if rows true e x h = tt
Keeps-raise_if rows false e x h = h

Keeps-bind :
    (rows : List Stored) (x : Outcome LifecycleError Stored)
    (f : Stored → Outcome LifecycleError (List Stored))
    → ((v : Stored) → Keeps rows (f v))
    → Keeps rows (x >>= f)
Keeps-bind rows (ok v) f h = h v
Keeps-bind rows (raised e) f h = tt

write_status-Keeps :
    (ref : VersionRef) (expected next : Lifecycle) (change : Stored → Stored) (rows : List Stored)
    → is_lifecycle next approved ≡ false
    → ((r : VersionRef) (x : Stored) → is_at r (change x) ≡ is_at r x)
    → Keeps rows (write_status ref expected next change rows)
unfolding write_status unless
write_status-Keeps ref expected next change rows never same =
    split (write_refused expected next (find (is_at ref) rows))
  where
    split :
        (o : Option LifecycleError)
        → Keeps rows
            (unless o (update_where (is_at ref) (λ v. record (change v) { lifecycle = next }) rows))
    split none =
        update_where-KeepsApproved (is_at ref) (λ v. record (change v) { lifecycle = next }) same
          (λ x. never) rows
    split (some e) = tt

mark_parents-KeepsApproved :
    (child : VersionRef) (rows : List Stored)
    → KeepsApproved rows (mark_parents_needs_recert child rows)
unfolding mark_parents_needs_recert
mark_parents-KeepsApproved child rows =
    update_where-KeepsApproved (λ v. uses_ref child v && is_retrievable v.lifecycle)
      (λ v. record v { lifecycle = needs_recert; active = false }) (λ _ _. refl) (λ _. refl) rows

decided_bench-Keeps :
    (ref : VersionRef) (e : Evidence) (v : Stored) (rows : List Stored) (action : RetirementAction)
    → Keeps rows (decided_bench ref e v rows action)
unfolding decided_bench benched_with
decided_bench-Keeps ref e v rows too_little = tt
decided_bench-Keeps ref e v rows no_estimate = tt
decided_bench-Keeps ref e v rows no_interval = tt
decided_bench-Keeps ref e v rows keeps = tt
decided_bench-Keeps ref e v rows retires =
    both (write_status ref v.lifecycle benched (benched_with e.text) rows)
      (write_status-Keeps ref v.lifecycle benched (benched_with e.text) rows refl (λ _ _. refl))
  where
    both :
        (x : Outcome LifecycleError (List Stored))
        → Keeps rows x
        → Keeps rows (x >>= λ written. ok (mark_parents_needs_recert ref written))
    both (raised err) h = tt
    both (ok written) h = λ r w f a. h r w (mark_parents-KeepsApproved ref written r w f a) a

call-Keeps :
    (config : AutonomyConfig) (c : Call) (rows : List Stored) → Keeps rows (call config c rows)
unfolding call advance_to_candidate quarantine_on_failures bench_on_contribution restore_benched
    restored_from
call-Keeps config (advances ref e) rows = Keeps-bind rows (get_status ref rows) _ (λ v.
    Keeps-raise_if rows (not (is_lifecycle v.lifecycle shadow)) not_shadow _ (
      Keeps-raise_if rows (below_lift e.estimate config.shadow_min_lift) lift_too_low _ (
        Keeps-raise_if rows (ltb e.shadow_trials config.shadow_min_applications)
          too_few_applications _
          (Keeps-raise_if rows (ltb e.shadow_successes config.shadow_min_successes)
            too_few_successes _
            (Keeps-raise_if rows
              (v.self_distilled && below_lift e.estimate config.self_distilled_min_lift)
              lift_too_low _
              (Keeps-raise_if rows (not e.is_applicable) inapplicable
                (write_status ref v.lifecycle candidate inactive rows)
                (write_status-Keeps ref v.lifecycle candidate inactive rows refl
                  (λ _ _. refl))))))))
call-Keeps config (quarantines ref n) rows = Keeps-bind rows (get_status ref rows) _ (λ v.
    either (ltb n config.quarantine_consecutive_failures) _
      (write_status-Keeps ref v.lifecycle quarantined inactive rows refl (λ _ _. refl)))
  where
    either :
        (b : Bool) (x : Outcome LifecycleError (List Stored))
        → Keeps rows x
        → Keeps rows (if b then ok rows else x)
    either true x h = same_KeepsApproved rows
    either false x h = h
call-Keeps config (benches ref e) rows =
    Keeps-bind rows (get_status ref rows) _
      (λ v. decided_bench-Keeps ref e v rows (retirement_decision config e))
call-Keeps config (restores ref) rows = Keeps-bind rows (get_status ref rows) _ (λ v.
    Keeps-raise_if rows (not (is_lifecycle v.lifecycle benched)) not_benched
      (write_status ref benched candidate restored_from rows)
      (write_status-Keeps ref benched candidate restored_from rows refl (λ _ _. refl)))

-- Whatever is advanced, quarantined, benched and restored, in any order and with any evidence, a version
-- that is approved afterwards was approved before, with the same record: none of these calls approves a
-- version, or changes one that stays approved.
pub after_calls-KeepsApproved :
    (config : AutonomyConfig) (calls : List Call) (rows : List Stored) (ref : VersionRef)
    (v : Stored)
    → find (is_at ref) (after_calls config calls rows) ≡ some v
    → is_lifecycle v.lifecycle approved ≡ true
    → find (is_at ref) rows ≡ some v
unfolding after_calls
after_calls-KeepsApproved config [] rows = same_KeepsApproved rows
after_calls-KeepsApproved config (c ∷ calls) rows =
    step (call config c (after_calls config calls rows))
      (call-Keeps config c (after_calls config calls rows))
      (after_calls-KeepsApproved config calls rows)
  where
    step :
        (x : Outcome LifecycleError (List Stored))
        → Keeps (after_calls config calls rows) x
        → KeepsApproved rows (after_calls config calls rows)
        → KeepsApproved rows (or_same (after_calls config calls rows) x)
    step (raised e) h before = before
    step (ok after) h before = λ ref v f a. before ref v (h ref v f a) a
