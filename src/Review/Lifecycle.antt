-- ===== src/Review/Lifecycle.antt =====
-- review/lifecycle.py on contracts/status.py: shadow to candidate, quarantine, bench and restore. The
-- evidence (samples, lift, interval, applicability) enters by its numbers, floats as whole numbers
-- of millionths. Statistics, the ledger and the clock, which these functions only write, are left out.
-- maybe_auto_promote_from_shadow is another name of maybe_advance_shadow_to_candidate there.
pub mod Authority
mod Tests
use recertia.Prelude.{
  ℕ, ◌==◌, String, Bool, true, false, not, ◌&&◌, ◌||◌, Option, none, some, List, [], ◌∷◌, str_eq,
  any, find, ltb, leb, is_some, Outcome, ok, raised, raise_if, ◌>>=◌, if◌then◌else◌,
}
use recertia.Prelude.Int.{ℤ, pos, ltb_ℤ, ◌-ℤ◌}
use recertia.Prelude.Rows.{update_where}

pub data Lifecycle : Type 0 where
  draft candidate shadow approved benched needs_recert deprecated quarantined : Lifecycle

-- `RETRIEVABLE_LIFECYCLES`
abbrev pub is_retrievable : Lifecycle → Bool
is_retrievable approved = true
is_retrievable shadow = true
is_retrievable _ = false

abbrev pub lifecycle_no : Lifecycle → ℕ
lifecycle_no draft = 0
lifecycle_no candidate = 1
lifecycle_no shadow = 2
lifecycle_no approved = 3
lifecycle_no benched = 4
lifecycle_no needs_recert = 5
lifecycle_no deprecated = 6
lifecycle_no quarantined = 7

abbrev pub is_lifecycle : Lifecycle → Lifecycle → Bool
is_lifecycle a b = lifecycle_no a == lifecycle_no b

pub record VersionRef : Type 0 where
  pub skill_id : String
  pub version : ℕ

abbrev pub same_ref : VersionRef → VersionRef → Bool
same_ref a b = str_eq a.skill_id b.skill_id && (a.version == b.version)

-- A stored version with its status: `SkillVersion` by what lifecycles read, and `SkillStatus`.
pub record Stored : Type 0 where
  pub ref : VersionRef
  pub uses : List VersionRef
  pub self_distilled : Bool
  pub lifecycle : Lifecycle
  pub active : Bool
  pub bench_evidence : Option String
  pub is_restored : Bool

pub data LifecycleError : Type 0 where
  not_found not_shadow lift_too_low too_few_applications too_few_successes : LifecycleError
  inapplicable below_floor not_negative not_benched : LifecycleError
  lifecycle_conflict approved_refused : LifecycleError

-- `AutonomyConfig`; the last is the quotient by `curation_prior_self_distilled`.
pub record AutonomyConfig : Type 0 where
  pub shadow_min_successes : ℕ
  pub shadow_min_applications : ℕ
  pub shadow_min_lift : ℤ
  pub quarantine_consecutive_failures : ℕ
  pub evidence_floor : ℕ
  pub retirement_threshold : ℤ
  pub self_distilled_min_lift : ℤ

-- What the evaluation store and the applicability gate say of a version.
pub record Evidence : Type 0 where
  pub shadow_trials : ℕ
  pub shadow_successes : ℕ
  pub estimate : Option ℤ
  pub interval_high : Option ℤ
  pub is_applicable : Bool
  pub text : String

-- `retirement_decision` of memory/procedural/retirement.py
pub data RetirementAction : Type 0 where
  too_little no_estimate no_interval keeps retires : RetirementAction

with_interval : ℤ → Option ℤ → RetirementAction
with_interval tau none = no_interval
with_interval tau (some high) = if ltb_ℤ high (pos 0 -ℤ tau) then retires else keeps

with_estimate : ℤ → Option ℤ → Option ℤ → RetirementAction
unfolding with_interval
with_estimate tau none high = no_estimate
with_estimate tau (some estimate) high = with_interval tau high

pub retirement_decision : AutonomyConfig → Evidence → RetirementAction
unfolding with_estimate
retirement_decision config e =
    let decided = with_estimate config.retirement_threshold e.estimate e.interval_high in
    if ltb e.shadow_trials config.evidence_floor then too_little else decided

abbrev pub is_at : VersionRef → Stored → Bool
is_at ref v = same_ref v.ref ref

-- The gates of `SkillStore.write_status`, on the stored status.
write_refused : Lifecycle → Lifecycle → Option Stored → Option LifecycleError
write_refused expected next none = some not_found
write_refused expected next (some v) =
    if not (is_lifecycle v.lifecycle expected)
    then some lifecycle_conflict
    else if is_lifecycle next approved && not (is_lifecycle v.lifecycle approved)
    then some approved_refused
    else none

unless : Option LifecycleError → List Stored → Outcome LifecycleError (List Stored)
unless none rows = ok rows
unless (some e) rows = raised e

-- `write_status` of a status whose lifecycle was read before.
pub write_status :
    VersionRef
    → Lifecycle
    → Lifecycle
    → (Stored → Stored)
    → List Stored
    → Outcome LifecycleError (List Stored)
unfolding write_refused unless
write_status ref expected next change rows =
    unless (write_refused expected next (find (is_at ref) rows))
      (update_where (is_at ref) (λ v. record (change v) { lifecycle = next }) rows)

-- `model_copy(update={"lifecycle": …, "active": False})` leaves the lifecycle to the write.
abbrev pub inactive : Stored → Stored
inactive v = record v { active = false }

abbrev get_status : VersionRef → List Stored → Outcome LifecycleError Stored
get_status ref rows = elim (find (is_at ref) rows) [ none ↦ raised not_found | some v ↦ ok v ]

below_lift : Option ℤ → ℤ → Bool
below_lift none bar = true
below_lift (some lift) bar = ltb_ℤ lift bar

-- `maybe_advance_shadow_to_candidate`
pub advance_to_candidate :
    AutonomyConfig → VersionRef → Evidence → List Stored → Outcome LifecycleError (List Stored)
unfolding below_lift
advance_to_candidate config ref e rows = get_status ref rows >>= λ v.
    raise_if (not (is_lifecycle v.lifecycle shadow)) not_shadow (
      raise_if (below_lift e.estimate config.shadow_min_lift) lift_too_low (
        raise_if (ltb e.shadow_trials config.shadow_min_applications) too_few_applications (
          raise_if (ltb e.shadow_successes config.shadow_min_successes) too_few_successes (
            raise_if (v.self_distilled && below_lift e.estimate config.self_distilled_min_lift)
              lift_too_low
              (raise_if (not e.is_applicable) inapplicable
                (write_status ref v.lifecycle candidate inactive rows))))))

pub quarantine_on_failures :
    AutonomyConfig → VersionRef → ℕ → List Stored → Outcome LifecycleError (List Stored)
quarantine_on_failures config ref failures rows = get_status ref rows >>= λ v.
    let quarantine = write_status ref v.lifecycle quarantined inactive rows in
    if ltb failures config.quarantine_consecutive_failures then ok rows else quarantine

abbrev uses_ref : VersionRef → Stored → Bool
uses_ref child v = any (λ u. same_ref u child) v.uses

-- `_mark_parents_needs_recert`
pub mark_parents_needs_recert : VersionRef → List Stored → List Stored
mark_parents_needs_recert child rows =
    update_where (λ v. uses_ref child v && is_retrievable v.lifecycle)
      (λ v. record v { lifecycle = needs_recert; active = false }) rows

benched_with : String → Stored → Stored
benched_with text v = record v { active = false; bench_evidence = some text; is_restored = false }

decided_bench :
    VersionRef
    → Evidence
    → Stored
    → List Stored
    → RetirementAction
    → Outcome LifecycleError (List Stored)
unfolding benched_with
decided_bench ref e v rows too_little = raised below_floor
decided_bench ref e v rows retires =
    write_status ref v.lifecycle benched (benched_with e.text) rows >>= λ written.
    ok (mark_parents_needs_recert ref written)
decided_bench ref e v rows no_estimate = raised not_negative
decided_bench ref e v rows no_interval = raised not_negative
decided_bench ref e v rows keeps = raised not_negative

-- `maybe_bench_on_contribution`
pub bench_on_contribution :
    AutonomyConfig → VersionRef → Evidence → List Stored → Outcome LifecycleError (List Stored)
unfolding decided_bench
bench_on_contribution config ref e rows =
    get_status ref rows >>= λ v. decided_bench ref e v rows (retirement_decision config e)

restored_from : Stored → Stored
restored_from v = record v { active = false; is_restored = true }

pub restore_benched : VersionRef → List Stored → Outcome LifecycleError (List Stored)
unfolding restored_from
restore_benched ref rows = get_status ref rows >>= λ v.
    raise_if (not (is_lifecycle v.lifecycle benched)) not_benched
      (write_status ref benched candidate restored_from rows)

-- One call, and any number of calls, the last one first; an error leaves the store as it was.
pub data Call : Type 0 where
  advances : VersionRef → Evidence → Call
  quarantines : VersionRef → ℕ → Call
  benches : VersionRef → Evidence → Call
  restores : VersionRef → Call

pub call : AutonomyConfig → Call → List Stored → Outcome LifecycleError (List Stored)
call config (advances ref e) rows = advance_to_candidate config ref e rows
call config (quarantines ref n) rows = quarantine_on_failures config ref n rows
call config (benches ref e) rows = bench_on_contribution config ref e rows
call config (restores ref) rows = restore_benched ref rows

abbrev or_same : List Stored → Outcome LifecycleError (List Stored) → List Stored
or_same rows (ok after) = after
or_same rows (raised e) = rows

pub after_calls : AutonomyConfig → List Call → List Stored → List Stored
unfolding call
after_calls config [] rows = rows
after_calls config (c ∷ calls) rows =
    let before = after_calls config calls rows in or_same before (call config c before)
