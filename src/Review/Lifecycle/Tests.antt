-- ===== src/Review/Lifecycle/Tests.antt =====
-- Two versions, a parent and its child: the child is benched and restored, a third call is refused.
use recertia.Prelude.{true, false, some, none, List, [], ◌∷◌, find, ◌≡◌, refl}
use recertia.Prelude.Int.{pos, negsuc, ◌-ℤ◌}
use recertia.Review.Lifecycle.{
  approved, VersionRef, Stored, AutonomyConfig, Evidence, is_at, write_refused, unless,
  write_status, below_lift, advance_to_candidate, with_interval, with_estimate, retirement_decision,
  benched_with, decided_bench, mark_parents_needs_recert, bench_on_contribution, restored_from,
  restore_benched, Call, advances, benches, restores, call, after_calls,
}
use recertia.Review.Lifecycle.Authority.{after_calls-KeepsApproved}

abbrev child : VersionRef
child = record { skill_id = "parse"; version = 1 }

abbrev parent : VersionRef
parent = record { skill_id = "report"; version = 2 }

abbrev other : VersionRef
other = record { skill_id = "audit"; version = 1 }

abbrev child_row : Stored
child_row = record {
  ref = child;
  uses = [];
  self_distilled = false;
  lifecycle = approved;
  active = true;
  bench_evidence = none;
  is_restored = false;
}

abbrev parent_row : Stored
parent_row = record child_row { ref = parent; uses = child ∷ [] }

abbrev other_row : Stored
other_row = record child_row { ref = other }

abbrev config : AutonomyConfig
config = record {
  shadow_min_successes = 5;
  shadow_min_applications = 8;
  shadow_min_lift = pos 50000;
  quarantine_consecutive_failures = 2;
  evidence_floor = 30;
  retirement_threshold = pos 50000;
  self_distilled_min_lift = pos 58824;
}

abbrev harm : Evidence
harm = record {
  shadow_trials = 40;
  shadow_successes = 10;
  estimate = some (negsuc 200000);
  interval_high = some (negsuc 90000);
  is_applicable = true;
  text = "estimate=-0.2";
}

abbrev rows : List Stored
rows = child_row ∷ parent_row ∷ other_row ∷ []

abbrev calls : List Call
calls = advances other harm ∷ restores child ∷ benches child harm ∷ []

abbrev rows_after : List Stored
rows_after = after_calls config calls rows

other_stays : find (is_at other) rows_after ≡ some other_row
unfolding after_calls call advance_to_candidate restore_benched restored_from bench_on_contribution
    decided_bench benched_with retirement_decision with_estimate with_interval write_status
    write_refused unless mark_parents_needs_recert below_lift ◌-ℤ◌
other_stays = refl

after_calls-KeepsApproved_example : find (is_at other) rows ≡ some other_row
after_calls-KeepsApproved_example =
    after_calls-KeepsApproved config calls rows other other_row other_stays refl
