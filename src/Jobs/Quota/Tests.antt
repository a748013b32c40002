-- ===== src/Jobs/Quota/Tests.antt =====
-- A reservation under a policy, and its settlement.
use recertia.Prelude.{◌+◌, ◌≤◌, ◌≡◌, true, false, some, [], ◌∷◌, ok, refl}
use native.Mathlib.Omega.{arith}
use recertia.Contracts.Policy.{JobQuota, practice_hex}
use recertia.Contracts.Policy.Admitted.{WithinCaps}
use recertia.Jobs.Quota.{
  QuotaDb, Request, week_row, reserve, finish, snapshot, ensure_week, hold, hold_row, hold_slot,
  held, over_caps, update_held, inserted, reservation, amounts_of,
}
use recertia.Jobs.Quota.Caps.{Sound, cap_of}
use recertia.Jobs.Quota.Rows.{all_tokens, outstanding}
use recertia.Jobs.Quota.Finish.{finish-finish}
use recertia.Jobs.Quota.Reachable.{
  Reachable, at_first, reserves, finishes, no_rows, Reachable-Sound, snapshot-counts, counted,
  spent_in_week,
}

abbrev policy : JobQuota
policy = record {
  weekly_token_cap = 1000;
  hex_share = 250;
  max_hex_jobs_per_task_class = 1;
  computer_use_practice_share = 150;
  tokens_spent = 0;
  hex_tokens_spent = 0;
  computer_use_tokens_spent = 0;
  hex_jobs_by_class = [];
}

abbrev practice : Request
practice = record {
  job = "practice";
  priority = practice_hex;
  tokens = 100;
  task_class = some "docs_auditor";
}

abbrev with_reservation : QuotaDb
with_reservation = record {
  weeks =
      record {
        week_id = "w1";
        tokens_spent = 0;
        tokens_reserved = 100;
        hex_tokens_spent = 0;
        hex_tokens_reserved = 100;
        computer_use_tokens_spent = 0;
        computer_use_tokens_reserved = 100;
        hex_jobs_by_class = [];
        hex_jobs_reserved = ("docs_auditor", 1) ∷ [];
      }
      ∷ [];
  ledger = reservation "r1" "w1" practice 5 ∷ [];
}

granted : reserve policy "w1" "r1" practice 5 no_rows ≡ ok with_reservation
unfolding reserve ensure_week hold hold_row hold_slot held over_caps update_held inserted amounts_of
    reservation
granted = refl

settled_once : Reachable policy (finish true 9 "r1" with_reservation)
settled_once = finishes true 9 "r1" (reserves "w1" "r1" practice 5 at_first granted)

policy-WithinCaps : WithinCaps policy
policy-WithinCaps = record {
  tokens = omega arith;
  hex_tokens = omega arith;
  computer_use_tokens = omega arith;
}

Reachable-Sound_example : Sound policy (finish true 9 "r1" with_reservation)
Reachable-Sound_example = Reachable-Sound policy settled_once

snapshot-counts_example :
    (counted policy (snapshot policy "w1" (finish true 9 "r1" with_reservation)) all_tokens
      ≡ spent_in_week policy (week_row "w1" (finish true 9 "r1" with_reservation).weeks) all_tokens
        + outstanding all_tokens "w1" (finish true 9 "r1" with_reservation).ledger)
    × (counted policy (snapshot policy "w1" (finish true 9 "r1" with_reservation)) all_tokens
        ≤ cap_of policy all_tokens)
snapshot-counts_example = snapshot-counts policy settled_once policy-WithinCaps "w1" all_tokens

finish-finish_example :
    finish false 12 "r1" (finish true 9 "r1" with_reservation) ≡ finish true 9 "r1" with_reservation
finish-finish_example = finish-finish true false 9 12 "r1" with_reservation
