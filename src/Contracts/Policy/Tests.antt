-- ===== src/Contracts/Policy/Tests.antt =====
-- A practice job of a class that counts against all three caps.
use recertia.Prelude.{◌≡◌, true, some, [], refl}
use recertia.Contracts.Policy.{
  JobQuota, practice_hex, can_admit, fits, remaining, hex_remaining, computer_use_remaining,
  share_remaining, class_is_full,
}
use recertia.Contracts.Policy.Admitted.{WithinCaps}
use native.Mathlib.Omega.{arith}

abbrev quota : JobQuota
quota = record {
  weekly_token_cap = 1000;
  hex_share = 250;
  max_hex_jobs_per_task_class = 1;
  computer_use_practice_share = 150;
  tokens_spent = 400;
  hex_tokens_spent = 100;
  computer_use_tokens_spent = 50;
  hex_jobs_by_class = [];
}

within : WithinCaps quota
within = record {
  tokens = omega arith;
  hex_tokens = omega arith;
  computer_use_tokens = omega arith;
}

admits : can_admit quota practice_hex (some "docs_auditor") 100 ≡ true
unfolding can_admit fits remaining hex_remaining computer_use_remaining share_remaining
    class_is_full
admits = refl
