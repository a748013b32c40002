-- ===== src/Contracts/Policy.antt =====
-- contracts/policy.py: the weekly quota of improvement jobs. A share is a number of thousandths.
pub mod Admitted
mod Tests
use recertia.Prelude.{
  ℕ, ◌+◌, ◌-◌, ◌*◌, ◌/◌, min, max, String, Bool, true, false, not, ◌&&◌, ◌||◌, Option, none, some,
  List, [], ◌∷◌, ltb, leb, contains, if◌then◌else◌,
}
use recertia.Prelude.Dict.{Dict, get, put}

pub data JobPriority : Type 0 where
  recertifier curator_retire fail_cluster_author practice_band practice_hex compress : JobPriority

abbrev pub computer_use_task_classes : List String
computer_use_task_classes = "bug_reproduction" ∷ "playtest_operator" ∷ "docs_auditor" ∷ []

pub record JobQuota : Type 0 where
  pub weekly_token_cap : ℕ
  pub hex_share : ℕ
  pub max_hex_jobs_per_task_class : ℕ
  pub computer_use_practice_share : ℕ
  pub tokens_spent : ℕ
  pub hex_tokens_spent : ℕ
  pub computer_use_tokens_spent : ℕ
  pub hex_jobs_by_class : Dict

abbrev pub is_practice_hex : JobPriority → Bool
is_practice_hex practice_hex = true
is_practice_hex _ = false

-- `job in ("practice_band", "practice_hex")`
abbrev pub is_practice : JobPriority → Bool
is_practice practice_band = true
is_practice practice_hex = true
is_practice _ = false

abbrev pub computer_use_class : Option String → Bool
computer_use_class none = false
computer_use_class (some c) = contains c computer_use_task_classes

unfoldable pub remaining : JobQuota → ℕ
remaining q = q.weekly_token_cap - q.tokens_spent

-- `int(weekly_token_cap * share)`
abbrev pub share_cap : ℕ → ℕ → ℕ
share_cap cap share = cap * share / 1000

-- `_share_remaining`
unfoldable pub share_remaining : JobQuota → ℕ → ℕ → ℕ
unfolding remaining
share_remaining q spent share = min (share_cap q.weekly_token_cap share - spent) (remaining q)

unfoldable pub hex_remaining : JobQuota → ℕ
unfolding share_remaining
hex_remaining q = share_remaining q q.hex_tokens_spent q.hex_share

unfoldable pub computer_use_remaining : JobQuota → ℕ
unfolding share_remaining
computer_use_remaining q =
    share_remaining q q.computer_use_tokens_spent q.computer_use_practice_share

-- Whether a class has used up its jobs.
class_is_full : JobQuota → Option String → Bool
class_is_full q none = false
class_is_full q (some c) = leb q.max_hex_jobs_per_task_class (get c q.hex_jobs_by_class)

-- The last tests, by the job.
fits : JobQuota → JobPriority → Option String → ℕ → Bool
unfolding remaining hex_remaining class_is_full
fits q practice_hex task_class tokens =
    not (class_is_full q task_class) && (ltb 0 (hex_remaining q) && leb tokens (hex_remaining q))
fits q _ task_class tokens = leb tokens (remaining q)

pub can_admit : JobQuota → JobPriority → Option String → ℕ → Bool
unfolding remaining computer_use_remaining fits
can_admit q job task_class tokens =
    not (leb (remaining q) 0)
    && (not (
          computer_use_class task_class
          && is_practice job
          && (leb (computer_use_remaining q) 0 || ltb (computer_use_remaining q) tokens))
        && fits q job task_class tokens)

charged_jobs : JobPriority → Option String → Dict → Dict
charged_jobs practice_hex (some c) jobs = put c (get c jobs + 1) jobs
charged_jobs _ _ jobs = jobs

pub charge : JobQuota → JobPriority → ℕ → Option String → JobQuota
unfolding charged_jobs
charge q job tokens task_class = record q {
  tokens_spent = q.tokens_spent + tokens;
  hex_tokens_spent =
      if is_practice_hex job then q.hex_tokens_spent + tokens else q.hex_tokens_spent;
  computer_use_tokens_spent =
      if computer_use_class task_class && is_practice job
      then q.computer_use_tokens_spent + tokens
      else q.computer_use_tokens_spent;
  hex_jobs_by_class = charged_jobs job task_class q.hex_jobs_by_class;
}
