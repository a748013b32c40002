-- ===== src/Contracts/Policy/Admitted.antt =====
-- A job that the quota admits can be charged.
use recertia.Prelude.{
  ℕ, ◌≤◌, ◌≡◌, Bool, true, false, Option, String, arith, ◌+◌, not, ◌||◌, ◌&&◌, &&-true, leb, ltb,
  if◌then◌else◌,
}
use recertia.Contracts.Policy.{
  JobPriority, recertifier, curator_retire, fail_cluster_author, practice_band, practice_hex,
  compress, JobQuota, share_cap, can_admit, charge, fits, remaining, hex_remaining,
  computer_use_remaining, share_remaining, computer_use_class, is_practice, is_practice_hex,
}

-- What was spent is within the weekly cap and its two shares.
pub record WithinCaps (q : JobQuota) : Type 0 where
  pub tokens : q.tokens_spent ≤ q.weekly_token_cap
  pub hex_tokens : q.hex_tokens_spent ≤ share_cap q.weekly_token_cap q.hex_share
  pub computer_use_tokens :
      q.computer_use_tokens_spent ≤ share_cap q.weekly_token_cap q.computer_use_practice_share

module _ (q : JobQuota) (tokens : ℕ) where
  fits-remaining :
      (job : JobPriority) (task_class : Option String)
      → fits q job task_class tokens ≡ true
      → tokens ≤ remaining q
  unfolding fits remaining hex_remaining share_remaining
  fits-remaining practice_hex task_class h = ground arith
  fits-remaining recertifier task_class h = ground arith
  fits-remaining curator_retire task_class h = ground arith
  fits-remaining fail_cluster_author task_class h = ground arith
  fits-remaining practice_band task_class h = ground arith
  fits-remaining compress task_class h = ground arith

  fits-hex :
      (job : JobPriority) (task_class : Option String)
      → fits q job task_class tokens ≡ true
      → q.hex_tokens_spent ≤ share_cap q.weekly_token_cap q.hex_share
      → (if is_practice_hex job then q.hex_tokens_spent + tokens else q.hex_tokens_spent)
        ≤ share_cap q.weekly_token_cap q.hex_share
  unfolding fits hex_remaining share_remaining
  fits-hex practice_hex task_class fit h = ground arith
  fits-hex recertifier task_class fit h = h
  fits-hex curator_retire task_class fit h = h
  fits-hex fail_cluster_author task_class fit h = h
  fits-hex practice_band task_class fit h = h
  fits-hex compress task_class fit h = h

  computer_use-fits :
      (counts : Bool)
      → not (counts && (leb (computer_use_remaining q) 0 || ltb (computer_use_remaining q) tokens))
        ≡ true
      → q.computer_use_tokens_spent ≤ share_cap q.weekly_token_cap q.computer_use_practice_share
      → (if counts then q.computer_use_tokens_spent + tokens else q.computer_use_tokens_spent)
        ≤ share_cap q.weekly_token_cap q.computer_use_practice_share
  unfolding computer_use_remaining share_remaining
  computer_use-fits false fit h = h
  computer_use-fits true fit h = ground arith

-- If the spend of a quota is within its caps and it admits a job, then it still is once the job's
-- tokens are charged.
charge-WithinCaps :
    (q : JobQuota) (job : JobPriority) (task_class : Option String) (tokens : ℕ)
    → WithinCaps q
    → can_admit q job task_class tokens ≡ true
    → WithinCaps (charge q job tokens task_class)
unfolding can_admit charge remaining
charge-WithinCaps q job task_class tokens h admitted =
    let counts = computer_use_class task_class && is_practice job in
    let rest = (&&-true (not (leb (remaining q) 0)) _ admitted).1 in
    let (practice, fit) = &&-true _ (fits q job task_class tokens) rest in
    record {
      tokens =
          let left = fits-remaining q tokens job task_class fit in
          let spent = h.tokens in omega arith;
      hex_tokens = fits-hex q tokens job task_class fit h.hex_tokens;
      computer_use_tokens = computer_use-fits q tokens counts practice h.computer_use_tokens;
    }
