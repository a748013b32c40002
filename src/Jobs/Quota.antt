-- ===== src/Jobs/Quota.antt =====
-- jobs/quota_repo.py: the reservations against a weekly quota, as the rows of one tenant. The maps
-- of jobs by class stand parsed. A reservation's id and the readings of the clock, in seconds, are
-- arguments; the JSON sidecar is left out.
pub mod Rows
pub mod Caps
pub mod Finish
pub mod Reachable
mod Tests
use recertia.Prelude.{
  ℕ, ◌+◌, ◌-◌, ◌==◌, String, Bool, true, false, not, ◌&&◌, ◌||◌, Option, none, some, List, [], ◌∷◌,
  ◌++◌, str_eq, ltb, leb, find, is_none, is_some, is_empty, Outcome, ok, raised, raise_if,
  if◌then◌else◌,
}
use recertia.Prelude.Rows.{update_where}
use recertia.Prelude.Dict.{Dict, get, put, pop, merge}
use recertia.Contracts.Policy.{
  JobPriority, JobQuota, is_practice_hex, is_practice, computer_use_class, share_cap,
}

-- A row of `job_quota_week`.
pub record Week : Type 0 where
  pub week_id : String
  pub tokens_spent : ℕ
  pub tokens_reserved : ℕ
  pub hex_tokens_spent : ℕ
  pub hex_tokens_reserved : ℕ
  pub computer_use_tokens_spent : ℕ
  pub computer_use_tokens_reserved : ℕ
  pub hex_jobs_by_class : Dict
  pub hex_jobs_reserved : Dict

pub data Status : Type 0 where
  reserved settled released : Status

-- A row of `job_quota_ledger`.
pub record Reservation : Type 0 where
  pub reservation_id : String
  pub week_id : String
  pub job_name : String
  pub priority : JobPriority
  pub tokens_reserved : ℕ
  pub tokens_settled : Option ℕ
  pub computer_use_tokens : ℕ
  pub hex_tokens : ℕ
  pub task_class : Option String
  pub status : Status
  pub created_at : ℕ
  pub settled_at : Option ℕ

pub record QuotaDb : Type 0 where
  pub weeks : List Week
  pub ledger : List Reservation

pub data QuotaError : Type 0 where
  quota_exceeded duplicate_reservation : QuotaError

abbrev pub is_reserved : Status → Bool
is_reserved reserved = true
is_reserved _ = false

abbrev pub of_week : String → Week → Bool
of_week week row = str_eq row.week_id week

abbrev pub has_id : String → Reservation → Bool
has_id i r = str_eq r.reservation_id i

abbrev new_week : String → Week
new_week week = record {
  week_id = week;
  tokens_spent = 0;
  tokens_reserved = 0;
  hex_tokens_spent = 0;
  hex_tokens_reserved = 0;
  computer_use_tokens_spent = 0;
  computer_use_tokens_reserved = 0;
  hex_jobs_by_class = [];
  hex_jobs_reserved = [];
}

-- `_week`
abbrev pub week_row : String → List Week → Option Week
week_row week weeks = find (of_week week) weeks

unfoldable pub ensure_week : String → List Week → List Week
ensure_week week weeks =
    if is_none (week_row week weeks) then weeks ++ new_week week ∷ [] else weeks

-- What a reservation takes of each of the three caps.
pub record Amounts : Type 0 where
  pub tokens : ℕ
  pub hex_tokens : ℕ
  pub cu_tokens : ℕ

unfoldable pub amounts_of : JobPriority → ℕ → Option String → Amounts
amounts_of priority tokens task_class = record {
  tokens = tokens;
  hex_tokens = if is_practice_hex priority then tokens else 0;
  cu_tokens = if computer_use_class task_class && is_practice priority then tokens else 0;
}

-- `task_class if priority == "practice_hex" and task_class else None`
abbrev class_slot : JobPriority → Option String → Option String
class_slot priority none = none
class_slot priority (some c) =
    if is_practice_hex priority && not (str_eq c "") then some c else none

-- The three tests of `_hold` against the caps.
unfoldable pub over_caps : JobQuota → Week → Amounts → Bool
over_caps quota row a =
    ltb quota.weekly_token_cap (row.tokens_spent + row.tokens_reserved + a.tokens)
    || (ltb (share_cap quota.weekly_token_cap quota.hex_share)
          (row.hex_tokens_spent + row.hex_tokens_reserved + a.hex_tokens)
        || ltb (share_cap quota.weekly_token_cap quota.computer_use_practice_share)
            (row.computer_use_tokens_spent + row.computer_use_tokens_reserved + a.cu_tokens))

-- The reserved jobs with one more of the class, unless it has as many as it may.
hold_slot : JobQuota → Option String → Dict → Dict → Option Dict
hold_slot quota none settled_jobs reserved_jobs = some reserved_jobs
hold_slot quota (some c) settled_jobs reserved_jobs =
    if leb quota.max_hex_jobs_per_task_class (get c settled_jobs + get c reserved_jobs)
    then none
    else some (put c (get c reserved_jobs + 1) reserved_jobs)

unfoldable pub held : Amounts → Dict → Week → Week
held a jobs row = record row {
  tokens_reserved = row.tokens_reserved + a.tokens;
  hex_tokens_reserved = row.hex_tokens_reserved + a.hex_tokens;
  computer_use_tokens_reserved = row.computer_use_tokens_reserved + a.cu_tokens;
  hex_jobs_reserved = jobs;
}

update_held : String → Amounts → List Week → Option Dict → Option (List Week)
update_held week a weeks none = none
update_held week a weeks (some jobs) = some (update_where (of_week week) (held a jobs) weeks)

hold_row :
    JobQuota → String → Amounts → Option String → List Week → Option Week → Option (List Week)
unfolding over_caps hold_slot held update_held
hold_row quota week a slot weeks none = none
hold_row quota week a slot weeks (some row) =
    if over_caps quota row a
    then none
    else update_held week a weeks (hold_slot quota slot row.hex_jobs_by_class row.hex_jobs_reserved)

-- `_hold`: the updated rows, or none if it answers False.
unfoldable pub hold : JobQuota → String → Amounts → Option String → List Week → Option (List Week)
unfolding hold_row
hold quota week a slot weeks = hold_row quota week a slot weeks (week_row week weeks)

-- What a caller asks `reserve` for.
pub record Request : Type 0 where
  pub job : String
  pub priority : JobPriority
  pub tokens : ℕ
  pub task_class : Option String

unfoldable pub reservation : String → String → Request → ℕ → Reservation
reservation i week r stamp =
    let a = amounts_of r.priority r.tokens r.task_class in
    record {
      reservation_id = i;
      week_id = week;
      job_name = r.job;
      priority = r.priority;
      tokens_reserved = r.tokens;
      tokens_settled = none;
      computer_use_tokens = a.cu_tokens;
      hex_tokens = a.hex_tokens;
      task_class = class_slot r.priority r.task_class;
      status = reserved;
      created_at = stamp;
      settled_at = none;
    }

-- The insert, whose key must be new, and the commit.
inserted : Reservation → List Reservation → Option (List Week) → Outcome QuotaError QuotaDb
inserted r ledger none = raised quota_exceeded
inserted r ledger (some weeks) =
    raise_if (is_some (find (has_id r.reservation_id) ledger)) duplicate_reservation
      (ok (record { weeks = weeks; ledger = ledger ++ r ∷ [] }))

-- `reserve`; an error rolls everything back.
pub reserve : JobQuota → String → String → Request → ℕ → QuotaDb → Outcome QuotaError QuotaDb
unfolding inserted hold reservation amounts_of
reserve quota week i r stamp db = inserted (reservation i week r stamp) db.ledger (
    hold quota week (amounts_of r.priority r.tokens r.task_class)
      (class_slot r.priority r.task_class) (ensure_week week db.weeks))

-- `reserved[slot] = max(0, …)`, dropped where nothing is left.
abbrev drop_job : String → Dict → Dict
drop_job c jobs = if get c jobs - 1 == 0 then pop c jobs else put c (get c jobs - 1) jobs

freed_jobs : Option String → Dict → Dict
freed_jobs none jobs = jobs
freed_jobs (some c) jobs = drop_job c jobs

settled_jobs : Option String → Dict → Dict
settled_jobs none jobs = jobs
settled_jobs (some c) jobs = put c (get c jobs + 1) jobs

-- `_unhold` on the row of the reservation's week.
unfoldable pub unheld : Bool → Reservation → Week → Week
unfolding freed_jobs settled_jobs
unheld settle e row = record row {
  tokens_reserved = row.tokens_reserved - e.tokens_reserved;
  hex_tokens_reserved = row.hex_tokens_reserved - e.hex_tokens;
  computer_use_tokens_reserved = row.computer_use_tokens_reserved - e.computer_use_tokens;
  tokens_spent = if settle then row.tokens_spent + e.tokens_reserved else row.tokens_spent;
  hex_tokens_spent = if settle then row.hex_tokens_spent + e.hex_tokens else row.hex_tokens_spent;
  computer_use_tokens_spent =
      if settle
      then row.computer_use_tokens_spent + e.computer_use_tokens
      else row.computer_use_tokens_spent;
  hex_jobs_by_class =
      if settle then settled_jobs e.task_class row.hex_jobs_by_class else row.hex_jobs_by_class;
  hex_jobs_reserved = freed_jobs e.task_class row.hex_jobs_reserved;
}

unfoldable pub closed : Bool → ℕ → Reservation → Reservation
closed settle now e = record e {
  status = if settle then settled else released;
  tokens_settled = if settle then some e.tokens_reserved else none;
  settled_at = some now;
}

unfoldable pub finished : Bool → ℕ → String → Reservation → QuotaDb → QuotaDb
unfolding unheld closed
finished settle now i e db = record {
  weeks = update_where (of_week e.week_id) (unheld settle e) db.weeks;
  ledger = update_where (λ r. has_id i r && is_reserved r.status) (closed settle now) db.ledger;
}

finish_row : Bool → ℕ → String → QuotaDb → Option Reservation → QuotaDb
unfolding finished
finish_row settle now i db none = db
finish_row settle now i db (some e) =
    if is_reserved e.status then finished settle now i e db else db

-- `_finish`: `settle` with true and `release` with false.
pub finish : Bool → ℕ → String → QuotaDb → QuotaDb
unfolding finish_row
finish settle now i db = finish_row settle now i db (find (has_id i) db.ledger)

-- `_reserved_created`
reserved_created : List Reservation → List (String × ℕ)
reserved_created [] = []
reserved_created (r ∷ ledger) =
    let rest = reserved_created ledger in
    if is_reserved r.status then (r.reservation_id, r.created_at) ∷ rest else rest

release_old : ℕ → ℕ → List (String × ℕ) → QuotaDb → ℕ × QuotaDb
release_old ttl_s now [] db = (0, db)
release_old ttl_s now ((i, created_at) ∷ rows) db =
    let kept = release_old ttl_s now rows db in
    let (n, db') = release_old ttl_s now rows (finish false now i db) in
    if leb (created_at + ttl_s) now then (n + 1, db') else kept

-- `release_expired`, with its time to live.
pub release_expired : ℕ → ℕ → QuotaDb → ℕ × QuotaDb
unfolding release_old reserved_created
release_expired ttl_s now db = release_old ttl_s now (reserved_created db.ledger) db

-- `snapshot`
unfoldable snapshot_row : JobQuota → Option Week → JobQuota
snapshot_row base none = base
snapshot_row base (some row) = record base {
  tokens_spent = row.tokens_spent + row.tokens_reserved;
  hex_tokens_spent = row.hex_tokens_spent + row.hex_tokens_reserved;
  computer_use_tokens_spent = row.computer_use_tokens_spent + row.computer_use_tokens_reserved;
  hex_jobs_by_class = merge row.hex_jobs_by_class row.hex_jobs_reserved;
}

pub snapshot : JobQuota → String → QuotaDb → JobQuota
unfolding snapshot_row
snapshot base week db = snapshot_row base (week_row week db.weeks)

-- `totals`
totals_of : Option Week → ℕ × ℕ
totals_of none = (0, 0)
totals_of (some row) = (row.tokens_spent, row.tokens_reserved)

pub totals : String → QuotaDb → ℕ × ℕ
unfolding totals_of
totals week db = totals_of (week_row week db.weeks)

-- `seed_open_week`
pub seed_open_week : JobQuota → String → QuotaDb → QuotaDb
seed_open_week q week db =
    if q.tokens_spent == 0
        && (q.hex_tokens_spent == 0
            && (q.computer_use_tokens_spent == 0 && is_empty q.hex_jobs_by_class))
      || is_some (week_row week db.weeks)
    then db
    else record db {
      weeks =
          db.weeks
          ++ record (new_week week) {
            tokens_spent = q.tokens_spent;
            hex_tokens_spent = q.hex_tokens_spent;
            computer_use_tokens_spent = q.computer_use_tokens_spent;
            hex_jobs_by_class = q.hex_jobs_by_class;
          }
            ∷ [];
    }
