-- ===== src/Workers/Queue/Claims.antt =====
-- workers/queue.py: claiming a row, and what a claim may do to it. An UPDATE under a key and a token
-- touches one row at most, by the primary key; the model writes out that it touches one.
pub mod InFlight
use recertia.Prelude.{
  ℕ, zero, suc, ◌+◌, ◌==◌, String, Bool, true, false, not, ◌&&◌, ◌||◌, Option, none, some, List, [],
  ◌∷◌, str_eq, find, any, count, ltb, leb, Outcome, ok, raised, if◌then◌else◌, map,
}
use recertia.Prelude.Int.{ℤ, pos, ◌+ℤ◌, ◌-ℤ◌, min_ℤ, ltb_ℤ, eq_ℤ}
use recertia.Prelude.Rows.{update_where}
use recertia.Workers.Queue.{
  Status, queued, claimed, running, succeeded, failed, cancelled, dead, is_terminal, is_held,
  is_queued, Item, Claim, Sched, QueueDb, Settings, QueueError, stale_claim, has_key, of_tenant,
  occupied, get, sched_of, Mode, open_mode,
}

-- The limit of a tenant on the rows that are held for it, where it is given one.
unfoldable pub limit_of : String → QueueDb → Option ℕ
limit_of tenant db = elim (find (of_tenant tenant) db.tenant_limits) [
  | none ↦ none
  | some lim ↦ some lim.max_in_flight
]

abbrev pub below_limit : ℕ → Option ℕ → Bool
below_limit n none = false
below_limit n (some m) = ltb n m

-- The rows that `_claim_one` chooses from.
unfoldable pub eligible : ℕ → QueueDb → Item → Bool
eligible now db q =
    is_queued q.status
    && (leb q.not_before now
        && (any (sched_of q.tenant_id) db.tenant_sched
            && below_limit (occupied q.tenant_id db.run_queue) (limit_of q.tenant_id db)))

abbrev pub deficit_of : QueueDb → Item → ℤ
deficit_of db q = elim (find (sched_of q.tenant_id) db.tenant_sched) [
  | none ↦ pos 0
  | some s ↦ s.deficit
]

-- `ORDER BY s.deficit DESC, q.enqueued_at ASC`: whether `a` stands before `b`.
unfoldable pub stands_before : QueueDb → Item → Item → Bool
stands_before db a b =
    ltb_ℤ (deficit_of db b) (deficit_of db a)
    || (eq_ℤ (deficit_of db a) (deficit_of db b) && ltb a.enqueued_at b.enqueued_at)

abbrev pub better : QueueDb → Item → Option Item → Option Item
better db q none = some q
better db q (some r) = if stands_before db r q then some r else some q

-- The first row in the order, and of equal rows the one that is stored first.
unfoldable pub pick : ℕ → QueueDb → List Item → Option Item
pick now db [] = none
pick now db (q ∷ rows) =
    let rest = pick now db rows in if eligible now db q then better db q rest else rest

abbrev pub claimable : Item → Item → Bool
claimable p q = has_key p.tenant_id p.run_id p.kind q && is_queued q.status

unfoldable pub take_claim : String → ℕ → Item → Item
take_claim worker now q = record q {
  status = claimed;
  claimed_by = some worker;
  claim_token = q.claim_token + 1;
  heartbeat_at = some now;
}

-- The deficits after a claim: every other tenant gains its weight, up to the cap.
unfoldable pub charge_sched : ℕ → ℕ → String → Sched → Sched
charge_sched cap now tenant s =
    if sched_of tenant s
    then record s { deficit = s.deficit -ℤ pos 1; last_claim_at = some now }
    else record s { deficit = min_ℤ (s.deficit +ℤ pos s.weight) (pos cap) }

abbrev pub claim_of : Item → Claim
claim_of p = record {
  tenant_id = p.tenant_id;
  run_id = p.run_id;
  kind = p.kind;
  claim_token = p.claim_token + 1;
  attempt = p.attempt;
  payload = p.payload;
}

unfoldable pub claim_row : Settings → String → ℕ → QueueDb → Option Item → Option Claim × QueueDb
claim_row st worker now db none = (none, db)
claim_row st worker now db (some p) =
    if not (count (claimable p) db.run_queue == 1) then (none, db) else (
      some (claim_of p),
      record db {
        run_queue = update_where (claimable p) (take_claim worker now) db.run_queue;
        tenant_sched = map (charge_sched st.sched_deficit_cap now p.tenant_id) db.tenant_sched;
      },
    )

abbrev pub is_open : Option Mode → Bool
is_open (some open_mode) = true
is_open _ = false

-- `_claim_one`
unfoldable pub claim_one : Settings → String → ℕ → QueueDb → Option Claim × QueueDb
unfolding claim_row
claim_one st worker now db =
    if not (is_open db.maintenance)
    then (none, db)
    else claim_row st worker now db (pick now db db.run_queue)

-- `claim`, at most once for each of the times at which it would ask: it stops at the first refusal.
pub claim : Settings → String → List ℕ → QueueDb → List Claim × QueueDb
claim st worker [] db = ([], db)
claim st worker (now ∷ times) db =
    let (one, db1) = claim_one st worker now db in
    elim one [
      | none ↦ ([], db1)
      | some c ↦ let (rest, db2) = claim st worker times db1 in (c ∷ rest, db2)
    ]

-- The rows that an UPDATE under a claim's token touches.
abbrev pub under_claim : Claim → (Status → Bool) → Item → Bool
under_claim c from q =
    has_key c.tenant_id c.run_id c.kind q && (q.claim_token == c.claim_token && from q.status)

abbrev pub same_status : Status → Status → Bool
same_status queued queued = true
same_status claimed claimed = true
same_status running running = true
same_status succeeded succeeded = true
same_status failed failed = true
same_status cancelled cancelled = true
same_status dead dead = true
same_status _ _ = false

-- The answer to an UPDATE that touched no row: fine if the row is there already.
unfoldable pub already_there : Claim → Status → Option Item → Bool
already_there c status none = false
already_there c status (some q) = same_status q.status status && q.claim_token == c.claim_token

unfoldable pub moved_to : ℕ → Status → Option String → Item → Item
moved_to now status error q = record q {
  status = status;
  heartbeat_at = some now;
  error_code = error;
  finished_at = if is_terminal status then some now else q.finished_at;
}

-- `_transition`
unfoldable pub transition :
    ℕ → Claim → Status → Option String → (Status → Bool) → QueueDb → Outcome QueueError QueueDb
unfolding already_there moved_to
transition now c status error from db =
    if count (under_claim c from) db.run_queue == 1
    then ok (record db {
      run_queue = update_where (under_claim c from) (moved_to now status error) db.run_queue;
    })
    else if already_there c status (get c.tenant_id c.run_id c.kind db)
    then ok db
    else raised stale_claim

abbrev pub is_claimed : Status → Bool
is_claimed claimed = true
is_claimed _ = false

unfoldable pub mark_running : ℕ → Claim → QueueDb → Outcome QueueError QueueDb
unfolding transition
mark_running now c db = transition now c running none is_claimed db

-- `QueueStatus`
pub data QueueStatus : Type 0 where
  run_succeeded run_failed run_cancelled : QueueStatus

abbrev pub status_of : QueueStatus → Status
status_of run_succeeded = succeeded
status_of run_failed = failed
status_of run_cancelled = cancelled

unfoldable pub finish :
    ℕ → Claim → QueueStatus → Option String → QueueDb → Outcome QueueError QueueDb
unfolding transition
finish now c status error db = transition now c (status_of status) error is_held db

unfoldable pub put_back : ℕ → String → Item → Item
put_back due error q = record q {
  status = queued;
  claimed_by = none;
  heartbeat_at = none;
  not_before = due;
  error_code = some error;
}

-- `requeue`
unfoldable pub requeue : ℕ → ℕ → String → Claim → QueueDb → Outcome QueueError QueueDb
unfolding put_back
requeue now delay error c db =
    if count (under_claim c is_held) db.run_queue == 1
    then ok (record db {
      run_queue = update_where (under_claim c is_held) (put_back (now + delay) error) db.run_queue;
    })
    else raised stale_claim

unfoldable pub heartbeat_claim : ℕ → Claim → QueueDb → QueueDb
heartbeat_claim now c db = record db {
  run_queue =
      update_where (under_claim c is_held) (λ q. record q { heartbeat_at = some now }) db.run_queue;
}

unfoldable pub request_cancel : String → String → String → QueueDb → QueueDb
request_cancel tenant run kind db = record db {
  run_queue =
      update_where (λ q. has_key tenant run kind q && (is_queued q.status || is_held q.status))
        (λ q. record q { cancel_requested = true }) db.run_queue;
}

pub cancel_requested : String → String → String → QueueDb → Bool
cancel_requested tenant run kind db = elim (get tenant run kind db) [
  | none ↦ false
  | some q ↦ q.cancel_requested
]
