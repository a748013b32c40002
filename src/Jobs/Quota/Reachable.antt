-- ===== src/Jobs/Quota/Reachable.antt =====
-- What holds of every state that the operations on a quota's database lead to.
use recertia.Prelude.{
  ℕ, ◌+◌, ◌≤◌, ◌≡◌, String, Bool, true, false, Option, none, some, List, [], ◌∷◌, arith, refl, ok,
  leb, if◌then◌else◌,
}
use recertia.Contracts.Policy.{JobQuota}
use recertia.Contracts.Policy.Admitted.{WithinCaps}
use recertia.Jobs.Quota.{
  Week, Reservation, QuotaDb, Request, week_row, reserve, finish, release_expired, release_old,
  reserved_created, snapshot, snapshot_row,
}
use recertia.Jobs.Quota.Rows.{
  Cap, all_tokens, hex, computer_use, spent_of, reserved_of, outstanding,
}
use recertia.Jobs.Quota.Caps.{cap_of, Sound, WeekSound, reserve-Sound}
use recertia.Jobs.Quota.Finish.{finish-Sound}

abbrev pub no_rows : QuotaDb
no_rows = record { weeks = []; ledger = [] }

-- The operations, in any order, from an empty database, under one policy.
pub data Reachable (q : JobQuota) : QuotaDb → Type 0 where
  at_first : Reachable q no_rows
  reserves :
      {db db' : QuotaDb} (week i : String) (r : Request) (stamp : ℕ)
      → Reachable q db
      → reserve q week i r stamp db ≡ ok db'
      → Reachable q db'
  finishes :
      {db : QuotaDb} (settle : Bool) (now : ℕ) (i : String)
      → Reachable q db
      → Reachable q (finish settle now i db)
  expires :
      {db : QuotaDb} (ttl_s now : ℕ) → Reachable q db → Reachable q (release_expired ttl_s now db).1

module _ (q : JobQuota) where
  release_old-Sound :
      (ttl_s now : ℕ) (rows : List (String × ℕ)) (db : QuotaDb)
      → Sound q db
      → Sound q (release_old ttl_s now rows db).1
  unfolding release_old
  release_old-Sound ttl_s now [] db sound = sound
  release_old-Sound ttl_s now ((i, created_at) ∷ rows) db sound =
      pick (leb (created_at + ttl_s) now)
        (release_old-Sound ttl_s now rows (finish false now i db)
          (finish-Sound q false now i db sound))
        (release_old-Sound ttl_s now rows db sound)
    where
      pick :
          (b : Bool)
          → Sound q (release_old ttl_s now rows (finish false now i db)).1
          → Sound q (release_old ttl_s now rows db).1
          → Sound q
              (if b
                then (
                  (release_old ttl_s now rows (finish false now i db)).0 + 1,
                  (release_old ttl_s now rows (finish false now i db)).1,
                )
                else release_old ttl_s now rows db).1
      pick true freed kept = freed
      pick false freed kept = kept

  -- Whatever is reserved, settled, released and left to expire under one policy: no reservation id
  -- stands twice, a week's row says of each cap exactly what its open reservations hold, and spent and
  -- reserved together stay within the cap.
  pub Reachable-Sound : {db : QuotaDb} → Reachable q db → Sound q db
  unfolding release_expired
  Reachable-Sound at_first = record { unique = λ i. omega arith; weeks = λ week k. refl }
  Reachable-Sound (reserves {db} {db'} week i r stamp before granted) =
      reserve-Sound q week i r stamp db db' (Reachable-Sound before) granted
  Reachable-Sound (finishes {db} settle now i before) =
      finish-Sound q settle now i db (Reachable-Sound before)
  Reachable-Sound (expires {db} ttl_s now before) =
      release_old-Sound ttl_s now (reserved_created db.ledger) db (Reachable-Sound before)

  -- What a policy counts as spent against a cap.
  abbrev pub counted : JobQuota → Cap → ℕ
  counted p all_tokens = p.tokens_spent
  counted p hex = p.hex_tokens_spent
  counted p computer_use = p.computer_use_tokens_spent

  -- What is spent in a week; the policy's own count where the week has no row.
  abbrev pub spent_in_week : Option Week → Cap → ℕ
  spent_in_week none k = counted q k
  spent_in_week (some row) k = spent_of k row

  base-le : WithinCaps q → (k : Cap) → counted q k ≤ cap_of q k
  base-le base all_tokens = base.tokens
  base-le base hex = base.hex_tokens
  base-le base computer_use = base.computer_use_tokens

  counted_row :
      (row : Week) (k : Cap)
      → counted (snapshot_row q (some row)) k ≡ spent_of k row + reserved_of k row
  unfolding snapshot_row
  counted_row row all_tokens = refl
  counted_row row hex = refl
  counted_row row computer_use = refl

  snapshot_row-counts :
      (ledger : List Reservation) (week : String) (o : Option Week)
      → WeekSound q ledger week o
      → WithinCaps q
      → (k : Cap)
      → (counted (snapshot_row q o) k ≡ spent_in_week o k + outstanding k week ledger)
        × (counted (snapshot_row q o) k ≤ cap_of q k)
  unfolding snapshot_row
  snapshot_row-counts ledger week none sound base k = (rw (sound k) (omega arith), base-le base k)
  snapshot_row-counts ledger week (some row) sound base k =
      (rw (counted_row row k, (sound k).0) refl, rw (counted_row row k) (sound k).1)

  -- In every such state, for each cap, the snapshot of a week, which admission reads, counts what the
  -- week has spent and what its open reservations hold, and that is within the cap, if the policy's
  -- own counts are within the caps. In a week without a row the policy's own counts are what is spent.
  pub snapshot-counts :
      {db : QuotaDb}
      → Reachable q db
      → WithinCaps q
      → (week : String) (k : Cap)
      → (counted (snapshot q week db) k
          ≡ spent_in_week (week_row week db.weeks) k + outstanding k week db.ledger)
        × (counted (snapshot q week db) k ≤ cap_of q k)
  unfolding snapshot
  snapshot-counts {db} reached base week k =
      snapshot_row-counts db.ledger week (week_row week db.weeks)
        ((Reachable-Sound reached).weeks week) base k
