-- ===== src/Workers/Queue/Tokens.antt =====
-- The claim token fences a claim: the invariants of the queue over all of its operations, and what
-- they mean for a claim that was overtaken.
pub mod Fencing
use recertia.Prelude.{
  map, ℕ, zero, suc, ◌+◌, ◌==◌, ◌≤◌, ◌<◌, ◌≡◌, ◌≢◌, ◌∙◌, String, Bool, true, false, not, ◌&&◌, ◌||◌,
  Option, none, some, List, [], ◌∷◌, ◌++◌, str_eq, str_eq_refl, find, any, count, ltb, leb, Outcome,
  ok, raised, if◌then◌else◌, All, arith, refl, sym, ap, subst, eq_iff, inl, inr, ◌⊎◌, &&-true,
  ok-injective, is_none,
}
use recertia.Prelude.Rows.{
  update_where, find-update_where-some, find-append_some, find-append_none, All-update_where,
}
use recertia.Workers.Queue.{
  Status, queued, claimed, running, is_terminal, is_held, is_queued, Item, QueueItem, Claim,
  QueueDb, Settings, QueueError, quota_exceeded, already_exists, unsupported_kind, stale_claim,
  has_key, depth, depth_cap, get, Mode, enqueue, enqueue_row, or_kept, fresh, renewed,
  ensure_tenant, set_max_in_flight, set_maintenance, register_worker, known_kind,
}
use recertia.Workers.Queue.Claims.{
  claim_one, claim_row, claimable, claim_of, charge_sched, pick, take_claim, is_open, under_claim,
  already_there, moved_to, transition, mark_running, QueueStatus, status_of, finish, put_back,
  requeue, heartbeat_claim, request_cancel,
}
use recertia.Workers.Queue.Orphans.{
  held_under, reconciled, reconcile_all, reconcile_orphans, orphans, heartbeat_worker,
}

-- What an operation may do to the rows of the queue.
pub data Change : List Item → List Item → Type 0 where
  -- an UPDATE that keeps keys and takes no token back
  updated :
      {rows : List Item}
      → (p : Item → Bool) (f : Item → Item)
      → ((q : Item) (t r k : String) → has_key t r k (f q) ≡ has_key t r k q)
      → ((q : Item) → q.claim_token ≤ (f q).claim_token)
      → Change rows (update_where p f rows)
  -- an INSERT under a free key
  inserted :
      {rows : List Item}
      → (q : Item) → find (has_key q.tenant_id q.run_id q.kind) rows ≡ none
      → Change rows (rows ++ q ∷ [])
  unchanged : {rows : List Item} → Change rows rows
  then_changed : {a b c : List Item} → Change a b → Change b c → Change a c

-- The primary key of the table.
abbrev pub HasUniqueKeys : List Item → Type 0
HasUniqueKeys rows = (t r k : String) → count (has_key t r k) rows ≤ 1

count-update_keys :
    (t r k : String) (p : Item → Bool) (f : Item → Item)
    → ((q : Item) (t r k : String) → has_key t r k (f q) ≡ has_key t r k q)
    → (rows : List Item)
    → count (has_key t r k) (update_where p f rows) ≡ count (has_key t r k) rows
count-update_keys t r k p f keeps [] = refl
count-update_keys t r k p f keeps (q ∷ rows) =
    ground (arith, keeps q t r k, count-update_keys t r k p f keeps rows)

count-append_one :
    (t r k : String) (q : Item) (rows : List Item)
    → count (has_key t r k) (rows ++ q ∷ [])
      ≡ count (has_key t r k) rows + count (has_key t r k) (q ∷ [])
count-append_one t r k q [] = omega arith
count-append_one t r k q (x ∷ rows) = omega (arith, count-append_one t r k q rows)

count-free :
    (t r k : String) (rows : List Item)
    → find (has_key t r k) rows ≡ none
    → count (has_key t r k) rows ≡ 0
count-free t r k [] h = refl
count-free t r k (q ∷ rows) h = ground (arith, count-free t r k rows)

has_key-same :
    (t r k : String) (q : Item)
    → has_key t r k q ≡ true
    → (q.tenant_id ≡ t) × (q.run_id ≡ r) × (q.kind ≡ k)
has_key-same t r k q h =
    let a = &&-true _ _ h in
    let b = &&-true _ _ a.1 in (eq_of q.tenant_id t a.0, eq_of q.run_id r b.0, eq_of q.kind k b.1)
  where
    eq_of : (a b : String) → str_eq a b ≡ true → a ≡ b
    eq_of a b = (eq_iff a b).0

unique-inserted :
    (rows : List Item) (q : Item)
    → find (has_key q.tenant_id q.run_id q.kind) rows ≡ none
    → HasUniqueKeys rows
    → (t r k : String) → count (has_key t r k) (rows ++ q ∷ []) ≤ 1
unique-inserted rows q free h t r k = split (has_key t r k q) refl
  where
    split : (b : Bool) → has_key t r k q ≡ b → count (has_key t r k) (rows ++ q ∷ []) ≤ 1
    split true e =
        let (et, er, ek) = has_key-same t r k q e in
        let none_there = count-free t r k rows (rw (et, er, ek) at free) in
        let total = count-append_one t r k q rows in ground arith
    split false e =
        let total = count-append_one t r k q rows in let before = h t r k in ground arith

pub Change-HasUniqueKeys : (a b : List Item) → Change a b → HasUniqueKeys a → HasUniqueKeys b
Change-HasUniqueKeys a _ (updated p f keys tokens) h t r k =
    rw (count-update_keys t r k p f keys a) (h t r k)
Change-HasUniqueKeys a _ (inserted q free) h t r k = unique-inserted a q free h t r k
Change-HasUniqueKeys a _ unchanged h t r k = h t r k
Change-HasUniqueKeys a c (then_changed x y) h t r k =
    Change-HasUniqueKeys _ c y (Change-HasUniqueKeys a _ x h) t r k

-- The token under a key, once there is one, never comes down.
pub Change-token :
    (a b : List Item)
    → Change a b
    → (t r k : String) (q : Item) → find (has_key t r k) a ≡ some q
    → (q' : Item) × (find (has_key t r k) b ≡ some q') × (q.claim_token ≤ q'.claim_token)
Change-token a _ (updated p f keys tokens) t r k q h = (
  if p q then f q else q,
  find-update_where-some p (has_key t r k) f (λ x _. keys x t r k) a q h,
  let more = tokens q in ground arith,
)
Change-token a _ (inserted x free) t r k q h =
    (q, find-append_some (has_key t r k) a (x ∷ []) q h, omega arith)
Change-token a _ unchanged t r k q h = (q, h, omega arith)
Change-token a c (then_changed x y) t r k q h =
    let (q1, h1, less1) = Change-token a _ x t r k q h in
    let (q2, h2, less2) = Change-token _ c y t r k q1 h1 in (q2, h2, omega arith)

-- The operations of the queue, in any order.
pub data QueueStep (st : Settings) (alive : ℕ → Bool) : QueueDb → QueueDb → Type 0 where
  enqueues :
      (now : ℕ) (item : QueueItem) (replace : Bool) (db : QueueDb)
      → QueueStep st alive db (enqueue st now item replace db).1
  claims :
      (worker : String) (now : ℕ) (db : QueueDb)
      → QueueStep st alive db (claim_one st worker now db).1
  marks :
      (now : ℕ) (c : Claim) (db db' : QueueDb)
      → mark_running now c db ≡ ok db'
      → QueueStep st alive db db'
  finishes :
      (now : ℕ) (c : Claim) (s : QueueStatus) (error : Option String) (db db' : QueueDb)
      → finish now c s error db ≡ ok db'
      → QueueStep st alive db db'
  requeues :
      (now delay : ℕ) (error : String) (c : Claim) (db db' : QueueDb)
      → requeue now delay error c db ≡ ok db'
      → QueueStep st alive db db'
  beats : (now : ℕ) (c : Claim) (db : QueueDb) → QueueStep st alive db (heartbeat_claim now c db)
  cancels : (t r k : String) (db : QueueDb) → QueueStep st alive db (request_cancel t r k db)
  reconciles : (now : ℕ) (db : QueueDb) → QueueStep st alive db (reconcile_orphans alive now db).1
  limits : (t : String) (n : ℕ) (db : QueueDb) → QueueStep st alive db (set_max_in_flight st t n db)
  maintains : (m : Mode) (db : QueueDb) → QueueStep st alive db (set_maintenance m db)
  registers :
      (now : ℕ) (id : String) (capacity : ℕ) (host : String) (pid : ℕ) (db : QueueDb)
      → QueueStep st alive db (register_worker now id capacity host pid db)
  worker_beats :
      (now : ℕ) (id : String) (db : QueueDb) → QueueStep st alive db (heartbeat_worker now id db)

enqueue_row-Change :
    (st : Settings) (now : ℕ) (item : QueueItem) (replace : Bool) (db db' : QueueDb)
    (o : Option Item)
    → get item.tenant_id item.run_id item.kind db ≡ o
    → enqueue_row st now item replace db o ≡ ok db'
    → Change db.run_queue db'.run_queue
unfolding get enqueue_row fresh renewed
enqueue_row-Change st now item replace db db' none free h =
    split (leb (depth_cap st item.tenant_id db) (depth item.tenant_id db.run_queue)) h
  where
    split :
        (b : Bool)
        → (if b
            then raised quota_exceeded
            else ok (record db { run_queue = db.run_queue ++ fresh st now item ∷ [] }))
          ≡ ok db'
        → Change db.run_queue db'.run_queue
    split true g = cc
    split false g =
        subst (λ (d : QueueDb). Change db.run_queue d.run_queue) (ok-injective g)
          (inserted (fresh st now item) free)
enqueue_row-Change st now item replace db db' (some q) there h =
    split (not (replace && is_terminal q.status))
      (leb (depth_cap st item.tenant_id db) (depth item.tenant_id db.run_queue)) h
  where
    split :
        (a b : Bool)
        → (if a
            then raised already_exists
            else if b
            then raised quota_exceeded
            else ok (record db {
              run_queue =
                  update_where
                    (has_key item.tenant_id item.run_id item.kind)
                    (renewed st now item)
                    db.run_queue;
            }))
          ≡ ok db'
        → Change db.run_queue db'.run_queue
    split true b g = cc
    split false true g = cc
    split false false g =
        subst (λ (d : QueueDb). Change db.run_queue d.run_queue) (ok-injective g)
          (updated (has_key item.tenant_id item.run_id item.kind) (renewed st now item)
            (λ _ _ _ _. refl) (λ _. omega arith))

or_kept-Change :
    (db : QueueDb) (r : Outcome QueueError QueueDb)
    → ((db' : QueueDb) → r ≡ ok db' → Change db.run_queue db'.run_queue)
    → Change db.run_queue ((or_kept r db).1).run_queue
or_kept-Change db (ok db') h = h db' refl
or_kept-Change db (raised e) h = unchanged

enqueue-Change :
    (st : Settings) (now : ℕ) (item : QueueItem) (replace : Bool) (db : QueueDb)
    → Change db.run_queue ((enqueue st now item replace db).1).run_queue
unfolding enqueue ensure_tenant
enqueue-Change st now item replace db = split (not (known_kind item.kind))
  where
    db1 : QueueDb
    db1 = ensure_tenant st item.tenant_id db

    split :
        (b : Bool)
        → Change db.run_queue
            ((if b
                then (some unsupported_kind, db)
                else or_kept
                    (enqueue_row st now item replace db1
                      (get item.tenant_id item.run_id item.kind db1))
                    db1).1
              ).run_queue
    split true = unchanged
    split false =
        or_kept-Change db1 _ (λ db' h. enqueue_row-Change st now item replace db1 db' _ refl h)

abbrev rows_after : Option Claim × QueueDb → List Item
rows_after (c, db) = db.run_queue

claim_one-Change :
    (st : Settings) (worker : String) (now : ℕ) (db : QueueDb)
    → Change db.run_queue (rows_after (claim_one st worker now db))
unfolding claim_one claim_row take_claim
claim_one-Change st worker now db = split (is_open db.maintenance) (pick now db db.run_queue)
  where
    granted :
        (p : Item) (b : Bool)
        → Change db.run_queue (
            rows_after (
              if not b then (none, db) else (
                some (claim_of p),
                record db {
                  run_queue = update_where (claimable p) (take_claim worker now) db.run_queue;
                  tenant_sched =
                      map (charge_sched st.sched_deficit_cap now p.tenant_id) db.tenant_sched;
                },
              )))
    granted p false = unchanged
    granted p true =
        updated (claimable p) (take_claim worker now) (λ _ _ _ _. refl) (λ _. omega arith)

    split :
        (b : Bool) (o : Option Item)
        → Change db.run_queue
            (rows_after (if not b then (none, db) else claim_row st worker now db o))
    split false o = unchanged
    split true none = unchanged
    split true (some p) = granted p (count (claimable p) db.run_queue == 1)

updated-Change :
    (db db' : QueueDb) (p : Item → Bool) (f : Item → Item) (b : Bool)
    (rest : Outcome QueueError QueueDb)
    → Change db.run_queue (update_where p f db.run_queue)
    → (rest ≡ ok db' → Change db.run_queue db'.run_queue)
    → (if b then ok (record db { run_queue = update_where p f db.run_queue }) else rest) ≡ ok db'
    → Change db.run_queue db'.run_queue
updated-Change db db' p f true rest change other h =
    subst (λ (d : QueueDb). Change db.run_queue d.run_queue) (ok-injective h) change
updated-Change db db' p f false rest change other h = other h

transition-Change :
    (now : ℕ) (c : Claim) (s : Status) (error : Option String) (from : Status → Bool)
    (db db' : QueueDb)
    → transition now c s error from db ≡ ok db'
    → Change db.run_queue db'.run_queue
unfolding transition moved_to
transition-Change now c s error from db db' h =
    updated-Change db db' (under_claim c from) (moved_to now s error) _ _
      (updated (under_claim c from) (moved_to now s error) (λ _ _ _ _. refl) (λ _. omega arith))
      (again (already_there c s (get c.tenant_id c.run_id c.kind db))) h
  where
    again :
        (b : Bool)
        → (if b then ok db else raised stale_claim) ≡ ok db'
        → Change db.run_queue db'.run_queue
    again true g =
        subst (λ (d : QueueDb). Change db.run_queue d.run_queue) (ok-injective g) unchanged
    again false g = cc

requeue-Change :
    (now delay : ℕ) (error : String) (c : Claim) (db db' : QueueDb)
    → requeue now delay error c db ≡ ok db'
    → Change db.run_queue db'.run_queue
unfolding requeue put_back
requeue-Change now delay error c db db' h =
    updated-Change db db' (under_claim c is_held) (put_back (now + delay) error) _ _
      (updated (under_claim c is_held) (put_back (now + delay) error) (λ _ _ _ _. refl)
        (λ _. omega arith))
      (λ (g : ◌≡◌ {A = Outcome QueueError QueueDb} (raised stale_claim) (ok db')). cc) h

reconciled-keeps :
    (alive : ℕ → Bool) (now : ℕ) (p q : Item)
    → ((t r k : String) → has_key t r k (reconciled alive now p q) ≡ has_key t r k q)
      × (q.claim_token ≤ (reconciled alive now p q).claim_token)
unfolding reconciled
reconciled-keeps alive now p q = (λ t r k. ground arith, ground arith)

reconcile_all-Change :
    (alive : ℕ → Bool) (now : ℕ) (found rows : List Item)
    → Change rows (reconcile_all alive now found rows)
unfolding reconcile_all
reconcile_all-Change alive now [] rows = unchanged
reconcile_all-Change alive now (p ∷ found) rows =
    then_changed
      (updated (held_under alive p) (reconciled alive now p)
        (λ q. (reconciled-keeps alive now p q).0) (λ q. (reconciled-keeps alive now p q).1))
      (reconcile_all-Change alive now found _)

module _ (st : Settings) (alive : ℕ → Bool) where
  pub step-Change :
      (db db' : QueueDb) → QueueStep st alive db db' → Change db.run_queue db'.run_queue
  unfolding heartbeat_claim request_cancel reconcile_orphans set_max_in_flight ensure_tenant
      set_maintenance register_worker heartbeat_worker mark_running finish
  step-Change db _ (enqueues now item replace _) = enqueue-Change st now item replace db
  step-Change db _ (claims worker now _) = claim_one-Change st worker now db
  step-Change db db' (marks now c _ _ h) = transition-Change now c _ _ _ db db' h
  step-Change db db' (finishes now c s error _ _ h) = transition-Change now c _ _ _ db db' h
  step-Change db db' (requeues now delay error c _ _ h) = requeue-Change now delay error c db db' h
  step-Change db _ (beats now c _) =
      updated (under_claim c is_held) (λ q. record q { heartbeat_at = some now }) (λ _ _ _ _. refl)
        (λ _. omega arith)
  step-Change db _ (cancels t r k _) =
      updated _ (λ q. record q { cancel_requested = true }) (λ _ _ _ _. refl) (λ _. omega arith)
  step-Change db _ (reconciles now _) =
      reconcile_all-Change alive now (orphans alive db) db.run_queue
  step-Change db _ (limits t n _) = unchanged
  step-Change db _ (maintains m _) = unchanged
  step-Change db _ (registers now id capacity host pid _) = unchanged
  step-Change db _ (worker_beats now id _) = unchanged
