-- ===== src/Workers/Queue/Depth.antt =====
-- The cap on the depth of a tenant's queue.
use recertia.Prelude.{
  ℕ, ◌+◌, ◌≤◌, ◌≡◌, String, Bool, true, false, not, ◌&&◌, Option, none, some, List, [], ◌∷◌, ◌++◌,
  str_eq, count, leb, Outcome, ok, raised, if◌then◌else◌, arith, refl, subst, ok-injective,
}
use recertia.Prelude.Rows.{update_where}
use recertia.Workers.Queue.{
  is_terminal, is_queued, Item, QueueItem, QueueDb, Settings, QueueError, quota_exceeded,
  already_exists, unsupported_kind, has_key, depth, depth_cap, get, enqueue, enqueue_row, fresh,
  renewed, or_kept, ensure_tenant, known_kind,
}
use recertia.Workers.Queue.Tokens.{HasUniqueKeys}

count-update_most {ℓ} :
    {A : Type ℓ} (p q : A → Bool) (f : A → A) (xs : List A)
    → count q (update_where p f xs) ≤ count p xs + count q xs
count-update_most p q f [] = omega arith
count-update_most p q f (x ∷ xs) = ground (arith, count-update_most p q f xs)

count-append {ℓ} :
    {A : Type ℓ} (p : A → Bool) (xs : List A) (x : A) → count p (xs ++ x ∷ []) ≤ count p xs + 1
count-append p [] x = ground arith
count-append p (y ∷ ys) x = omega (arith, count-append p ys x)

guarded-within :
    (tenant : String) (cap : ℕ) (db db1 db' : QueueDb) (b : Bool)
    → leb cap (depth tenant db.run_queue) ≡ b
    → depth tenant db1.run_queue ≤ depth tenant db.run_queue + 1
    → (if b then raised quota_exceeded else ok db1) ≡ ok db'
    → depth tenant db'.run_queue ≤ cap
guarded-within tenant cap db db1 db' true e more h = cc
guarded-within tenant cap db db1 db' false e more h =
    subst (λ (d : QueueDb). depth tenant d.run_queue ≤ cap) (ok-injective h) (ground arith)

not_first :
    (b : Bool) (rest : Outcome QueueError QueueDb) (db' : QueueDb)
    → (if b then raised already_exists else rest) ≡ ok db'
    → rest ≡ ok db'
not_first true rest db' h = cc
not_first false rest db' h = h

enqueue_row-within :
    (st : Settings) (now : ℕ) (item : QueueItem) (replace : Bool) (db db' : QueueDb)
    (o : Option Item)
    → HasUniqueKeys db.run_queue
    → enqueue_row st now item replace db o ≡ ok db'
    → (depth item.tenant_id db'.run_queue ≤ depth_cap st item.tenant_id db)
unfolding enqueue_row depth
enqueue_row-within st now item replace db db' none unique h =
    let more =
      count-append (λ q. str_eq q.tenant_id item.tenant_id && is_queued q.status) db.run_queue
        (fresh st now item) in
    guarded-within item.tenant_id _ db _ db' _ refl more h
enqueue_row-within st now item replace db db' (some q) unique h =
    let more =
      count-update_most (has_key item.tenant_id item.run_id item.kind)
        (λ q. str_eq q.tenant_id item.tenant_id && is_queued q.status) (renewed st now item)
        db.run_queue in
    let one = unique item.tenant_id item.run_id item.kind in
    let add : depth item.tenant_id (
          update_where (has_key item.tenant_id item.run_id item.kind) (renewed st now item)
            db.run_queue)
        ≤ depth item.tenant_id db.run_queue + 1 =
      omega arith in
    guarded-within item.tenant_id _ db _ db' _ refl add
      (not_first (not (replace && is_terminal q.status)) _ db' h)

or_kept-none :
    (r : Outcome QueueError QueueDb) (db db' : QueueDb) → or_kept r db ≡ (none, db') → r ≡ ok db'
or_kept-none (ok d) db db' h = cc
or_kept-none (raised e) db db' h = cc

-- Where keys are unique, an item that `enqueue` accepts, new or in the place of a terminal row, leaves no more queued rows for
-- its tenant than the tenant's cap on the depth of its queue.
pub enqueue-keeps_depth :
    (st : Settings) (now : ℕ) (item : QueueItem) (replace : Bool) (db db' : QueueDb)
    → HasUniqueKeys db.run_queue
    → enqueue st now item replace db ≡ (none, db')
    → depth item.tenant_id db'.run_queue
      ≤ depth_cap st item.tenant_id (ensure_tenant st item.tenant_id db)
unfolding enqueue ensure_tenant
enqueue-keeps_depth st now item replace db db' unique h = split (not (known_kind item.kind)) h
  where
    db1 : QueueDb
    db1 = ensure_tenant st item.tenant_id db

    split :
        (b : Bool)
        → (if b
            then (some unsupported_kind, db)
            else or_kept
                (enqueue_row st now item replace db1 (get item.tenant_id item.run_id item.kind db1))
                db1)
          ≡ (none, db')
        → depth item.tenant_id db'.run_queue ≤ depth_cap st item.tenant_id db1
    split true g = cc
    split false g =
        enqueue_row-within st now item replace db1 db' _ unique (or_kept-none _ db1 db' g)
