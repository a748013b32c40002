-- ===== src/Workers/Queue/Claims/InFlight.antt =====
-- The limits on what is held for a tenant.
use recertia.Prelude.{
  ◌∙◌, ℕ, ◌+◌, ◌==◌, ◌≤◌, ◌≡◌, ◌≢◌, String, Bool, true, false, not, ◌&&◌, Option, none, some, List,
  [], ◌∷◌, str_eq, count, if◌then◌else◌, arith, refl, sym, ap, subst, ◌⊎◌, eq_iff, inl, inr,
}
use recertia.Prelude.Rows.{update_where}
use recertia.Workers.Queue.{
  Status, queued, is_held, is_queued, Item, Claim, QueueDb, Settings, occupied, Mode, open_mode,
}
use recertia.Workers.Queue.Claims.{
  claim_one, claim_row, claimable, take_claim, pick, eligible, limit_of, claim_of, is_open,
  below_limit, better, stands_before,
}

-- An update moves as many rows into a class as it takes hold of, where none of them was in it.
count-update_enters {ℓ} :
    {A : Type ℓ} (p q : A → Bool) (f : A → A)
    → ((x : A) → p x ≡ true → (q x ≡ false) × (q (f x) ≡ true))
    → (xs : List A) → count q (update_where p f xs) ≡ count p xs + count q xs
count-update_enters p q f enters [] = omega arith
count-update_enters p q f enters (x ∷ xs) =
    ground (arith, enters x, count-update_enters p q f enters xs)

count-update_same {ℓ} :
    {A : Type ℓ} (p q : A → Bool) (f : A → A)
    → ((x : A) → p x ≡ true → q (f x) ≡ q x)
    → (xs : List A) → count q (update_where p f xs) ≡ count q xs
count-update_same p q f same [] = omega arith
count-update_same p q f same (x ∷ xs) = ground (arith, same x, count-update_same p q f same xs)

pub better-either :
    (db : QueueDb) (q p : Item) (o : Option Item) → better db q o ≡ some p → (q ≡ p) ⊎ (o ≡ some p)
better-either db q p none h = inl (cc)
better-either db q p (some r) h = split (stands_before db r q) h
  where
    split : (b : Bool) → (if b then some r else some q) ≡ some p → (q ≡ p) ⊎ (some r ≡ some p)
    split true e = inr e
    split false e = inl cc

pick-eligible :
    (now : ℕ) (db : QueueDb) (rows : List Item) (p : Item)
    → pick now db rows ≡ some p
    → eligible now db p ≡ true
unfolding pick
pick-eligible now db [] p h = cc
pick-eligible now db (q ∷ rows) p h = split (eligible now db q) refl h (pick-eligible now db rows p)
  where
    split :
        (b : Bool)
        → eligible now db q ≡ b
        → (if b then better db q (pick now db rows) else pick now db rows) ≡ some p
        → (pick now db rows ≡ some p → eligible now db p ≡ true)
        → eligible now db p ≡ true
    split false e g later = later g
    split true e g later = elim (better-either db q p (pick now db rows) g) [
      | inl same ↦ subst (λ x. eligible now db x ≡ true) same e
      | inr rest ↦ later rest
    ]

-- What a claim that was granted did.
pub record Granted (st : Settings) (worker : String) (now : ℕ) (db db' : QueueDb) (c : Claim)
    : Type 0 where
  pub item : Item
  pub picked : pick now db db.run_queue ≡ some item
  pub was_open : is_open db.maintenance ≡ true
  pub was_eligible : eligible now db item ≡ true
  pub alone : count (claimable item) db.run_queue ≡ 1
  pub as_claim : c ≡ claim_of item
  pub rows : db'.run_queue ≡ update_where (claimable item) (take_claim worker now) db.run_queue
  pub limits : db'.tenant_limits ≡ db.tenant_limits

pub claim_one-Granted :
    (st : Settings) (worker : String) (now : ℕ) (db db' : QueueDb) (c : Claim)
    → claim_one st worker now db ≡ (some c, db')
    → Granted st worker now db db' c
unfolding claim_one claim_row
claim_one-Granted st worker now db db' c h =
    split (is_open db.maintenance) refl (pick now db db.run_queue) refl h
  where
    granted :
        (p : Item)
        → is_open db.maintenance ≡ true
        → pick now db db.run_queue ≡ some p
        → (b : Bool) → (count (claimable p) db.run_queue == 1) ≡ b
        → claim_row st worker now db (some p) ≡ (some c, db')
        → Granted st worker now db db' c
    granted p o k false one g = cc (rw (one, claim_row) at g)
    granted p o k true one g =
        let g' = rw (one, claim_row) at g in
        record {
          item = p;
          picked = k;
          was_open = o;
          was_eligible = pick-eligible now db db.run_queue p k;
          alone = ground arith;
          as_claim = cc;
          rows = ap (λ (x : Option Claim × QueueDb). x.1.run_queue) (sym g');
          limits = ap (λ (x : Option Claim × QueueDb). x.1.tenant_limits) (sym g');
        }

    split :
        (b : Bool)
        → is_open db.maintenance ≡ b
        → (o : Option Item) → pick now db db.run_queue ≡ o
        → (if not b then (none, db) else claim_row st worker now db o) ≡ (some c, db')
        → Granted st worker now db db' c
    split false e o k g = cc
    split true e none k g = cc
    split true e (some p) k g = granted p e k (count (claimable p) db.run_queue == 1) refl g

queued-not-held : (s : Status) → is_queued s ≡ true → is_held s ≡ false
queued-not-held queued h = refl
queued-not-held s h = ground arith

open-is : (m : Option Mode) → is_open m ≡ true → m ≡ some open_mode
open-is none h = cc
open-is (some open_mode) h = refl
open-is (some m) h = cc

below_limit-some :
    (n : ℕ) (o : Option ℕ) → below_limit n o ≡ true → (m : ℕ) × (o ≡ some m) × (n + 1 ≤ m)
below_limit-some n none h = cc
below_limit-some n (some m) h = (m, refl, ground arith)

eligible-limit :
    (now : ℕ) (db : QueueDb) (p : Item)
    → eligible now db p ≡ true
    → below_limit (occupied p.tenant_id db.run_queue) (limit_of p.tenant_id db) ≡ true
unfolding eligible
eligible-limit now db p h = ground arith

occupied-claimed :
    (worker : String) (now : ℕ) (p : Item) (rows : List Item)
    → occupied p.tenant_id (update_where (claimable p) (take_claim worker now) rows)
      ≡ count (claimable p) rows + occupied p.tenant_id rows
unfolding occupied take_claim
occupied-claimed worker now p rows =
    count-update_enters (claimable p) (λ q. str_eq q.tenant_id p.tenant_id && is_held q.status)
      (take_claim worker now) (λ q e. let h = queued-not-held q.status in ground arith) rows

occupied-others :
    (worker : String) (now : ℕ) (p : Item) (tenant : String) (rows : List Item)
    → tenant ≢ p.tenant_id
    → occupied tenant (update_where (claimable p) (take_claim worker now) rows)
      ≡ occupied tenant rows
unfolding occupied take_claim
occupied-others worker now p tenant rows other =
    count-update_same (claimable p) (λ q. str_eq q.tenant_id tenant && is_held q.status)
      (take_claim worker now)
      (λ q e.
        let h = eq_iff q.tenant_id p.tenant_id in let k = eq_iff q.tenant_id tenant in ground arith)
      rows

-- A claim is granted only while maintenance is open, it raises what is held for its tenant by one and
-- changes it for no other tenant, and what is held for its tenant then is within the limit of the
-- tenant.
pub claim_one-keeps_limit :
    (st : Settings) (worker : String) (now : ℕ) (db db' : QueueDb) (c : Claim)
    → claim_one st worker now db ≡ (some c, db')
    → (db.maintenance ≡ some open_mode)
      × ((m : ℕ) × (limit_of c.tenant_id db ≡ some m) × (occupied c.tenant_id db'.run_queue ≤ m))
      × (occupied c.tenant_id db'.run_queue ≡ occupied c.tenant_id db.run_queue + 1)
      × ((tenant : String)
          → tenant ≢ c.tenant_id
          → occupied tenant db'.run_queue ≡ occupied tenant db.run_queue)
claim_one-keeps_limit st worker now db db' c h =
    let g = claim_one-Granted st worker now db db' c h in
    let within = below_limit-some _ _ (eligible-limit now db g.item g.was_eligible) in
    let more =
      ap (occupied g.item.tenant_id) g.rows ∙ occupied-claimed worker now g.item db.run_queue in
    rw g.as_claim (
      open-is db.maintenance g.was_open,
      (within.0, within.1, let one = g.alone in omega arith),
      let one = g.alone in omega arith,
      λ tenant other.
          ap (occupied tenant) g.rows ∙ occupied-others worker now g.item tenant db.run_queue other,
    )
