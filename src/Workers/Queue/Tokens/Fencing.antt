-- ===== src/Workers/Queue/Tokens/Fencing.antt =====
-- A claim whose row was claimed again is refused for good.
use recertia.Prelude.{
  ℕ, ◌+◌, ◌==◌, ◌≤◌, ◌<◌, ◌≡◌, String, Bool, true, false, ◌&&◌, Option, none, some, List, [], ◌∷◌,
  str_eq_refl, find, count, raised, if◌then◌else◌, arith, refl, sym, subst, inl, inr,
}
use recertia.Prelude.Rows.{find-update_where-some}
use recertia.Workers.Queue.{
  Status, running, is_held, is_queued, Item, Claim, QueueDb, Settings, stale_claim, has_key, get,
}
use recertia.Workers.Queue.Claims.{
  claim_one, claimable, take_claim, pick, eligible, better, under_claim, already_there, transition,
  mark_running, is_claimed, QueueStatus, status_of, finish, requeue,
}
use recertia.Workers.Queue.Claims.InFlight.{claim_one-Granted, better-either}
use recertia.Workers.Queue.Tokens.{
  HasUniqueKeys, QueueStep, claims, Change-HasUniqueKeys, Change-token, step-Change,
}

-- Any number of operations, by any number of workers.
pub data QueueReach (st : Settings) (alive : ℕ → Bool) : QueueDb → QueueDb → Type 0 where
  here : {db : QueueDb} → QueueReach st alive db db
  step :
      {a b c : QueueDb} → QueueStep st alive a b → QueueReach st alive b c → QueueReach st alive a c

-- The row of a key is in the table, with at least this token.
pub IsOvertaken : String → String → String → ℕ → QueueDb → Type 0
IsOvertaken t r k n db =
    HasUniqueKeys db.run_queue × ((q : Item) × (get t r k db ≡ some q) × (n ≤ q.claim_token))

module _ (st : Settings) (alive : ℕ → Bool) where
  reach-IsOvertaken :
      (db db' : QueueDb) (t r k : String) (n : ℕ)
      → QueueReach st alive db db'
      → IsOvertaken t r k n db
      → IsOvertaken t r k n db'
  unfolding IsOvertaken get
  reach-IsOvertaken db _ t r k n here h = h
  reach-IsOvertaken db db' t r k n (step s rest) (unique, (q, there, more)) =
      let change = step-Change st alive db _ s in
      let (q', there', more') = Change-token _ _ change t r k q there in
      reach-IsOvertaken _ db' t r k n rest
        (Change-HasUniqueKeys _ _ change unique, (q', there', omega arith))

-- The keys of the queue stay unique through any sequence of operations: no enqueue, claim,
-- transition, requeue or reconciliation makes a second row under a key.
pub reach-HasUniqueKeys :
    (st : Settings) (alive : ℕ → Bool) (db db' : QueueDb)
    → QueueReach st alive db db'
    → HasUniqueKeys db.run_queue
    → HasUniqueKeys db'.run_queue
reach-HasUniqueKeys st alive db _ here unique t r k = unique t r k
reach-HasUniqueKeys st alive db db' (step s rest) unique t r k =
    reach-HasUniqueKeys st alive _ db' rest
      (Change-HasUniqueKeys _ _ (step-Change st alive db _ s) unique) t r k

count-and {ℓ} :
    {A : Type ℓ} (p r : A → Bool) (xs : List A) → count (λ y. p y && r y) xs ≤ count p xs
count-and p r [] = omega arith
count-and p r (x ∷ xs) = ground (arith, count-and p r xs)

-- Where a key is unique and its row does not pass a test, no row under the key passes it.
count-found {ℓ} :
    {A : Type ℓ} (p r : A → Bool) (xs : List A) (x : A)
    → count p xs ≤ 1
    → find p xs ≡ some x
    → r x ≡ false
    → count (λ y. p y && r y) xs ≡ 0
count-found p r [] x one there fails = refl
count-found p r (y ∷ ys) x one there fails = ground (arith, count-and p r ys, count-found p r ys x)

module _ (c : Claim) (db : QueueDb)
    (h : IsOvertaken c.tenant_id c.run_id c.kind (c.claim_token + 1) db) where
  overtaken-untouched : (from : Status → Bool) → count (under_claim c from) db.run_queue ≡ 0
  unfolding IsOvertaken get
  overtaken-untouched from =
      let (unique, (q, there, more)) = h in
      count-found (has_key c.tenant_id c.run_id c.kind)
        (λ q. q.claim_token == c.claim_token && from q.status) db.run_queue q (unique _ _ _) there
        (ground arith)

  overtaken-not_there :
      (s : Status) → already_there c s (get c.tenant_id c.run_id c.kind db) ≡ false
  unfolding IsOvertaken already_there
  overtaken-not_there s = let (unique, (q, there, more)) = h in rw there (ground arith)

  overtaken-transition :
      (now : ℕ) (s : Status) (error : Option String) (from : Status → Bool)
      → transition now c s error from db ≡ raised stale_claim
  unfolding transition
  overtaken-transition now s error from = rw (overtaken-untouched from, overtaken-not_there s) refl

  overtaken-requeue :
      (now delay : ℕ) (error : String) → requeue now delay error c db ≡ raised stale_claim
  unfolding requeue
  overtaken-requeue now delay error = rw (overtaken-untouched is_held) refl

count-find {ℓ} :
    {A : Type ℓ} (p : A → Bool) (xs : List A) (x : A) → find p xs ≡ some x → 1 ≤ count p xs
count-find p [] x h = cc
count-find p (y ∷ ys) x h = ground (arith, count-find p ys x)

-- What `pick` chose is the row under its key.
pick-find :
    (now : ℕ) (db : QueueDb) (rows : List Item) (p : Item)
    → pick now db rows ≡ some p
    → count (has_key p.tenant_id p.run_id p.kind) rows ≤ 1
    → find (has_key p.tenant_id p.run_id p.kind) rows ≡ some p
unfolding pick
pick-find now db [] p h one = cc
pick-find now db (q ∷ rows) p h one = split (eligible now db q) h (pick-find now db rows p)
  where
    key : Item → Bool
    key = has_key p.tenant_id p.run_id p.kind

    later :
        (pick now db rows ≡ some p → count key rows ≤ 1 → find key rows ≡ some p)
        → pick now db rows ≡ some p
        → find key (q ∷ rows) ≡ some p
    later ih g =
        let found = ih g (ground arith) in
        let at_least = count-find key rows p found in ground arith

    split :
        (b : Bool)
        → (if b then better db q (pick now db rows) else pick now db rows) ≡ some p
        → (pick now db rows ≡ some p → count key rows ≤ 1 → find key rows ≡ some p)
        → find key (q ∷ rows) ≡ some p
    split false g ih = later ih g
    split true g ih = elim (better-either db q p (pick now db rows) g) [
      | inl same ↦
          rw same
            (ground (arith, str_eq_refl p.tenant_id, str_eq_refl p.run_id, str_eq_refl p.kind))
      | inr rest ↦ later ih rest
    ]

eligible-queued :
    (now : ℕ) (db : QueueDb) (p : Item) → eligible now db p ≡ true → is_queued p.status ≡ true
unfolding eligible
eligible-queued now db p h = ground arith

claimable_self : (p : Item) → is_queued p.status ≡ true → claimable p p ≡ true
claimable_self p h =
    ground (arith, str_eq_refl p.tenant_id, str_eq_refl p.run_id, str_eq_refl p.kind)

granted-IsOvertaken :
    (st : Settings) (worker : String) (now : ℕ) (db db' : QueueDb) (c : Claim)
    → HasUniqueKeys db.run_queue
    → claim_one st worker now db ≡ (some c, db')
    → IsOvertaken c.tenant_id c.run_id c.kind c.claim_token db'
unfolding IsOvertaken get take_claim eligible
granted-IsOvertaken st worker now db db' c unique h =
    let g = claim_one-Granted st worker now db db' c h in
    let p = g.item in
    let there = pick-find now db db.run_queue p g.picked (unique _ _ _) in
    let after =
      find-update_where-some (claimable p) (has_key p.tenant_id p.run_id p.kind)
        (take_claim worker now) (λ _ _. refl) db.run_queue p there in
    let mine = claimable_self p (eligible-queued now db p g.was_eligible) in
    let row =
      (subst
        (λ rows.
          find (has_key p.tenant_id p.run_id p.kind) rows
          ≡ some (if claimable p p then take_claim worker now p else p))
        (sym g.rows) after) in
    let kept =
      Change-HasUniqueKeys _ _ (step-Change st (λ _. true) db _ (claims worker now db)) unique in
    rw g.as_claim (
      subst (λ (x : Option Claim × QueueDb). HasUniqueKeys (x.1).run_queue) h kept,
      (take_claim worker now p, rw mine at row, omega arith),
    )

-- Once a row has been claimed, in a queue whose keys are unique, every claim of that row with an older token is refused whatever
-- operations happened since: its worker can neither mark it as running, nor finish it, nor requeue it.
pub old_claim_refused :
    (st : Settings) (alive : ℕ → Bool) (worker : String) (claimed_at : ℕ) (db db1 db2 : QueueDb)
    (old new : Claim)
    → HasUniqueKeys db.run_queue
    → claim_one st worker claimed_at db ≡ (some new, db1)
    → (old.tenant_id ≡ new.tenant_id) × (old.run_id ≡ new.run_id) × (old.kind ≡ new.kind)
    → old.claim_token < new.claim_token
    → QueueReach st alive db1 db2
    → ((now : ℕ) → mark_running now old db2 ≡ raised stale_claim)
      × ((now : ℕ) (s : QueueStatus) (error : Option String)
          → finish now old s error db2 ≡ raised stale_claim)
      × ((now delay : ℕ) (error : String) → requeue now delay error old db2 ≡ raised stale_claim)
unfolding mark_running finish IsOvertaken
old_claim_refused st alive worker claimed_at db db1 db2 old new unique h (et, er, ek) older reach =
    let over =
      reach-IsOvertaken st alive db1 db2 _ _ _ _ reach
        (granted-IsOvertaken st worker claimed_at db db1 new unique h) in
    let over' = less_overtaken old db2 new.claim_token older (rw (← et, ← er, ← ek) at over) in
    (
      λ now. overtaken-transition old db2 over' now running none is_claimed,
      λ now s error. overtaken-transition old db2 over' now (status_of s) error is_held,
      overtaken-requeue old db2 over',
    )
  where
    less_overtaken :
        (c : Claim) (d : QueueDb) (n : ℕ)
        → c.claim_token < n
        → IsOvertaken c.tenant_id c.run_id c.kind n d
        → IsOvertaken c.tenant_id c.run_id c.kind (c.claim_token + 1) d
    less_overtaken c d n less (u, (q, there, more)) = (u, (q, there, omega arith))
