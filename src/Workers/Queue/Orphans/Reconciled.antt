-- ===== src/Workers/Queue/Orphans/Reconciled.antt =====
-- After `reconcile_orphans` no row is held by a worker that is gone.
use recertia.Prelude.{
  ℕ, ◌≡◌, Bool, true, false, not, ◌&&◌, List, [], ◌∷◌, str_eq_refl, any, keep, if◌then◌else◌, All,
  arith, refl,
}
use recertia.Prelude.Rows.{update_where}
use recertia.Workers.Queue.{is_held, Item, QueueDb, Worker, has_key}
use recertia.Workers.Queue.Orphans.{
  has_live_worker, orphans, held_under, reconciled, reconcile_all, reconcile_orphans,
}

module _ (alive : ℕ → Bool) (workers : List Worker) where
  abbrev is_orphan : Item → Bool
  is_orphan q = is_held q.status && not (has_live_worker alive workers q)

  -- Every orphan has its key among those that are still to be handled.
  abbrev IsCovered : List Item → List Item → Type 0
  IsCovered found rows =
      All (λ q. is_orphan q ≡ true → any (λ p. has_key p.tenant_id p.run_id p.kind q) found ≡ true)
        rows

  reconciled-free : (now : ℕ) (p q : Item) → is_held (reconciled alive now p q).status ≡ false
  unfolding reconciled
  reconciled-free now p q = ground arith

  IsCovered-weaken :
      (p : Item) (found rows : List Item) → IsCovered found rows → IsCovered (p ∷ found) rows
  IsCovered-weaken p found [] h = tt
  IsCovered-weaken p found (q ∷ rows) h =
      (λ e. let k = h.0 e in ground arith, IsCovered-weaken p found rows h.1)

  IsCovered-orphans : (rows : List Item) → IsCovered (keep is_orphan rows) rows
  IsCovered-orphans [] = tt
  IsCovered-orphans (q ∷ rows) = split (is_orphan q) refl (IsCovered-orphans rows)
    where
      split :
          (b : Bool)
          → is_orphan q ≡ b
          → IsCovered (keep is_orphan rows) rows
          → IsCovered (if b then q ∷ keep is_orphan rows else keep is_orphan rows) (q ∷ rows)
      split true e rest = (
        λ _. ground (arith, str_eq_refl q.tenant_id, str_eq_refl q.run_id, str_eq_refl q.kind),
        IsCovered-weaken q (keep is_orphan rows) rows rest,
      )
      split false e rest = (λ f. cc, rest)

  IsCovered-step :
      (now : ℕ) (p : Item) (found rows : List Item)
      → IsCovered (p ∷ found) rows
      → IsCovered found (update_where (held_under alive p) (reconciled alive now p) rows)
  IsCovered-step now p found [] h = tt
  IsCovered-step now p found (q ∷ rows) h =
      (split (held_under alive p q) refl, IsCovered-step now p found rows h.1)
    where
      split :
          (b : Bool)
          → held_under alive p q ≡ b
          → is_orphan (if b then reconciled alive now p q else q) ≡ true
          → any
              (λ x. has_key x.tenant_id x.run_id x.kind (if b then reconciled alive now p q else q))
              found
            ≡ true
      split true e o = let free = reconciled-free now p q in ground arith
      split false e o = let k = h.0 o in ground arith

  keep-none : (rows : List Item) → IsCovered [] rows → keep is_orphan rows ≡ []
  keep-none [] h = refl
  keep-none (q ∷ rows) h = let no = h.0 in let rest = keep-none rows h.1 in ground arith

  reconcile_all-covers :
      (now : ℕ) (found rows : List Item)
      → IsCovered found rows
      → keep is_orphan (reconcile_all alive now found rows) ≡ []
  unfolding reconcile_all
  reconcile_all-covers now [] rows h = keep-none rows h
  reconcile_all-covers now (p ∷ found) rows h =
      reconcile_all-covers now found _ (IsCovered-step now p found rows h)

-- After `reconcile_orphans` no claimed or running row is left whose worker is gone.
pub orphans-reconcile_orphans :
    (alive : ℕ → Bool) (now : ℕ) (db : QueueDb)
    → orphans alive ((reconcile_orphans alive now db).1) ≡ []
unfolding orphans reconcile_orphans
orphans-reconcile_orphans alive now db =
    reconcile_all-covers alive db.workers now _ db.run_queue
      (IsCovered-orphans alive db.workers db.run_queue)
