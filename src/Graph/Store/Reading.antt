-- ===== src/Graph/Store/Reading.antt =====
-- What `latest` reads after a `save`, and that rows are written once.
use recertia.Prelude.{
  ℕ, ◌+◌, ◌<◌, ◌≡◌, ◌≢◌, if◌then◌else◌, String, Bool, true, false, Option, none, some, List, [],
  ◌∷◌, ◌++◌, Outcome, ok, raised, any, find, str_eq, eq_iff, arith, refl, inl, inr, ◌⊎◌, sym,
  ok-injective, subst,
}
use recertia.Prelude.Rows.{find-append_some}
use recertia.Persistence.Fence.{LeaseLost, require_lease_token}
use recertia.Graph.Store.{
  Checkpoint, HopDb, Write, SaveError, save_lease_lost, checkpoint_conflict, at_seq, latest_row,
  latest, checkpoint_of, insert_hop, commit_hop, save, latest_seq, later_of, key_taken,
  missing_row_of,
}

-- Every checkpoint of the run has a smaller number.
abbrev pub Below : String → ℕ → List Checkpoint → Type 0
Below run n [] = Unit {0}
Below run n (c ∷ rows) = (c.run_id ≡ run → c.seq < n) × Below run n rows

latest_row-append :
    (run : String) (c : Checkpoint) (rows : List Checkpoint)
    → c.run_id ≡ run
    → Below run c.seq rows
    → latest_row run (rows ++ c ∷ []) ≡ some c
unfolding latest_row
latest_row-append run c [] e h = ground (arith, eq_iff c.run_id run)
latest_row-append run c (d ∷ rows) e h =
    rw (latest_row-append run c rows e h.1) (ground (arith, eq_iff d.run_id run, h.0))

Below-append :
    (run : String) (c : Checkpoint) (rows : List Checkpoint)
    → Below run c.seq rows
    → Below run (c.seq + 1) (rows ++ c ∷ [])
Below-append run c [] h = (λ _. omega arith, tt)
Below-append run c (d ∷ rows) h = (λ e. let p = h.0 e in omega arith, Below-append run c rows h.1)

module _ (tenant run : String) (token : Option ℕ) (w : Write) (db : HopDb) where
  pub save-ok :
      (after : HopDb)
      → save tenant run token w db ≡ ok after
      → (require_lease_token (some db.run_leases) tenant run token (missing_row_of token) ≡ ok tt)
        × (key_taken run w db ≡ false)
        × (after ≡ insert_hop run token w db)
  unfolding save commit_hop
  save-ok after h = split (require_lease_token _ _ _ _ _) refl (key_taken run w db) refl
    where
      split :
          (f : Outcome LeaseLost (Unit {0}))
          → require_lease_token (some db.run_leases) tenant run token (missing_row_of token) ≡ f
          → (b : Bool) → key_taken run w db ≡ b
          → (f ≡ ok tt) × (b ≡ false) × (after ≡ insert_hop run token w db)
      split (ok tt) e true k = ground arith
      split (ok tt) e false k = (refl, refl, sym (ok-injective (rw (e, k) at h)))
      split (raised _) e b k = ground arith

  -- A `save` with a number above all checkpoints of its run is what `latest` reads next, and leaves
  -- all checkpoints of the run below the next number.
  pub save-latest :
      (after : HopDb)
      → save tenant run token w db ≡ ok after
      → Below run w.seq db.checkpoints
      → (latest run after ≡ some (checkpoint_of run token w))
        × Below run (w.seq + 1) after.checkpoints
  unfolding latest insert_hop
  save-latest after h below = rw ((save-ok after h).2) (
    latest_row-append run (checkpoint_of run token w) db.checkpoints refl below,
    Below-append run (checkpoint_of run token w) db.checkpoints below,
  )

  -- A checkpoint that is stored under its key stays as it is through every later `save`, of any run.
  pub save-keeps_checkpoint :
      (after : HopDb) (r : String) (n : ℕ) (c : Checkpoint)
      → save tenant run token w db ≡ ok after
      → find (at_seq r n) db.checkpoints ≡ some c
      → find (at_seq r n) after.checkpoints ≡ some c
  unfolding insert_hop
  save-keeps_checkpoint after r n c h stored =
      rw ((save-ok after h).2) (find-append_some (at_seq r n) db.checkpoints _ c stored)

later-none :
    (run : String) (c : Checkpoint) (rest : Option Checkpoint)
    → (if str_eq c.run_id run then later_of c rest else rest) ≡ none
    → (c.run_id ≢ run) × (rest ≡ none)
later-none run c none h = ground (arith, eq_iff c.run_id run)
later-none run c (some d) h = ground arith

-- A run that has no latest checkpoint has no checkpoint at all.
pub latest-none-Below :
    (run : String) (db : HopDb) → latest run db ≡ none → Below run 0 db.checkpoints
unfolding latest latest_row
latest-none-Below run db h = from db.checkpoints h
  where
    from : (rows : List Checkpoint) → latest_row run rows ≡ none → Below run 0 rows
    from [] h = tt
    from (c ∷ rows) h =
        let none_before = later-none run c (latest_row run rows) h in
        (λ e. absurd (none_before.0 e), from rows none_before.1)

any-find :
    (p : Checkpoint → Bool) (rows : List Checkpoint) (c : Checkpoint)
    → find p rows ≡ some c
    → any p rows ≡ true
any-find p [] c h = ground arith
any-find p (d ∷ rows) c h = ground (arith, any-find p rows c)

-- A second `save` under the number of a stored checkpoint of the run never succeeds: it is refused as
-- a conflict, or the fence has refused it before.
pub save_again_refused :
    (tenant run : String) (token : Option ℕ) (w : Write) (db : HopDb) (c : Checkpoint)
    → find (at_seq run w.seq) db.checkpoints ≡ some c
    → (save tenant run token w db ≡ raised checkpoint_conflict)
      ⊎ (save tenant run token w db ≡ raised save_lease_lost)
unfolding save commit_hop key_taken
save_again_refused tenant run token w db c stored = split (require_lease_token _ _ _ _ _) refl
  where
    taken : any (at_seq run w.seq) db.checkpoints ≡ true
    taken = any-find (at_seq run w.seq) db.checkpoints c stored

    split :
        (f : Outcome LeaseLost (Unit {0}))
        → require_lease_token (some db.run_leases) tenant run token (missing_row_of token) ≡ f
        → (save tenant run token w db ≡ raised checkpoint_conflict)
          ⊎ (save tenant run token w db ≡ raised save_lease_lost)
    split (ok _) e = inl (rw (e, taken))
    split (raised _) e = inr (rw e)

pub latest_seq-none : (run : String) (db : HopDb) → latest_seq run db ≡ none → latest run db ≡ none
unfolding latest_seq
latest_seq-none run db h = split (latest run db) refl
  where
    split : (o : Option Checkpoint) → latest run db ≡ o → o ≡ none
    split none q = refl
    split (some c) q = cc (rw (q, latest_seq) at h)

-- What a save may do with a stored checkpoint: leave it, and take another number.
abbrev pub Leaves : String → ℕ → Checkpoint → String → ℕ → Outcome SaveError HopDb → Type 0
Leaves r n c run seq (ok after) =
    (find (at_seq r n) after.checkpoints ≡ some c) × ((r ≡ run) → n ≢ seq)
Leaves r n c run seq (raised e) = Unit {0}

-- A checkpoint that is stored under its key stays as it is through every later `save`, of any run. A
-- `save` under the number of a stored checkpoint of the run never succeeds.
pub save-Leaves :
    (tenant run : String) (token : Option ℕ) (w : Write) (db : HopDb) (r : String) (n : ℕ)
    (c : Checkpoint)
    → find (at_seq r n) db.checkpoints ≡ some c
    → Leaves r n c run w.seq (save tenant run token w db)
save-Leaves tenant run token w db r n c stored = answer (save tenant run token w db) refl
  where
    answer :
        (o : Outcome SaveError HopDb) → save tenant run token w db ≡ o → Leaves r n c run w.seq o
    answer (raised e) h = tt
    answer (ok after) h = (save-keeps_checkpoint tenant run token w db after r n c h stored, apart)
      where
        apart : (r ≡ run) → n ≢ w.seq
        apart same_run same_seq = refused (
            save_again_refused tenant run token w db c (
              subst (λ i. find (at_seq run i) db.checkpoints ≡ some c) same_seq
                (subst (λ i. find (at_seq i n) db.checkpoints ≡ some c) same_run stored)))
          where
            refused :
                (save tenant run token w db ≡ raised checkpoint_conflict)
                  ⊎ (save tenant run token w db ≡ raised save_lease_lost)
                → ⊥
            refused (inl e) = cc
            refused (inr e) = cc
