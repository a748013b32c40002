-- ===== src/Graph/Engine/Held/Bare.antt =====
-- A database without its tokens and leases: what is read from it, and what is saved in it.
use recertia.Prelude.{
  ℕ, ◌≡◌, String, Bool, true, false, Option, none, some, List, [], ◌∷◌, ◌++◌, ◌||◌, Outcome, ok,
  raised, raise_if, any, str_eq, if◌then◌else◌, refl, ap, ltb,
}
use mathlib.Core.Option
use recertia.Persistence.Fence.{require_lease_token, check, on_missing, reject}
use recertia.Graph.Store.{
  HopDb, Checkpoint, Write, SaveError, checkpoint_conflict, at_seq, key_taken, insert_hop,
  commit_hop, save, latest, latest_row, latest_seq, later_of,
}

abbrev pub bare : Checkpoint → Checkpoint
bare c = record c { fencing_token = none }

abbrev pub bare_rows : List Checkpoint → List Checkpoint
bare_rows [] = []
bare_rows (c ∷ rows) = bare c ∷ bare_rows rows

-- A database without its tokens and leases.
abbrev pub bare_db : HopDb → HopDb
bare_db d = record d { checkpoints = bare_rows d.checkpoints; run_leases = [] }

any-bare :
    (r : String) (n : ℕ) (rows : List Checkpoint)
    → any (at_seq r n) (bare_rows rows) ≡ any (at_seq r n) rows
any-bare r n [] = refl
any-bare r n (c ∷ rows) = ap (λ b. at_seq r n c || b) (any-bare r n rows)

bare_rows-append :
    (rows : List Checkpoint) (c : Checkpoint)
    → bare_rows (rows ++ c ∷ []) ≡ bare_rows rows ++ bare c ∷ []
bare_rows-append [] c = refl
bare_rows-append (d ∷ rows) c = ap (λ x. bare d ∷ x) (bare_rows-append rows c)

latest_row-bare :
    (r : String) (rows : List Checkpoint)
    → latest_row r (bare_rows rows) ≡ Option.map bare (latest_row r rows)
unfolding latest_row
latest_row-bare r [] = refl
latest_row-bare r (c ∷ rows) =
    rw (latest_row-bare r rows) (step (str_eq c.run_id r) (latest_row r rows))
  where
    newer :
        (b : Bool) (d : Checkpoint)
        → (if b then some (bare c) else some (bare d))
          ≡ Option.map bare (if b then some c else some d)
    newer true d = refl
    newer false d = refl

    step :
        (b : Bool) (o : Option Checkpoint)
        → (if b then later_of (bare c) (Option.map bare o) else Option.map bare o)
          ≡ Option.map bare (if b then later_of c o else o)
    step false o = refl
    step true none = refl
    step true (some d) = newer (ltb d.seq c.seq) d

pub latest-bare : (r : String) (d : HopDb) → latest r (bare_db d) ≡ Option.map bare (latest r d)
unfolding latest
latest-bare r d = latest_row-bare r d.checkpoints

pub latest_seq-bare : (r : String) (d : HopDb) → latest_seq r (bare_db d) ≡ latest_seq r d
unfolding latest_seq
latest_seq-bare r d = rw (latest_seq, latest-bare r d) (same (latest r d))
  where
    same :
        (o : Option Checkpoint)
        → (elim (Option.map bare o) [ none ↦ none | some c ↦ some c.seq ])
          ≡ (elim o [ none ↦ none | some c ↦ some c.seq ])
    same none = refl
    same (some c) = refl

abbrev pub bare_saved : Outcome SaveError HopDb → Outcome SaveError HopDb
bare_saved (ok d) = ok (bare_db d)
bare_saved (raised e) = raised e

module _ (tenant : String) (t : ℕ) where
  -- The fence admits the token for a run.
  abbrev pub Admits : String → HopDb → Type 0
  Admits run d = require_lease_token (some d.run_leases) tenant run (some t) reject ≡ ok tt

  insert_hop-bare :
      (run : String) (w : Write) (d : HopDb)
      → bare_db (insert_hop run (some t) w d) ≡ insert_hop run none w (bare_db d)
  unfolding insert_hop
  insert_hop-bare run w d = rw (bare_rows-append d.checkpoints) refl

  pub save-bare :
      (run : String) (w : Write) (d : HopDb)
      → Admits run d
      → bare_saved (save tenant run (some t) w d) ≡ save tenant run none w (bare_db d)
  unfolding save commit_hop require_lease_token check on_missing key_taken
  save-bare run w d h = rw (h, any-bare run w.seq d.checkpoints) (either (key_taken run w d))
    where
      either :
          (b : Bool)
          → bare_saved (raise_if b checkpoint_conflict (ok (insert_hop run (some t) w d)))
            ≡ raise_if b checkpoint_conflict (ok (insert_hop run none w (bare_db d)))
      either true = refl
      either false = ap ok (insert_hop-bare run w d)
