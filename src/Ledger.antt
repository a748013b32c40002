-- ===== src/Ledger.antt =====
-- ledger/hashchain.py and ledger/sidecar.py: the append-only provenance ledger. The file is the list of
-- its complete lines, parsed, and whether an unfinished line follows; the bytes of a prefix are counted
-- in lines, since a sidecar is written at the end of a line. The hashes, the check of a receipt and the
-- signing hook are arguments. The file lock around an append is left out.
pub mod Append
pub mod Suffix
mod Tests
use recertia.Prelude.{
  ℕ, zero, suc, ◌+◌, ◌==◌, String, Bool, true, false, not, ◌&&◌, Option, none, some, List, [], ◌∷◌,
  ◌++◌, str_eq, leb, length, is_empty, Outcome, ok, raised, raise_if, ◌>>=◌, if◌then◌else◌,
}
use recertia.Persistence.Fence.{LeaseTable, LeaseLost, MissingRow, allow, require_lease_token}

-- contracts/ledger.py
pub data LedgerAction : Type 0 where
  write advance_to_candidate quarantine_version deprecate policy_change lint_reject : LedgerAction
  compress_skill revoke_lineage compose_block publish_patch_template lift_report : LedgerAction
  faithfulness_report applicability_reject mea_activation_fallback : LedgerAction
  close_receipt ledger_repaired : LedgerAction

pub record LedgerEntry : Type 0 where
  pub seq : ℕ
  pub prev_hash : String
  pub entry_hash : String
  pub actor : String
  pub action : LedgerAction
  pub target : String
  pub evidence : String
  pub at : String

pub record TipSidecar : Type 0 where
  pub entries : ℕ
  pub next_seq : ℕ
  pub tip_hash : String
  pub prefix_lines : ℕ
  pub prefix_sha256 : String

pub data LedgerError : Type 0 where
  torn_tail bad_seq broken_link bad_hash bad_receipt fenced_off : LedgerError

-- The file, the sidecar beside it, and the tip that the open ledger remembers.
pub record Ledger : Type 0 where
  pub lines : List LedgerEntry
  pub torn : Bool
  pub sidecar : Option TipSidecar
  pub tip : Option (ℕ × String)

abbrev pub genesis_hash : String
genesis_hash = "0000000000000000000000000000000000000000000000000000000000000000"

-- What the ledger computes with and does not define here.
pub record Hashing : Type 0 where
  -- `compute_entry_hash` of an entry's other fields
  pub entry_hash : LedgerEntry → String
  pub prefix_sha256 : List LedgerEntry → String
  -- `_validate_close_receipt_evidence`
  pub is_receipt : LedgerEntry → Bool
  pub before_append : LedgerEntry → LedgerEntry

abbrev pub pending : LedgerEntry → LedgerEntry
pending e = record e { entry_hash = "pending" }

abbrev is_close_receipt : LedgerAction → Bool
is_close_receipt close_receipt = true
is_close_receipt _ = false

abbrev first_lines : ℕ → List LedgerEntry → List LedgerEntry
first_lines zero lines = []
first_lines (suc n) [] = []
first_lines (suc n) (e ∷ lines) = e ∷ first_lines n lines

abbrev after_lines : ℕ → List LedgerEntry → List LedgerEntry
after_lines zero lines = lines
after_lines (suc n) [] = []
after_lines (suc n) (e ∷ lines) = after_lines n lines

-- The number and the hash that the next entry has to follow.
unfoldable pub last_tip : ℕ × String → List LedgerEntry → ℕ × String
last_tip start [] = start
last_tip start (e ∷ lines) = last_tip (e.seq + 1, e.entry_hash) lines

module _ (h : Hashing) where
  -- One turn of the loop of `_verify_chain`, with the check of the rest.
  check_entry :
      ℕ → String → LedgerEntry → Outcome LedgerError (ℕ × String) → Outcome LedgerError (ℕ × String)
  check_entry expected prev_hash e rest = raise_if (not (e.seq == expected)) bad_seq (
      raise_if (not (str_eq e.prev_hash prev_hash)) broken_link (
        raise_if (not (str_eq (h.entry_hash (pending e)) e.entry_hash)) bad_hash
          (raise_if (is_close_receipt e.action && not (h.is_receipt e)) bad_receipt rest)))

  -- `_verify_chain`, which answers the count and the hash to go on from.
  pub verify_chain : ℕ → String → List LedgerEntry → Outcome LedgerError (ℕ × String)
  unfolding check_entry
  verify_chain start_seq prev_hash [] = ok (start_seq, prev_hash)
  verify_chain start_seq prev_hash (e ∷ entries) =
      check_entry start_seq prev_hash e (verify_chain (start_seq + 1) e.entry_hash entries)

  sidecar_matches : List LedgerEntry → TipSidecar → Bool
  sidecar_matches lines side =
      leb side.prefix_lines (length lines)
      && str_eq (h.prefix_sha256 (first_lines side.prefix_lines lines)) side.prefix_sha256

  -- `write_sidecar`
  pub written_sidecar : List LedgerEntry → ℕ × String → TipSidecar
  written_sidecar lines (n, tip_hash) = record {
    entries = n;
    next_seq = n;
    tip_hash = tip_hash;
    prefix_lines = length lines;
    prefix_sha256 = h.prefix_sha256 lines;
  }

  same_tip : ℕ × String → ℕ × String → Bool
  same_tip (n, a) (m, b) = n == m && str_eq a b

  trusted : List LedgerEntry → ℕ × String → Option TipSidecar → Bool
  unfolding sidecar_matches same_tip
  trusted lines observed none = false
  trusted lines observed (some side) =
      sidecar_matches lines side && same_tip (side.next_seq, side.tip_hash) observed

  -- `_scan_tip`
  scan_tip : List LedgerEntry → ℕ × String
  scan_tip lines = (length lines, (last_tip (0, genesis_hash) lines).1)

  -- Whether the tip that the last line shows is believed without a scan.
  believed : Ledger → ℕ × String → Option (ℕ × String) → Bool
  unfolding same_tip trusted
  believed l observed none = trusted l.lines observed l.sidecar
  believed l observed (some t) = same_tip t observed

  -- `_tip_for_append`, on a file without a torn tail.
  tip_for_append : Ledger → ℕ × String
  unfolding believed scan_tip
  tip_for_append l =
      let observed = last_tip (0, genesis_hash) l.lines in
      if believed l observed l.tip then observed else scan_tip l.lines

  appended : String → LedgerAction → String → String → String → ℕ × String → LedgerEntry
  appended actor action target evidence at (seq, prev_hash) =
      let draft = h.before_append (record {
        seq = seq;
        prev_hash = prev_hash;
        entry_hash = "pending";
        actor = actor;
        action = action;
        target = target;
        evidence = evidence;
        at = at;
      }) in
      record draft { entry_hash = h.entry_hash draft }

  -- `_append_locked`
  append_locked :
      String
      → LedgerAction
      → String
      → String
      → String
      → Ledger
      → Outcome LedgerError (LedgerEntry × Ledger)
  unfolding tip_for_append appended written_sidecar
  append_locked actor action target evidence at l =
      let tip = tip_for_append l in
      let e = appended actor action target evidence at tip in
      let lines = l.lines ++ e ∷ [] in
      raise_if l.torn torn_tail (
        ok (
          e,
          record {
            lines = lines;
            torn = false;
            sidecar = some (written_sidecar lines (tip.0 + 1, e.entry_hash));
            tip = some (tip.0 + 1, e.entry_hash);
          },
        ))

  after_fence :
      Outcome LeaseLost (Unit {0})
      → Outcome LedgerError (LedgerEntry × Ledger)
      → Outcome LedgerError (LedgerEntry × Ledger)
  after_fence (raised _) rest = raised fenced_off
  after_fence (ok _) rest = rest

  -- `append` under the fence of the leases; the token is that of the caller or the default one.
  pub append :
      Option LeaseTable
      → String
      → Option ℕ
      → String
      → LedgerAction
      → String
      → String
      → String
      → Ledger
      → Outcome LedgerError (LedgerEntry × Ledger)
  unfolding append_locked after_fence
  append leases tenant token actor action target evidence at l =
      after_fence (require_lease_token leases tenant target token allow)
        (append_locked actor action target evidence at l)

  -- The two scans of `_verify_unlocked`, with the sidecar and the tip that they leave.
  verified_full : Ledger → Outcome LedgerError Ledger
  unfolding written_sidecar
  verified_full l = verify_chain 0 genesis_hash l.lines >>= λ t.
      ok (record l { sidecar = some (written_sidecar l.lines t); tip = some t })

  verified_suffix : Ledger → TipSidecar → Outcome LedgerError Ledger
  unfolding written_sidecar
  verified_suffix l side =
      verify_chain side.entries side.tip_hash (after_lines side.prefix_lines l.lines) >>= λ t.
      ok (record l {
        sidecar =
            if is_empty (after_lines side.prefix_lines l.lines)
            then some side
            else some (written_sidecar l.lines t);
        tip = some t;
      })

  by_sidecar : Ledger → Option TipSidecar → Outcome LedgerError Ledger
  unfolding verified_full verified_suffix sidecar_matches
  by_sidecar l none = verified_full l
  by_sidecar l (some side) =
      if sidecar_matches l.lines side then verified_suffix l side else verified_full l

  -- `verify`, without signatures.
  pub verify : Bool → Ledger → Outcome LedgerError Ledger
  unfolding by_sidecar verified_full
  verify full l =
      raise_if l.torn torn_tail (if full then verified_full l else by_sidecar l l.sidecar)
