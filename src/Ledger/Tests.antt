-- ===== src/Ledger/Tests.antt =====
-- A second entry behind a first one.
use recertia.Prelude.{ℕ, ◌≡◌, String, true, false, some, none, List, [], ◌∷◌, ok, refl}
use recertia.Persistence.Fence.{require_lease_token, check, on_missing}
use recertia.Ledger.{
  Ledger, LedgerEntry, Hashing, write, genesis_hash, append, append_locked, after_fence,
  tip_for_append, believed, trusted, scan_tip, same_tip, last_tip, appended, written_sidecar,
  verify, verified_full, verify_chain, check_entry,
}
use recertia.Ledger.Suffix.{Distinguishes, tip_of, verify-suffix_agrees}
use recertia.Ledger.Append.{Lawful, append-verify}

abbrev hashing : Hashing
hashing = record {
  entry_hash = λ e. e.actor;
  prefix_sha256 = λ _. "prefix";
  is_receipt = λ _. true;
  before_append = λ e. e;
}

lawful : Lawful hashing
lawful = record { ignores_hash = λ e x. refl; keeps_seq = λ e. refl; keeps_link = λ e. refl }

abbrev entry : ℕ → String → String → LedgerEntry
entry seq prev_hash actor = record {
  seq = seq;
  prev_hash = prev_hash;
  entry_hash = actor;
  actor = actor;
  action = write;
  target = "skill";
  evidence = "{}";
  at = "now";
}

abbrev one_line : Ledger
one_line = record {
  lines = entry 0 genesis_hash "first" ∷ [];
  torn = false;
  sidecar = some (record {
    entries = 1;
    next_seq = 1;
    tip_hash = "first";
    prefix_lines = 1;
    prefix_sha256 = "prefix";
  });
  tip = none;
}

abbrev remembered : Ledger
remembered = record one_line { tip = some (1, "first") }

abbrev two_lines : Ledger
two_lines = record {
  lines = entry 0 genesis_hash "first" ∷ entry 1 "first" "second" ∷ [];
  torn = false;
  sidecar = some (record {
    entries = 2;
    next_seq = 2;
    tip_hash = "second";
    prefix_lines = 2;
    prefix_sha256 = "prefix";
  });
  tip = some (2, "second");
}

verifies : verify hashing true one_line ≡ ok remembered
unfolding verify verified_full verify_chain check_entry written_sidecar
verifies = refl

appends :
    append hashing none "local" none "second" write "skill" "{}" "now" one_line
    ≡ ok (entry 1 "first" "second", two_lines)
unfolding append append_locked after_fence tip_for_append believed trusted scan_tip same_tip
    last_tip appended written_sidecar require_lease_token check on_missing
appends = refl

append-verify_example : verify hashing true two_lines ≡ ok two_lines
append-verify_example =
    append-verify hashing lawful none "local" none "second" write "skill" "{}" "now" one_line
      remembered two_lines (entry 1 "first" "second") verifies appends refl

-- The first line alone, with which the sidecar was written, and both lines in the file.
abbrev first_line : List LedgerEntry
first_line = entry 0 genesis_hash "first" ∷ []

abbrev grown : Ledger
grown = record two_lines { sidecar = some (written_sidecar hashing first_line (1, "first")) }

distinguishes : Distinguishes hashing grown.lines first_line
unfolding Distinguishes
distinguishes = λ _. refl

first_verifies : verify_chain hashing 0 genesis_hash first_line ≡ ok (1, "first")
unfolding verify_chain check_entry
first_verifies = refl

verify-suffix_agrees_example :
    tip_of (verify hashing false grown) ≡ tip_of (verify hashing true grown)
verify-suffix_agrees_example =
    verify-suffix_agrees hashing grown first_line 1 "first" distinguishes first_verifies refl
