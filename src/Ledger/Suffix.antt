-- ===== src/Ledger/Suffix.antt =====
-- The scan of the suffix behind a sidecar answers what the full scan answers.
use recertia.Prelude.{
  ℕ, zero, suc, ◌≡◌, ◌∙◌, String, Bool, true, false, &&-true, Option, some, List, [], ◌∷◌, ◌++◌,
  eq_iff, leb, length, Outcome, ok, raised, raise_if, refl, sym, subst, ap, if◌then◌else◌, ◌>>=◌,
}
use recertia.Ledger.{
  LedgerError, LedgerEntry, TipSidecar, Ledger, Hashing, genesis_hash, first_lines, after_lines,
  verify_chain, sidecar_matches, written_sidecar, verified_full, verified_suffix, by_sidecar,
  verify, torn_tail,
}
use recertia.Ledger.Append.{verify_chain-append}

-- The tip that a verification leaves, or its error.
abbrev pub tip_of : Outcome LedgerError Ledger → Outcome LedgerError (Option (ℕ × String))
tip_of (raised e) = raised e
tip_of (ok l) = ok l.tip

-- A scan's answer, as a tip.
scanned : Outcome LedgerError (ℕ × String) → Outcome LedgerError (Option (ℕ × String))
scanned (raised e) = raised e
scanned (ok t) = ok (some t)

tip_of-scan :
    (scan : Outcome LedgerError (ℕ × String)) (left : ℕ × String → Ledger)
    → ((t : ℕ × String) → (left t).tip ≡ some t)
    → tip_of (scan >>= λ t. ok (left t)) ≡ scanned scan
unfolding scanned
tip_of-scan (raised e) left tips = refl
tip_of-scan (ok t) left tips = ap ok (tips t)

-- The hash tells the first lines of a file from the lines that a sidecar was written for.
unfoldable pub Distinguishes : Hashing → List LedgerEntry → List LedgerEntry → Type 0
Distinguishes h lines old =
    h.prefix_sha256 (first_lines (length old) lines) ≡ h.prefix_sha256 old
    → first_lines (length old) lines ≡ old

first_lines-append :
    (n : ℕ) (lines : List LedgerEntry) → first_lines n lines ++ after_lines n lines ≡ lines
first_lines-append zero lines = refl
first_lines-append (suc n) [] = refl
first_lines-append (suc n) (e ∷ lines) = ap (λ r. e ∷ r) (first_lines-append n lines)

module _ (h : Hashing) where
  matched_prefix :
      (lines old : List LedgerEntry) (t : ℕ × String)
      → Distinguishes h lines old
      → sidecar_matches h lines (written_sidecar h old t) ≡ true
      → first_lines (length old) lines ≡ old
  unfolding Distinguishes sidecar_matches written_sidecar
  matched_prefix lines old t distinct matches =
      distinct
        ((eq_iff _ (h.prefix_sha256 old)).0 (&&-true (leb (length old) (length lines)) _ matches).1)

  suffix-agrees :
      (lines old : List LedgerEntry) (m : ℕ) (q : String)
      → Distinguishes h lines old
      → verify_chain h 0 genesis_hash old ≡ ok (m, q)
      → sidecar_matches h lines (written_sidecar h old (m, q)) ≡ true
      → verify_chain h m q (after_lines (length old) lines) ≡ verify_chain h 0 genesis_hash lines
  suffix-agrees lines old m q distinct chained matches =
      let front = matched_prefix lines old (m, q) distinct matches in
      sym (
        ap (verify_chain h 0 genesis_hash) (
          sym (first_lines-append (length old) lines)
          ∙ ap (λ xs. xs ++ after_lines (length old) lines) front)
        ∙ verify_chain-append h 0 genesis_hash old (after_lines (length old) lines) m q chained)

  scans-agree :
      (l : Ledger) (side : TipSidecar)
      → verify_chain h side.entries side.tip_hash (after_lines side.prefix_lines l.lines)
        ≡ verify_chain h 0 genesis_hash l.lines
      → tip_of (verified_suffix h l side) ≡ tip_of (verified_full h l)
  unfolding verified_suffix verified_full
  scans-agree l side same =
      tip_of-scan
        (verify_chain h side.entries side.tip_hash (after_lines side.prefix_lines l.lines)) _
        (λ t. refl)
      ∙ ap scanned same
      ∙ sym (tip_of-scan (verify_chain h 0 genesis_hash l.lines) _ (λ t. refl))

  -- If a ledger's sidecar was written for lines that verified, and the hash tells the file's first lines
  -- from those if they differ, then verifying from the sidecar on answers what verifying in full answers: the same error,
  -- or the same count of entries and the same last hash, also when the file was changed since.
  pub verify-suffix_agrees :
      (l : Ledger) (old : List LedgerEntry) (m : ℕ) (q : String)
      → Distinguishes h l.lines old
      → verify_chain h 0 genesis_hash old ≡ ok (m, q)
      → l.sidecar ≡ some (written_sidecar h old (m, q))
      → tip_of (verify h false l) ≡ tip_of (verify h true l)
  unfolding verify by_sidecar
  verify-suffix_agrees l old m q distinct chained written = by_torn l.torn
    where
      by_match :
          (b : Bool)
          → sidecar_matches h l.lines (written_sidecar h old (m, q)) ≡ b
          → tip_of
              (if b then verified_suffix h l (written_sidecar h old (m, q)) else verified_full h l)
            ≡ tip_of (verified_full h l)
      by_match false e = refl
      by_match true e =
          scans-agree l (written_sidecar h old (m, q))
            (suffix-agrees l.lines old m q distinct chained e)

      by_torn :
          (b : Bool)
          → tip_of (raise_if b torn_tail (by_sidecar h l l.sidecar))
            ≡ tip_of (raise_if b torn_tail (verified_full h l))
      by_torn true = refl
      by_torn false =
          subst (λ o. tip_of (by_sidecar h l o) ≡ tip_of (verified_full h l)) (sym written)
            (by_match _ refl)
