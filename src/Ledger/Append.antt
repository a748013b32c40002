-- ===== src/Ledger/Append.antt =====
-- An append keeps a ledger that verifies one that verifies.
use recertia.Prelude.{
  ℕ, ◌+◌, ◌==◌, ◌≡◌, ◌∙◌, String, Bool, true, false, not, ◌&&◌, Option, some, List, [], ◌∷◌, ◌++◌,
  str_eq, str_eq_refl, length, Outcome, ok, raised, raise_if-eq-ok, >>=-eq-ok, ok-injective, arith,
  refl, sym, subst, ap, if◌then◌else◌,
}
use recertia.Persistence.Fence.{LeaseTable, LeaseLost, require_lease_token, allow}
use recertia.Ledger.{
  LedgerError, LedgerAction, LedgerEntry, Ledger, Hashing, genesis_hash, pending, is_close_receipt,
  last_tip, check_entry, verify_chain, scan_tip, tip_for_append, believed, appended, append,
  append_locked, after_fence, torn_tail, verified_full, written_sidecar, verify,
}

-- What the ledger relies on: the hash leaves out the hash of the entry itself, and a hook changes
-- neither the number of an entry nor its link nor its action.
pub record Lawful (h : Hashing) : Type 0 where
  pub ignores_hash :
      (e : LedgerEntry) (x : String) → h.entry_hash (record e { entry_hash = x }) ≡ h.entry_hash e
  pub keeps_seq : (e : LedgerEntry) → (h.before_append e).seq ≡ e.seq
  pub keeps_link : (e : LedgerEntry) → (h.before_append e).prev_hash ≡ e.prev_hash

module _ (h : Hashing) where
  check_entry-ok :
      (n : ℕ) (p : String) (e : LedgerEntry) (rest : Outcome LedgerError (ℕ × String))
      (t : ℕ × String)
      → check_entry h n p e rest ≡ ok t
      → (rest ≡ ok t)
        × ((other : Outcome LedgerError (ℕ × String)) → check_entry h n p e other ≡ other)
        × (e.seq ≡ n)
  unfolding check_entry
  check_entry-ok n p e rest t checked = (ground arith, λ other. ground arith, ground arith)

  check_entry-passes :
      (n : ℕ) (p : String) (e : LedgerEntry) (rest : Outcome LedgerError (ℕ × String))
      → e.seq ≡ n
      → e.prev_hash ≡ p
      → h.entry_hash (pending e) ≡ e.entry_hash
      → (is_close_receipt e.action && not (h.is_receipt e)) ≡ false
      → check_entry h n p e rest ≡ rest
  unfolding check_entry
  check_entry-passes n p e rest numbered linked hashed receipt =
      let same_seq : (e.seq == n) ≡ true = ground arith in
      let same_link = subst (λ x. str_eq e.prev_hash x ≡ true) linked (str_eq_refl e.prev_hash) in
      let same_hash =
        subst (λ x. str_eq (h.entry_hash (pending e)) x ≡ true) hashed
          (str_eq_refl (h.entry_hash (pending e))) in
      rw (same_seq, same_link, same_hash, receipt) refl

  -- Checking on behind a chain that verifies.
  pub verify_chain-append :
      (n : ℕ) (p : String) (es fs : List LedgerEntry) (m : ℕ) (q : String)
      → verify_chain h n p es ≡ ok (m, q)
      → verify_chain h n p (es ++ fs) ≡ verify_chain h m q fs
  unfolding verify_chain
  verify_chain-append n p [] fs m q checked = cc
  verify_chain-append n p (x ∷ es) fs m q checked =
      let (later, passes, _) =
        check_entry-ok n p x (verify_chain h (n + 1) x.entry_hash es) (m, q) checked in
      passes _ ∙ verify_chain-append (n + 1) x.entry_hash es fs m q later

  -- The tip of a chain that verifies is what its last line says, and its number counts the lines.
  verify_chain-last_tip :
      (n : ℕ) (p : String) (es : List LedgerEntry) (m : ℕ) (q : String)
      → verify_chain h n p es ≡ ok (m, q)
      → (last_tip (n, p) es ≡ (m, q)) × (m ≡ n + length es)
  unfolding verify_chain last_tip
  verify_chain-last_tip n p [] m q checked = (ok-injective checked, ground arith)
  verify_chain-last_tip n p (x ∷ es) m q checked =
      let (later, _, numbered) =
        check_entry-ok n p x (verify_chain h (n + 1) x.entry_hash es) (m, q) checked in
      let (tip, count) = verify_chain-last_tip (n + 1) x.entry_hash es m q later in
      (ap (λ k. last_tip (k + 1, x.entry_hash) es) numbered ∙ tip, omega (arith, count))

  tip_for_append-verified :
      (l : Ledger) (m : ℕ) (q : String)
      → verify_chain h 0 genesis_hash l.lines ≡ ok (m, q)
      → tip_for_append h l ≡ (m, q)
  unfolding tip_for_append scan_tip
  tip_for_append-verified l m q checked =
      let (tip, count) = verify_chain-last_tip 0 genesis_hash l.lines m q checked in
      pick (believed h l (last_tip (0, genesis_hash) l.lines) l.tip) tip (
        ap (λ k. (k, (last_tip (0, genesis_hash) l.lines).1)) (length_is count)
        ∙ ap (λ (t : ℕ × String). (m, t.1)) tip)
    where
      length_is : m ≡ 0 + length l.lines → length l.lines ≡ m
      length_is e = omega arith

      pick :
          (b : Bool)
          → last_tip (0, genesis_hash) l.lines ≡ (m, q)
          → scan_tip h l.lines ≡ (m, q)
          → (if b then last_tip (0, genesis_hash) l.lines else scan_tip h l.lines) ≡ (m, q)
      pick true shown scanned = shown
      pick false shown scanned = scanned

  module _ (lawful : Lawful h) (actor : String) (action : LedgerAction)
      (target evidence at : String) where
    -- The new entry, when the tip is known.
    new_entry : ℕ × String → LedgerEntry
    new_entry t = appended h actor action target evidence at t

    new_entry-checks :
        (m : ℕ) (q : String) (rest : Outcome LedgerError (ℕ × String))
        → (is_close_receipt (new_entry (m, q)).action && not (h.is_receipt (new_entry (m, q))))
          ≡ false
        → check_entry h m q (new_entry (m, q)) rest ≡ rest
    unfolding new_entry appended
    new_entry-checks m q rest receipt =
        check_entry-passes m q (new_entry (m, q)) rest (lawful.keeps_seq _) (lawful.keeps_link _)
          (lawful.ignores_hash _ "pending") receipt

  verified_full-ok :
      (l v : Ledger)
      → verify h true l ≡ ok v
      → (m : ℕ) × (q : String) × (verify_chain h 0 genesis_hash l.lines ≡ ok (m, q))
        × (l.torn ≡ false)
  unfolding verify verified_full
  verified_full-ok l v checked =
      let (whole, scanned) = raise_if-eq-ok l.torn torn_tail (verified_full h l) checked in
      let (t, chained, _) = >>=-eq-ok (verify_chain h 0 genesis_hash l.lines) _ scanned in
      (t.0, t.1, chained, whole)

  module _ (lawful : Lawful h) (leases : Option LeaseTable) (tenant : String) (token : Option ℕ)
      (actor : String) (action : LedgerAction) (target evidence at : String) (l : Ledger) where
    -- The ledger with a new entry behind a given tip.
    extended : ℕ × String → Ledger
    extended t =
        let e = appended h actor action target evidence at t in
        record {
          lines = l.lines ++ e ∷ [];
          torn = false;
          sidecar = some (written_sidecar h (l.lines ++ e ∷ []) (t.0 + 1, e.entry_hash));
          tip = some (t.0 + 1, e.entry_hash);
        }

    append-extended :
        (e : LedgerEntry) (l' : Ledger)
        → append h leases tenant token actor action target evidence at l ≡ ok (e, l')
        → (appended h actor action target evidence at (tip_for_append h l) ≡ e)
          × (extended (tip_for_append h l) ≡ l')
    unfolding append append_locked after_fence extended
    append-extended e l' done = unfenced (require_lease_token leases tenant target token allow) done
      where
        made :
            ◌≡◌ {A = Outcome LedgerError (LedgerEntry × Ledger)}
              (append_locked h actor action target evidence at l)
              (ok (e, l'))
            → (appended h actor action target evidence at (tip_for_append h l) ≡ e)
              × (extended (tip_for_append h l) ≡ l')
        made locked =
            let pair = ok-injective (raise_if-eq-ok l.torn torn_tail _ locked).1 in
            (
              ap (λ (p : LedgerEntry × Ledger). p.0) pair,
              ap (λ (p : LedgerEntry × Ledger). p.1) pair,
            )

        unfenced :
            (fence : Outcome LeaseLost (Unit {0}))
            → after_fence h fence (append_locked h actor action target evidence at l) ≡ ok (e, l')
            → (appended h actor action target evidence at (tip_for_append h l) ≡ e)
              × (extended (tip_for_append h l) ≡ l')
        unfenced (raised x) a = cc
        unfenced (ok x) a = made a

    extended-verify :
        (m : ℕ) (q : String)
        → verify_chain h 0 genesis_hash l.lines ≡ ok (m, q)
        → (is_close_receipt (appended h actor action target evidence at (m, q)).action
            && not (h.is_receipt (appended h actor action target evidence at (m, q))))
          ≡ false
        → verify h true (extended (m, q)) ≡ ok (extended (m, q))
    unfolding verify verified_full verify_chain extended new_entry
    extended-verify m q chained receipt =
        let e = appended h actor action target evidence at (m, q) in
        rw
          (verify_chain-append 0 genesis_hash l.lines (e ∷ []) m q chained
            ∙ new_entry-checks lawful actor action target evidence at m q (ok (m + 1, e.entry_hash))
                receipt)
          refl

    -- If a ledger verifies in full, its hashing is lawful, and an append returned an entry (whose
    -- evidence is a receipt if it closes one), then the ledger that the append left verifies in full,
    -- and the verification leaves the sidecar and the remembered tip as the append wrote them.
    pub append-verify :
        (v l' : Ledger) (e : LedgerEntry)
        → verify h true l ≡ ok v
        → append h leases tenant token actor action target evidence at l ≡ ok (e, l')
        → (is_close_receipt e.action && not (h.is_receipt e)) ≡ false
        → verify h true l' ≡ ok l'
    append-verify v l' e verified done receipt =
        let (m, q, chained, _) = verified_full-ok l v verified in
        let (new, left) = append-extended e l' done in
        let tip = tip_for_append-verified l m q chained in
        let same = ap extended (sym tip) ∙ left in
        subst (λ x. verify h true x ≡ ok x) same
          (extended-verify m q chained (
            subst (λ (x : LedgerEntry). (is_close_receipt x.action && not (h.is_receipt x)) ≡ false)
              (sym (ap (appended h actor action target evidence at) (sym tip) ∙ new)) receipt))
