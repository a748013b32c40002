-- ===== src/Jobs/Quota/Rows.antt =====
-- What the ledger holds for a week, by the cap it counts against, and how the rows change under it.
use recertia.Prelude.{
  ℕ, ◌+◌, ◌≤◌, ◌≡◌, String, Bool, true, false, ◌&&◌, some, List, [], ◌∷◌, ◌++◌, arith, count, find,
  str_eq, if◌then◌else◌, refl, Bool-cases, inl, inr, subst, sym, ap,
}
use recertia.Prelude.Rows.{update_where}
use recertia.Jobs.Quota.{Week, Reservation, is_reserved, has_id, closed}

pub data Cap : Type 0 where
  all_tokens hex computer_use : Cap

abbrev pub spent_of : Cap → Week → ℕ
spent_of all_tokens row = row.tokens_spent
spent_of hex row = row.hex_tokens_spent
spent_of computer_use row = row.computer_use_tokens_spent

abbrev pub reserved_of : Cap → Week → ℕ
reserved_of all_tokens row = row.tokens_reserved
reserved_of hex row = row.hex_tokens_reserved
reserved_of computer_use row = row.computer_use_tokens_reserved

abbrev pub amount_of : Cap → Reservation → ℕ
amount_of all_tokens r = r.tokens_reserved
amount_of hex r = r.hex_tokens
amount_of computer_use r = r.computer_use_tokens

-- What an entry holds of a week.
abbrev pub holds : Cap → String → Reservation → ℕ
holds k week r = if is_reserved r.status && str_eq r.week_id week then amount_of k r else 0

-- What the open reservations of a week hold together.
abbrev pub outstanding : Cap → String → List Reservation → ℕ
outstanding k week [] = 0
outstanding k week (r ∷ ledger) = holds k week r + outstanding k week ledger

pub outstanding-append :
    (k : Cap) (week : String) (ledger : List Reservation) (r : Reservation)
    → outstanding k week (ledger ++ r ∷ []) ≡ outstanding k week ledger + holds k week r
outstanding-append k week [] r = omega arith
outstanding-append k week (x ∷ ledger) r = omega (arith, outstanding-append k week ledger r)

module _ (settle : Bool) (now : ℕ) (i : String) where
  abbrev pub close_all : List Reservation → List Reservation
  close_all = update_where (λ r. has_id i r && is_reserved r.status) (closed settle now)

  pub closed-id : (r : Reservation) → has_id i (closed settle now r) ≡ has_id i r
  unfolding closed
  closed-id r = refl

  closed-holds :
      (k : Cap) (week : String) (r : Reservation) → holds k week (closed settle now r) ≡ 0
  unfolding closed
  closed-holds k week r = split settle
    where
      split : (b : Bool) → holds k week (closed b now r) ≡ 0
      split true = refl
      split false = refl

  close_all-none :
      (k : Cap) (week : String) (ledger : List Reservation)
      → count (has_id i) ledger ≡ 0
      → outstanding k week (close_all ledger) ≡ outstanding k week ledger
  close_all-none k week [] h = refl
  close_all-none k week (r ∷ ledger) h = ground (arith, close_all-none k week ledger)

  -- Closing the one open reservation of an id frees what it holds.
  pub outstanding-close_all :
      (k : Cap) (week : String) (ledger : List Reservation) (e : Reservation)
      → count (has_id i) ledger ≤ 1
      → find (has_id i) ledger ≡ some e
      → is_reserved e.status ≡ true
      → outstanding k week (close_all ledger) + holds k week e ≡ outstanding k week ledger
  unfolding closed
  outstanding-close_all k week [] e one found live = ground arith
  outstanding-close_all k week (r ∷ ledger) e one found live = elim (Bool-cases (has_id i r)) [
    | inl same ↦
        let head : r ≡ e = found_head same in
        let rest = close_all-none k week ledger (rest_count same one) in
        let live_r = subst (λ (x : Reservation). is_reserved x.status ≡ true) (sym head) live in
        let gone = pick (has_id i r && is_reserved r.status) (rw (same, live_r) refl) in
        let moved = ap (λ (x : Reservation). holds k week x) head in
        omega (arith, gone, rest, moved)
    | inr other ↦ ground (arith, outstanding-close_all k week ledger e)
  ]
    where
      pick : (b : Bool) → b ≡ true → holds k week (if b then closed settle now r else r) ≡ 0
      pick true h = closed-holds k week r
      pick false h = ground arith

      found_head : has_id i r ≡ true → r ≡ e
      found_head same = ground arith

      rest_count :
          has_id i r ≡ true → count (has_id i) (r ∷ ledger) ≤ 1 → count (has_id i) ledger ≡ 0
      rest_count same h = ground arith
