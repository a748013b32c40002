-- ===== src/Jobs/Quota/Caps.antt =====
-- Every week stays within the weekly caps, whatever is reserved, settled and released.
use mathlib.Core.Option
use recertia.Prelude.{
  ℕ, ◌+◌, ◌≤◌, ◌≡◌, ◌∙◌, String, Bool, true, false, Option, none, some, List, [], ◌∷◌, ◌++◌, arith,
  count, find, str_eq, str_eq_comm, eq_iff, if◌then◌else◌, refl, sym, subst, ap, Bool-cases, inl,
  inr, ok, is_none,
}
use recertia.Prelude.Rows.{
  update_where, find-update_where-map, find-append_none, find-append_some, find-true, count-append,
  count-find-none,
}
use recertia.Prelude.Dict.{Dict}
use recertia.Contracts.Policy.{JobQuota, share_cap}
use recertia.Jobs.Quota.{
  Week, Reservation, QuotaDb, Request, Amounts, has_id, of_week, week_row, ensure_week, new_week,
  over_caps, held, hold, hold_row, hold_slot, update_held, inserted, reserve, reservation,
  amounts_of, class_slot,
}
use recertia.Jobs.Quota.Rows.{
  Cap, all_tokens, hex, computer_use, spent_of, reserved_of, amount_of, holds, outstanding,
  outstanding-append,
}

abbrev pub cap_of : JobQuota → Cap → ℕ
cap_of q all_tokens = q.weekly_token_cap
cap_of q hex = share_cap q.weekly_token_cap q.hex_share
cap_of q computer_use = share_cap q.weekly_token_cap q.computer_use_practice_share

-- A week's row says what the ledger holds, within the caps; without a row the ledger holds nothing.
abbrev pub WeekSound : JobQuota → List Reservation → String → Option Week → Type 0
WeekSound q ledger week none = (k : Cap) → outstanding k week ledger ≡ 0
WeekSound q ledger week (some row) =
    (k : Cap)
    → (outstanding k week ledger ≡ reserved_of k row)
      × (spent_of k row + reserved_of k row ≤ cap_of q k)

pub record Sound (q : JobQuota) (db : QuotaDb) : Type 0 where
  pub unique : (i : String) → count (has_id i) db.ledger ≤ 1
  pub weeks : (week : String) → WeekSound q db.ledger week (week_row week db.weeks)

-- A row found for a week is tested against another week as the week is.
pub of_week-found :
    (week w : String) (weeks : List Week) (row : Week)
    → week_row w weeks ≡ some row
    → of_week week row ≡ str_eq week w
of_week-found week w weeks row found =
    let same : row.week_id ≡ w = (eq_iff row.week_id w).0 (find-true (of_week w) weeks row found) in
    ap (λ v. str_eq v week) same ∙ str_eq_comm w week

module _ (q : JobQuota) where
  new_week-Sound :
      (ledger : List Reservation) (week w : String)
      → ((k : Cap) → outstanding k w ledger ≡ 0)
      → WeekSound q ledger w (some (new_week week))
  new_week-Sound ledger week w h all_tokens = (h all_tokens, omega arith)
  new_week-Sound ledger week w h hex = (h hex, omega arith)
  new_week-Sound ledger week w h computer_use = (h computer_use, omega arith)

  append-WeekSound :
      (ledger : List Reservation) (week w : String) (weeks : List Week) (o : Option Week)
      → week_row w weeks ≡ o
      → WeekSound q ledger w o
      → WeekSound q ledger w (week_row w (weeks ++ new_week week ∷ []))
  append-WeekSound ledger week w weeks (some row) e h =
      subst (WeekSound q ledger w) (sym (find-append_some (of_week w) weeks _ row e)) h
  append-WeekSound ledger week w weeks none e h =
      subst (WeekSound q ledger w) (sym (find-append_none (of_week w) weeks _ e))
        (pick (str_eq week w))
    where
      pick : (b : Bool) → WeekSound q ledger w (if b then some (new_week week) else none)
      pick true = new_week-Sound ledger week w h
      pick false = h

  ensure-WeekSound :
      (ledger : List Reservation) (week w : String) (weeks : List Week)
      → WeekSound q ledger w (week_row w weeks)
      → WeekSound q ledger w (week_row w (ensure_week week weeks))
  unfolding ensure_week
  ensure-WeekSound ledger week w weeks h = pick (is_none (week_row week weeks))
    where
      pick :
          (b : Bool)
          → WeekSound q ledger w (week_row w (if b then weeks ++ new_week week ∷ [] else weeks))
      pick true = append-WeekSound ledger week w weeks (week_row w weeks) refl h
      pick false = h

  -- A row that is not over the caps holds the amounts within them.
  held-fits :
      (a : Amounts) (jobs : Dict) (row : Week)
      → over_caps q row a ≡ false
      → (k : Cap) → spent_of k (held a jobs row) + reserved_of k (held a jobs row) ≤ cap_of q k
  unfolding over_caps held
  held-fits a jobs row fits all_tokens = ground arith
  held-fits a jobs row fits hex = ground arith
  held-fits a jobs row fits computer_use = ground arith

  module _ (week i : String) (req : Request) (stamp : ℕ) where
    asked : Amounts
    asked = amounts_of req.priority req.tokens req.task_class

    entry : Reservation
    entry = reservation i week req stamp

    held-amount :
        (jobs : Dict) (row : Week) (k : Cap)
        → (reserved_of k (held asked jobs row) ≡ reserved_of k row + amount_of k entry)
          × (spent_of k (held asked jobs row) ≡ spent_of k row)
    unfolding asked entry reservation amounts_of held
    held-amount jobs row all_tokens = (refl, refl)
    held-amount jobs row hex = (refl, refl)
    held-amount jobs row computer_use = (refl, refl)

    entry-holds :
        (k : Cap) (w : String) → holds k w entry ≡ (if str_eq week w then amount_of k entry else 0)
    unfolding entry reservation
    entry-holds k w = refl

    -- The rows after the update, for a week that may or may not be the reservation's.
    held-WeekSound :
        (ledger : List Reservation) (jobs : Dict) (weeks : List Week) (row : Week)
        → week_row week weeks ≡ some row
        → over_caps q row asked ≡ false
        → (w : String) (o : Option Week) → week_row w weeks ≡ o
        → WeekSound q ledger w o
        → WeekSound q
            (ledger ++ entry ∷ [])
            w
            (Option.map (λ x. if of_week week x then held asked jobs x else x) o)
    held-WeekSound ledger jobs weeks row found fits w none e h = λ k.
        let grown = outstanding-append k w ledger entry in
        let held_of = entry-holds k w in
        let zero_before = h k in
        elim (Bool-cases (str_eq week w)) [
          | inl same ↦ absurd (clash ((eq_iff week w).0 same))
          | inr other ↦ ground arith
        ]
      where
        clash : week ≡ w → ⊥
        clash same = cc
    held-WeekSound ledger jobs weeks row found fits w (some a) e h =
        let place = of_week-found week w weeks a e in
        elim (Bool-cases (str_eq week w)) [
          | inl same ↦
              let fits_a =
                subst (λ (x : Week). over_caps q x asked ≡ false)
                  (sym (row_of ((eq_iff week w).0 same))) fits in
              rw (place ∙ same) (λ k.
                let grown = outstanding-append k w ledger entry in
                let held_of = entry-holds k w in
                let amount = held-amount jobs a k in
                let before = h k in (ground arith, held-fits asked jobs a fits_a k))
          | inr other ↦ rw (place ∙ other) (λ k.
              let grown = outstanding-append k w ledger entry in
              let held_of = entry-holds k w in let before = h k in ground arith)
        ]
      where
        row_of : week ≡ w → a ≡ row
        row_of same = cc

    hold_row-some :
        (slot : Option String) (weeks weeks' : List Week) (o : Option Week)
        → hold_row q week asked slot weeks o ≡ some weeks'
        → (row : Week) × (jobs : Dict) × (o ≡ some row)
          × (over_caps q row asked ≡ false)
          × (update_where (of_week week) (held asked jobs) weeks ≡ weeks')
    unfolding hold_row update_held
    hold_row-some slot weeks weeks' none granted = cc
    hold_row-some slot weeks weeks' (some row) granted =
        let jobs = hold_slot q slot row.hex_jobs_by_class row.hex_jobs_reserved in
        elim (Bool-cases (over_caps q row asked)) [
          | inl over ↦ absurd (never over)
          | inr fits ↦ granted_jobs fits jobs refl
        ]
      where
        never : over_caps q row asked ≡ true → ⊥
        never over = ground arith

        granted_jobs :
            over_caps q row asked ≡ false
            → (o : Option Dict) → hold_slot q slot row.hex_jobs_by_class row.hex_jobs_reserved ≡ o
            → (r : Week) × (jobs : Dict) × (some row ≡ some r)
              × (over_caps q r asked ≡ false)
              × (update_where (of_week week) (held asked jobs) weeks ≡ weeks')
        granted_jobs fits none e = absurd (refused e)
          where
            refused : hold_slot q slot row.hex_jobs_by_class row.hex_jobs_reserved ≡ none → ⊥
            refused e' = ground arith
        granted_jobs fits (some jobs) e = (row, jobs, refl, fits, ground arith)

    hold-WeekSound :
        (ledger : List Reservation) (slot : Option String) (weeks weeks' : List Week)
        → ((w : String) → WeekSound q ledger w (week_row w weeks))
        → hold q week asked slot weeks ≡ some weeks'
        → (w : String) → WeekSound q (ledger ++ entry ∷ []) w (week_row w weeks')
    unfolding hold
    hold-WeekSound ledger slot weeks weeks' sound granted w =
        let (row, jobs, found, fits, updated) =
          hold_row-some slot weeks weeks' (week_row week weeks) granted in
        subst (λ ws. WeekSound q (ledger ++ entry ∷ []) w (week_row w ws)) updated
          (subst (WeekSound q (ledger ++ entry ∷ []) w)
            (sym (
              find-update_where-map (of_week week) (of_week w) (held asked jobs) (λ x. refl) weeks))
            (held-WeekSound ledger jobs weeks row found fits w (week_row w weeks) refl (sound w)))

    unique-append :
        (ledger : List Reservation)
        → find (has_id i) ledger ≡ none
        → ((j : String) → count (has_id j) ledger ≤ 1)
        → (j : String) → count (has_id j) (ledger ++ entry ∷ []) ≤ 1
    unfolding entry reservation
    unique-append ledger fresh unique j =
        let sum = count-append (has_id j) ledger (entry ∷ []) in
        let one = unique j in
        elim (Bool-cases (str_eq i j)) [
          | inl same ↦
              let zero =
                count-find-none (has_id j) ledger
                  (subst (λ x. find (has_id x) ledger ≡ none) ((eq_iff i j).0 same) fresh) in
              ground arith
          | inr other ↦ ground arith
        ]

  inserted-ok :
      (r : Reservation) (ledger : List Reservation) (o : Option (List Week)) (db : QuotaDb)
      → inserted r ledger o ≡ ok db
      → (weeks : List Week) × (o ≡ some weeks)
        × (find (has_id r.reservation_id) ledger ≡ none)
        × (record { weeks = weeks; ledger = ledger ++ r ∷ [] } ≡ db)
  unfolding inserted
  inserted-ok r ledger none db done = cc
  inserted-ok r ledger (some weeks) db done = (weeks, refl, ground arith, ground arith)

  -- A reservation that is granted keeps the database sound.
  pub reserve-Sound :
      (week i : String) (req : Request) (stamp : ℕ) (db db' : QuotaDb)
      → Sound q db
      → reserve q week i req stamp db ≡ ok db'
      → Sound q db'
  unfolding reserve asked entry reservation
  reserve-Sound week i req stamp db db' sound granted =
      let (weeks, held_weeks, fresh, same) =
        inserted-ok (reservation i week req stamp) db.ledger _ db' granted in
      subst (Sound q) same (record {
        unique = unique-append week i req stamp db.ledger fresh sound.unique;
        weeks =
            hold-WeekSound week i req stamp db.ledger (class_slot req.priority req.task_class)
              (ensure_week week db.weeks) weeks
              (λ w. ensure-WeekSound db.ledger week w db.weeks (sound.weeks w)) held_weeks;
      })
