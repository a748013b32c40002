-- ===== src/Jobs/Quota/Finish.antt =====
-- Settling and releasing: they keep every week sound, and a second call changes nothing.
use mathlib.Core.Option
use recertia.Prelude.{
  ℕ, ◌+◌, ◌-◌, ◌≤◌, ◌≡◌, ◌∙◌, String, Bool, true, false, ◌&&◌, Option, none, some, List, arith,
  count, find, str_eq, if◌then◌else◌, refl, sym, subst, ap, Bool-cases, inl, inr,
}
use recertia.Prelude.Rows.{update_where, find-update_where-map, count-update_where, find-true}
use recertia.Contracts.Policy.{JobQuota}
use recertia.Jobs.Quota.{
  Week, Reservation, QuotaDb, is_reserved, has_id, of_week, week_row, unheld, closed, finished,
  finish, finish_row,
}
use recertia.Jobs.Quota.Rows.{
  Cap, all_tokens, hex, computer_use, spent_of, reserved_of, amount_of, holds, close_all,
  outstanding-close_all,
}
use recertia.Jobs.Quota.Caps.{WeekSound, Sound, of_week-found}

-- What settling or releasing an entry makes of its week's row.
unheld-amount :
    (settle : Bool) (e : Reservation) (row : Week) (k : Cap)
    → (reserved_of k (unheld settle e row) ≡ reserved_of k row - amount_of k e)
      × (spent_of k (unheld settle e row) ≤ spent_of k row + amount_of k e)
unfolding unheld
unheld-amount settle e row all_tokens = (refl, ground arith)
unheld-amount settle e row hex = (refl, ground arith)
unheld-amount settle e row computer_use = (refl, ground arith)

module _ (q : JobQuota) (settle : Bool) (now : ℕ) (i : String) where
  unheld-WeekSound :
      (ledger : List Reservation) (weeks : List Week) (e : Reservation)
      → count (has_id i) ledger ≤ 1
      → find (has_id i) ledger ≡ some e
      → is_reserved e.status ≡ true
      → (w : String) (o : Option Week) → week_row w weeks ≡ o
      → WeekSound q ledger w o
      → WeekSound q
          (close_all settle now i ledger)
          w
          (Option.map (λ x. if of_week e.week_id x then unheld settle e x else x) o)
  unheld-WeekSound ledger weeks e one found live w none at h = λ k.
      let freed = outstanding-close_all settle now i k w ledger e one found live in
      let before = h k in omega arith
  unheld-WeekSound ledger weeks e one found live w (some a) at h =
      let place = of_week-found e.week_id w weeks a at in
      elim (Bool-cases (str_eq e.week_id w)) [
        | inl same ↦ rw (place ∙ same) (λ k.
            let freed = outstanding-close_all settle now i k w ledger e one found live in
            let holding : holds k w e ≡ amount_of k e = rw (live, same) refl in
            let before = h k in
            let after = unheld-amount settle e a k in
            (
              omega (arith, freed, holding, before.0, after.0),
              omega (arith, freed, holding, before.0, before.1, after.0, after.1),
            ))
        | inr other ↦ rw (place ∙ other) (λ k.
            let freed = outstanding-close_all settle now i k w ledger e one found live in
            let holding : holds k w e ≡ 0 = rw (live, other) refl in
            let before = h k in (omega (arith, freed, holding, before.0), before.1))
      ]

  finished-Sound :
      (db : QuotaDb) (e : Reservation)
      → Sound q db
      → find (has_id i) db.ledger ≡ some e
      → is_reserved e.status ≡ true
      → Sound q (finished settle now i e db)
  unfolding finished
  finished-Sound db e sound found live = record {
    unique = λ j.
        subst (λ n. n ≤ 1)
          (sym (
            count-update_where (λ r. has_id i r && is_reserved r.status) (has_id j)
              (closed settle now) (λ x. refl) db.ledger))
          (sound.unique j);
    weeks = λ w.
        subst (WeekSound q (close_all settle now i db.ledger) w)
          (sym (
            find-update_where-map (of_week e.week_id) (of_week w) (unheld settle e) (λ x. refl)
              db.weeks))
          (unheld-WeekSound db.ledger db.weeks e (sound.unique i) found live w (week_row w db.weeks)
            refl (sound.weeks w));
  }

  -- Settling or releasing a reservation, known or not, keeps the database sound.
  pub finish-Sound : (db : QuotaDb) → Sound q db → Sound q (finish settle now i db)
  unfolding finish finish_row
  finish-Sound db sound = split (find (has_id i) db.ledger) refl
    where
      split :
          (o : Option Reservation)
          → find (has_id i) db.ledger ≡ o
          → Sound q (finish_row settle now i db o)
      split none e = sound
      split (some r) e = by_status (is_reserved r.status) refl
        where
          by_status :
              (b : Bool)
              → is_reserved r.status ≡ b
              → Sound q (if b then finished settle now i r db else db)
          by_status true live = finished-Sound db r sound e live
          by_status false live = sound

module _ (settle again : Bool) (now later : ℕ) (i : String) (db : QuotaDb) where
  -- An id that names no open reservation is left alone.
  left_alone :
      (o : Option Reservation)
      → ((r : Reservation) → o ≡ some r → is_reserved r.status ≡ false)
      → (d : QuotaDb) → finish_row again later i d o ≡ d
  unfolding finish_row
  left_alone none done d = refl
  left_alone (some r) done d = rw (done r refl) refl

  closed_once :
      (r x : Reservation)
      → has_id i r ≡ true
      → is_reserved r.status ≡ true
      → Option.map
          (λ y. if has_id i y && is_reserved y.status then closed settle now y else y)
          (some r)
        ≡ some x
      → is_reserved x.status ≡ false
  unfolding closed
  closed_once r x own live e = ground arith

  finish_row-finish_row :
      (o : Option Reservation)
      → find (has_id i) db.ledger ≡ o
      → finish_row again later i
          (finish_row settle now i db o)
          (find (has_id i) (finish_row settle now i db o).ledger)
        ≡ finish_row settle now i db o
  unfolding finish_row
  finish_row-finish_row none e = left_alone _ (λ r h. cc) db
  finish_row-finish_row (some r) e = by_status (is_reserved r.status) refl
    where
      by_status :
          (b : Bool)
          → is_reserved r.status ≡ b
          → finish_row again later i
              (if b then finished settle now i r db else db)
              (find (has_id i) (if b then finished settle now i r db else db).ledger)
            ≡ (if b then finished settle now i r db else db)
      by_status false live =
          left_alone (find (has_id i) db.ledger)
            (λ x h. subst (λ (y : Reservation). is_reserved y.status ≡ false) (same x h) live) db
        where
          same : (x : Reservation) → find (has_id i) db.ledger ≡ some x → r ≡ x
          same x h = cc
      by_status true live = after (finished settle now i r db) refl
        where
          after :
              (d : QuotaDb)
              → d.ledger
                ≡ update_where
                    (λ y. has_id i y && is_reserved y.status)
                    (closed settle now)
                    db.ledger
              → finish_row again later i d (find (has_id i) d.ledger) ≡ d
          after d e' =
              left_alone (find (has_id i) d.ledger)
                (λ x h. closed_once r x (find-true (has_id i) db.ledger r e) live (
                  ap (Option.map _) (sym e)
                  ∙ sym (
                      find-update_where-map (λ y. has_id i y && is_reserved y.status) (has_id i)
                        (closed settle now) (λ y. refl) db.ledger)
                  ∙ ap (find (has_id i)) (sym e')
                  ∙ h))
                d

  -- Once a reservation was settled or released, settling or releasing it again, in whichever way and at
  -- whatever time, changes nothing.
  pub finish-finish : finish again later i (finish settle now i db) ≡ finish settle now i db
  unfolding finish
  finish-finish = finish_row-finish_row (find (has_id i) db.ledger) refl
