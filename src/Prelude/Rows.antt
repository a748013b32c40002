-- ===== src/Prelude/Rows.antt =====
-- Rows of a table as a list: SQL's UPDATE ... WHERE, and a lookup by key after it.
use Prim.Native.Nat.{◌+◌, ◌≤◌}
use mathlib.Core.Path.{◌≡◌, refl, subst}
use mathlib.Core.Bool.{Bool, true, false, ◌&&◌}
use mathlib.Core.List.{List, [], ◌∷◌, ◌++◌}
use mathlib.Core.Option
use mathlib.Core.Option.{Option, none, some}
use native.Mathlib.Omega.{arith}
use recertia.Prelude.Tests.{if◌then◌else◌}
use recertia.Prelude.Lists.{find, any, All, count}

module _ {ℓ} {A : Type ℓ} where
  abbrev pub update_where : (A → Bool) → (A → A) → List A → List A
  update_where p f [] = []
  update_where p f (x ∷ xs) = (if p x then f x else x) ∷ update_where p f xs

  -- The lookup of the key that is updated.
  pub find-update_where_self :
      (p : A → Bool) (f : A → A)
      → ((x : A) → p x ≡ true → p (f x) ≡ true)
      → (xs : List A) → find p (update_where p f xs) ≡ Option.map f (find p xs)
  find-update_where_self p f keeps [] = refl
  find-update_where_self p f keeps (x ∷ xs) =
      ground (arith, keeps x, find-update_where_self p f keeps xs)

  -- The lookup of a key that the update does not touch.
  pub find-update_where_other :
      (p q : A → Bool) (f : A → A)
      → ((x : A) → p x ≡ true → q (f x) ≡ q x)
      → (xs : List A) → ((y : A) → q y ≡ true → p y ≡ false)
      → find q (update_where p f xs) ≡ find q xs
  find-update_where_other p q f keeps [] apart = refl
  find-update_where_other p q f keeps (x ∷ xs) apart =
      ground (arith, keeps x, apart x, find-update_where_other p q f keeps xs apart)

  pub find-append_none :
      (p : A → Bool) (xs ys : List A) → find p xs ≡ none → find p (xs ++ ys) ≡ find p ys
  find-append_none p [] ys h = refl
  find-append_none p (x ∷ xs) ys h = ground (arith, find-append_none p xs ys)

  pub find-append_some :
      (p : A → Bool) (xs ys : List A) (a : A) → find p xs ≡ some a → find p (xs ++ ys) ≡ some a
  find-append_some p [] ys a h = ground arith
  find-append_some p (x ∷ xs) ys a h = ground (arith, find-append_some p xs ys a)

  pub All-update_where {κ} :
      (P : A → Type κ) (p : A → Bool) (f : A → A)
      → ((x : A) → p x ≡ true → P x → P (f x))
      → (xs : List A) → All P xs
      → All P (update_where p f xs)
  All-update_where P p f keeps [] h = tt
  All-update_where P p f keeps (x ∷ xs) h = (head (p x) refl, All-update_where P p f keeps xs h.1)
    where
      head : (b : Bool) → p x ≡ b → P (if b then f x else x)
      head true e = keeps x e h.0
      head false e = h.0

  pub find-true : (p : A → Bool) (xs : List A) (a : A) → find p xs ≡ some a → p a ≡ true
  find-true p [] a h = ground arith
  find-true p (x ∷ xs) a h = ground (arith, find-true p xs a)

module _ {ℓ} {A : Type ℓ} where
  -- The lookup of any key after an update that leaves the key as it is.
  pub find-update_where-some :
      (p q : A → Bool) (f : A → A)
      → ((x : A) → p x ≡ true → q (f x) ≡ q x)
      → (xs : List A) (a : A) → find q xs ≡ some a
      → find q (update_where p f xs) ≡ some (if p a then f a else a)
  find-update_where-some p q f same [] a h = ground arith
  find-update_where-some p q f same (x ∷ xs) a h =
      ground (arith, same x, find-update_where-some p q f same xs a)

  -- The lookup of any key after an update that leaves the key as it is, found or not.
  pub find-update_where-map :
      (p q : A → Bool) (f : A → A)
      → ((x : A) → q (f x) ≡ q x)
      → (xs : List A)
      → find q (update_where p f xs) ≡ Option.map (λ x. if p x then f x else x) (find q xs)
  find-update_where-map p q f same [] = refl
  find-update_where-map p q f same (x ∷ xs) =
      ground (arith, same x, find-update_where-map p q f same xs)

  pub count-update_where :
      (p q : A → Bool) (f : A → A)
      → ((x : A) → q (f x) ≡ q x)
      → (xs : List A) → count q (update_where p f xs) ≡ count q xs
  count-update_where p q f same [] = refl
  count-update_where p q f same (x ∷ xs) = ground (arith, same x, count-update_where p q f same xs)

  pub count-append : (q : A → Bool) (xs ys : List A) → count q (xs ++ ys) ≡ count q xs + count q ys
  count-append q [] ys = omega arith
  count-append q (x ∷ xs) ys = omega (arith, count-append q xs ys)

  pub count-find-none : (q : A → Bool) (xs : List A) → find q xs ≡ none → count q xs ≡ 0
  count-find-none q [] h = refl
  count-find-none q (x ∷ xs) h = ground (arith, count-find-none q xs)

-- SQL's DELETE ... WHERE.
module _ {ℓ} {A : Type ℓ} where
  abbrev pub remove_where : (A → Bool) → List A → List A
  remove_where q [] = []
  remove_where q (x ∷ xs) = let rest = remove_where q xs in if q x then rest else x ∷ rest

  pub find-remove_where :
      (p q : A → Bool) (xs : List A) (a : A)
      → find p xs ≡ some a
      → q a ≡ false
      → find p (remove_where q xs) ≡ some a
  find-remove_where p q [] a h e = ground arith
  find-remove_where p q (x ∷ xs) a h e = ground (arith, find-remove_where p q xs a)

  pub remove_where-none : (q : A → Bool) (xs : List A) → count q xs ≡ 0 → remove_where q xs ≡ xs
  remove_where-none q [] h = refl
  remove_where-none q (x ∷ xs) h = ground (arith, remove_where-none q xs)

  pub update_where-none :
      (q : A → Bool) (f : A → A) (xs : List A) → count q xs ≡ 0 → update_where q f xs ≡ xs
  update_where-none q f [] h = refl
  update_where-none q f (x ∷ xs) h = ground (arith, update_where-none q f xs)

  pub count-remove_where_le :
      (p q : A → Bool) (xs : List A) → count p (remove_where q xs) ≤ count p xs
  count-remove_where_le p q [] = omega arith
  count-remove_where_le p q (x ∷ xs) = ground (arith, count-remove_where_le p q xs)

  pub count-and_le : (p q : A → Bool) (xs : List A) → count (λ x. p x && q x) xs ≤ count p xs
  count-and_le p q [] = omega arith
  count-and_le p q (x ∷ xs) = ground (arith, count-and_le p q xs)

  -- Of rows of which at most one has a property, those with a stronger one.
  pub count-find_unique :
      (p q : A → Bool)
      → ((x : A) → q x ≡ true → p x ≡ true)
      → (xs : List A) (a : A) → find p xs ≡ some a
      → count p xs ≤ 1
      → count q xs ≡ (if q a then 1 else 0)
  count-find_unique p q le [] a h u = ground arith
  count-find_unique p q le (x ∷ xs) a h u =
      ground
        (arith, le x, count-find_unique p q le xs a, count-find-none p xs, count_zero p q le xs)
    where
      count_zero :
          (p q : A → Bool)
          → ((x : A) → q x ≡ true → p x ≡ true)
          → (xs : List A) → count p xs ≡ 0
          → count q xs ≡ 0
      count_zero p q le [] h = refl
      count_zero p q le (x ∷ xs) h = ground (arith, le x, count_zero p q le xs)

  pub All-remove_where {κ} :
      (P : A → Type κ) (q : A → Bool) (xs : List A) → All P xs → All P (remove_where q xs)
  All-remove_where P q [] h = tt
  All-remove_where P q (x ∷ xs) h = head (q x) (All-remove_where P q xs h.1)
    where
      head :
          (b : Bool)
          → All P (remove_where q xs)
          → All P (if b then remove_where q xs else x ∷ remove_where q xs)
      head true rest = rest
      head false rest = (h.0, rest)

  pub All-find {κ} :
      (P : A → Type κ) (p : A → Bool) (xs : List A) (a : A) → All P xs → find p xs ≡ some a → P a
  All-find P p [] a h e = ground arith
  All-find P p (x ∷ xs) a h e = pick (p x) refl (All-find P p xs a h.1)
    where
      pick : (b : Bool) → p x ≡ b → (find p xs ≡ some a → P a) → P a
      pick true t rest = subst P (ground arith) h.0
      pick false t rest = rest (ground arith)

  -- What a deletion does not touch.
  pub find-remove_where_other :
      (p q : A → Bool)
      → ((x : A) → q x ≡ true → p x ≡ false)
      → (xs : List A) → find p (remove_where q xs) ≡ find p xs
  find-remove_where_other p q apart [] = refl
  find-remove_where_other p q apart (x ∷ xs) =
      ground (arith, apart x, find-remove_where_other p q apart xs)

  pub any-remove_where_other :
      (p q : A → Bool)
      → ((x : A) → q x ≡ true → p x ≡ false)
      → (xs : List A) → any p (remove_where q xs) ≡ any p xs
  any-remove_where_other p q apart [] = refl
  any-remove_where_other p q apart (x ∷ xs) =
      ground (arith, apart x, any-remove_where_other p q apart xs)

  pub find-append_skip :
      (p : A → Bool) (xs : List A) (x : A) → p x ≡ false → find p (xs ++ x ∷ []) ≡ find p xs
  find-append_skip p [] x h = ground arith
  find-append_skip p (y ∷ xs) x h = ground (arith, find-append_skip p xs x h)
