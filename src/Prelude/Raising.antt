-- ===== src/Prelude/Raising.antt =====
-- What a call that may raise returns: its value, or the exception.
use mathlib.Core.Path.{◌≡◌, refl}
use mathlib.Core.Bool.{Bool, true, false}

pub data Outcome {ℓ} (E A : Type ℓ) : Type ℓ where
  raised : E → Outcome E A
  ok : A → Outcome E A

-- `if test: raise e`
abbrev pub raise_if {ℓ} : {E A : Type ℓ} → Bool → E → Outcome E A → Outcome E A
raise_if false e rest = rest
raise_if true e rest = raised e

module _ {ℓ} {E A B : Type ℓ} where
  infixl 6 ◌>>=◌
  abbrev pub ◌>>=◌ : Outcome E A → (A → Outcome E B) → Outcome E B
  raised exception >>= next = raised exception
  ok value >>= next = next value

  -- Two calls in a row returned: the first returned a value with which the second did.
  pub >>=-eq-ok :
      (call : Outcome E A) (next : A → Outcome E B) {b : B}
      → (call >>= next) ≡ ok b
      → (a : A) × (call ≡ ok a) × (next a ≡ ok b)
  >>=-eq-ok (raised exception) next returned = cc
  >>=-eq-ok (ok value) next returned = (value, refl, returned)

pub ok-injective {ℓ} : {E A : Type ℓ} {a b : A} → ◌≡◌ {A = Outcome E A} (ok a) (ok b) → a ≡ b
ok-injective h = cc

-- A `raise_if` that returned did not raise.
pub raise_if-eq-ok {ℓ} :
    {E A : Type ℓ} (test : Bool) (e : E) (rest : Outcome E A) {a : A}
    → raise_if test e rest ≡ ok a
    → (test ≡ false) × (rest ≡ ok a)
raise_if-eq-ok true e rest h = cc
raise_if-eq-ok false e rest h = (refl, h)
