-- ===== src/Prelude/Dict.antt =====
-- Python's dictionaries from texts to counts, as lists of their items in the order of insertion.
use Prim.Native.Nat.{ℕ, ◌+◌}
use Prim.Native.String.{String}
use mathlib.Core.List.{List, [], ◌∷◌}
use text.Mathlib.Text.{◌==◌ as str_eq}
use recertia.Prelude.Tests.{if◌then◌else◌}

abbrev pub Dict : Type 0
Dict = List (String × ℕ)

-- `d.get(key, 0)`
abbrev pub get : String → Dict → ℕ
get key [] = 0
get key ((k, n) ∷ d) = let later = get key d in if str_eq k key then n else later

-- `d[key] = n`
abbrev pub put : String → ℕ → Dict → Dict
put key n [] = (key, n) ∷ []
put key n ((k, m) ∷ d) =
    let later = put key n d in if str_eq k key then (k, n) ∷ d else (k, m) ∷ later

-- `d.pop(key, None)`
abbrev pub pop : String → Dict → Dict
pop key [] = []
pop key ((k, m) ∷ d) = let later = pop key d in if str_eq k key then d else (k, m) ∷ later

-- The sums of two dictionaries, key by key.
abbrev pub merge : Dict → Dict → Dict
merge a [] = a
merge a ((k, n) ∷ d) = merge (put k (get k a + n) a) d
