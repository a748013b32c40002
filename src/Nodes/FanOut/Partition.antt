-- ===== src/Nodes/FanOut/Partition.antt =====
-- `_partition_criteria` of nodes/fan_out.py: the criteria that are not a judge's, dealt out in turn.
pub mod Permuted
use recertia.Prelude.{
  ℕ, zero, suc, ◌+◌, ◌%◌, min, String, Bool, true, false, not, Option, none, some, List, [], ◌∷◌,
  ltb, keep, length, is_empty, if◌then◌else◌,
}
use recertia.Contracts.Criteria.{TaskCriterion, is_judge}
use recertia.Contracts.Run.{RunState}
use recertia.Nodes.{Message, part_name}

-- `local`
unfoldable pub local_criteria : RunState → List TaskCriterion
local_criteria s = keep (λ c. not (is_judge c.kind)) s.criteria

-- `max_parts or 2`
abbrev parts_or_two : Option ℕ → ℕ
parts_or_two none = 2
parts_or_two (some zero) = 2
parts_or_two (some (suc n)) = suc n

unfoldable pub part_count : Option ℕ → RunState → ℕ
unfolding local_criteria
part_count max_parts s = min (parts_or_two max_parts) (length (local_criteria s))

module _ {ℓ} {A : Type ℓ} where
  -- `[[] for _ in range(n)]`
  unfoldable pub empty_parts : ℕ → List (List A)
  empty_parts zero = []
  empty_parts (suc n) = [] ∷ empty_parts n

  abbrev append_item : List A → A → List A
  append_item [] x = x ∷ []
  append_item (y ∷ ys) x = y ∷ append_item ys x

  -- `parts[i].append(x)`
  unfoldable pub add_at : ℕ → A → List (List A) → List (List A)
  add_at i x [] = []
  add_at zero x (part ∷ parts) = append_item part x ∷ parts
  add_at (suc i) x (part ∷ parts) = part ∷ add_at i x parts

  -- The loop over the criteria, from an index on.
  unfoldable pub distribute : ℕ → ℕ → List A → List (List A) → List (List A)
  unfolding add_at
  distribute part_count index [] parts = parts
  distribute part_count index (x ∷ xs) parts =
      distribute part_count (index + 1) xs (add_at (index % part_count) x parts)

abbrev pub ids_of : List TaskCriterion → List String
ids_of [] = []
ids_of (c ∷ cs) = c.id ∷ ids_of cs

module _ (render : Message → String) where
  -- The parts with their names, the empty ones left out.
  unfoldable pub name_parts : ℕ → List (List TaskCriterion) → List (String × List String)
  name_parts index [] = []
  name_parts index (part ∷ parts) =
      let rest = name_parts (index + 1) parts in
      if is_empty part then rest else (render (part_name (index + 1)), ids_of part) ∷ rest

  unfoldable pub parts_of : ℕ → List TaskCriterion → Option (List (String × List String))
  unfolding empty_parts distribute name_parts
  parts_of n local =
      if ltb n 2 then none else some (name_parts 0 (distribute n 0 local (empty_parts n)))

  unfoldable pub partition_criteria : Option ℕ → RunState → Option (List (String × List String))
  unfolding parts_of
  partition_criteria max_parts s =
      if ltb (length (local_criteria s)) 2
      then none
      else parts_of (part_count max_parts s) (local_criteria s)
