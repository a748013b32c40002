-- ===== src/Nodes/FanOut/Partition/Permuted.antt =====
-- Dealing the criteria out loses none and repeats none.
use recertia.Prelude.{
  ◌∙◌, ℕ, zero, suc, ◌+◌, ◌%◌, ◌<◌, ◌≤◌, ◌≡◌, String, Option, some, List, [], ◌∷◌, ◌++◌, length,
  arith, subst, sym, ap, refl, append-nil, false, is_empty, All,
}
use native.Mathlib.Nat.{mod-lt}
use mathlib.Core.List.{Permᴰ, Perm}
use mathlib.Core.List.Permᴰ
use recertia.Contracts.Criteria.{TaskCriterion}
use recertia.Contracts.Run.{RunState}
use recertia.Nodes.{Message}
use recertia.Nodes.FanOut.Partition.{
  empty_parts, append_item, add_at, distribute, ids_of, name_parts, parts_of, partition_criteria,
  local_criteria, part_count,
}

module _ {ℓ} {A : Type ℓ} where
  -- The parts one after another.
  abbrev joined : List (List A) → List A
  joined [] = []
  joined (part ∷ parts) = part ++ joined parts

  append_item-Perm :
      (ys : List A) (x : A) (rest : List A) → Permᴰ (append_item ys x ++ rest) (x ∷ (ys ++ rest))
  append_item-Perm [] x rest = Permᴰ.refl (x ∷ rest)
  append_item-Perm (y ∷ ys) x rest =
      Permᴰ.trans (Permᴰ.cons refl (append_item-Perm ys x rest)) (Permᴰ.swap refl refl)

  add_at-Perm :
      (i : ℕ) (x : A) (parts : List (List A))
      → i < length parts
      → Permᴰ (joined (add_at i x parts)) (x ∷ joined parts)
  unfolding add_at
  add_at-Perm i x [] h = ground arith
  add_at-Perm zero x (part ∷ parts) h = append_item-Perm part x (joined parts)
  add_at-Perm (suc i) x (part ∷ parts) h =
      Permᴰ.trans (Permᴰ.append_left part (add_at-Perm i x parts (omega arith)))
        (Permᴰ.middle x part (joined parts))

  length-add_at : (i : ℕ) (x : A) (parts : List (List A)) → length (add_at i x parts) ≡ length parts
  unfolding add_at
  length-add_at i x [] = refl
  length-add_at zero x (part ∷ parts) = refl
  length-add_at (suc i) x (part ∷ parts) = ap suc (length-add_at i x parts)

  distribute-Perm :
      (n index : ℕ) (xs : List A) (parts : List (List A))
      → 1 ≤ n
      → length parts ≡ n
      → Permᴰ (joined (distribute n index xs parts)) (xs ++ joined parts)
  unfolding distribute
  distribute-Perm n index [] parts pos len = Permᴰ.refl (joined parts)
  distribute-Perm n index (x ∷ xs) parts pos len =
      let dealt = add_at (index % n) x parts in
      Permᴰ.trans
        (distribute-Perm n (index + 1) xs dealt pos (length-add_at (index % n) x parts ∙ len))
        (Permᴰ.trans
          (Permᴰ.append_left xs (add_at-Perm (index % n) x parts (rw len (mod-lt index pos))))
          (Permᴰ.middle x xs (joined parts)))

joined-empty_parts {ℓ} : {A : Type ℓ} (n : ℕ) → joined {A = A} (empty_parts n) ≡ []
unfolding empty_parts
joined-empty_parts zero = refl
joined-empty_parts {A} (suc n) = joined-empty_parts {A = A} n

length-empty_parts {ℓ} : (A : Type ℓ) (n : ℕ) → length (empty_parts {A = A} n) ≡ n
unfolding empty_parts
length-empty_parts A zero = refl
length-empty_parts A (suc n) = ap suc (length-empty_parts A n)

ids_of-append : (cs ds : List TaskCriterion) → ids_of (cs ++ ds) ≡ ids_of cs ++ ids_of ds
ids_of-append [] ds = refl
ids_of-append (c ∷ cs) ds = ap (λ r. c.id ∷ r) (ids_of-append cs ds)

ids_of-Perm : {cs ds : List TaskCriterion} → Permᴰ cs ds → Permᴰ (ids_of cs) (ids_of ds)
ids_of-Perm Permᴰ.nil = Permᴰ.nil
ids_of-Perm (Permᴰ.cons e p) = Permᴰ.cons (ap (λ (c : TaskCriterion). c.id) e) (ids_of-Perm p)
ids_of-Perm (Permᴰ.swap e f) =
    Permᴰ.swap (ap (λ (c : TaskCriterion). c.id) e) (ap (λ (c : TaskCriterion). c.id) f)
ids_of-Perm (Permᴰ.trans p q) = Permᴰ.trans (ids_of-Perm p) (ids_of-Perm q)

-- The ids that the parts own, one part after another.
abbrev pub owned_ids : List (String × List String) → List String
owned_ids [] = []
owned_ids ((name, ids) ∷ parts) = ids ++ owned_ids parts

abbrev pub NoEmptyPart : List (String × List String) → Type 0
NoEmptyPart = All (λ (part : String × List String). is_empty part.1 ≡ false)

module _ (render : Message → String) where
  owned_ids-name_parts :
      (index : ℕ) (parts : List (List TaskCriterion))
      → owned_ids (name_parts render index parts) ≡ ids_of (joined parts)
  unfolding name_parts
  owned_ids-name_parts index [] = refl
  owned_ids-name_parts index ([] ∷ parts) = owned_ids-name_parts (index + 1) parts
  owned_ids-name_parts index ((c ∷ cs) ∷ parts) =
      ap (λ r. c.id ∷ (ids_of cs ++ r)) (owned_ids-name_parts (index + 1) parts)
      ∙ ap (λ r. c.id ∷ r) (sym (ids_of-append cs (joined parts)))

  name_parts-NoEmptyPart :
      (index : ℕ) (parts : List (List TaskCriterion)) → NoEmptyPart (name_parts render index parts)
  unfolding name_parts
  name_parts-NoEmptyPart index [] = tt
  name_parts-NoEmptyPart index ([] ∷ parts) = name_parts-NoEmptyPart (index + 1) parts
  name_parts-NoEmptyPart index ((c ∷ cs) ∷ parts) = (refl, name_parts-NoEmptyPart (index + 1) parts)

  parts_of-Perm :
      (n : ℕ) (cs : List TaskCriterion)
      → 2 ≤ n
      → Permᴰ (owned_ids (name_parts render 0 (distribute n 0 cs (empty_parts n)))) (ids_of cs)
  parts_of-Perm n cs two =
      subst (λ r. Permᴰ r (ids_of cs))
        (sym (owned_ids-name_parts 0 (distribute n 0 cs (empty_parts n))))
        (ids_of-Perm (
          subst (λ r. Permᴰ (joined (distribute n 0 cs (empty_parts n))) r)
            (ap (λ r. cs ++ r) (joined-empty_parts n) ∙ append-nil cs)
            (distribute-Perm n 0 cs (empty_parts n) (omega arith) (length-empty_parts _ n))))

  parts_of-some :
      (n : ℕ) (cs : List TaskCriterion) (owned : List (String × List String))
      → parts_of render n cs ≡ some owned
      → (2 ≤ n) × (name_parts render 0 (distribute n 0 cs (empty_parts n)) ≡ owned)
  unfolding parts_of
  parts_of-some n cs owned cut = ground arith

  partition_criteria-some :
      (max_parts : Option ℕ) (s : RunState) (owned : List (String × List String))
      → partition_criteria render max_parts s ≡ some owned
      → parts_of render (part_count max_parts s) (local_criteria s) ≡ some owned
  unfolding partition_criteria
  partition_criteria-some max_parts s owned cut = ground arith

  -- The parts that a decomposition is cut into own the ids of the criteria that are not a judge's, all
  -- of them and each as often as the run has it, and no part is empty.
  pub partition_criteria-Perm :
      (max_parts : Option ℕ) (s : RunState) (owned : List (String × List String))
      → partition_criteria render max_parts s ≡ some owned
      → Perm (owned_ids owned) (ids_of (local_criteria s)) × NoEmptyPart owned
  partition_criteria-Perm max_parts s owned cut =
      let n = part_count max_parts s in
      let cs = local_criteria s in
      let (two, named) = parts_of-some n cs owned (partition_criteria-some max_parts s owned cut) in
      (
        subst (λ r. Perm (owned_ids r) (ids_of cs)) named ∣ parts_of-Perm n cs two ∣₁,
        subst NoEmptyPart named (name_parts-NoEmptyPart 0 (distribute n 0 cs (empty_parts n))),
      )

module _ {ℓ} {A : Type ℓ} where
  length-distribute :
      (n index : ℕ) (xs : List A) (parts : List (List A))
      → length (distribute n index xs parts) ≡ length parts
  unfolding distribute
  length-distribute n index [] parts = refl
  length-distribute n index (x ∷ xs) parts =
      length-distribute n (index + 1) xs (add_at (index % n) x parts)
      ∙ length-add_at (index % n) x parts

length-name_parts :
    (render : Message → String) (i : ℕ) (parts : List (List TaskCriterion))
    → length (name_parts render i parts) ≤ length parts
unfolding name_parts
length-name_parts render i [] = omega arith
length-name_parts render i (part ∷ parts) = ground (arith, length-name_parts render (i + 1) parts)

part_count-le : (n : ℕ) (s : RunState) → 1 ≤ n → part_count (some n) s ≤ n
unfolding part_count
part_count-le zero s pos = omega arith
part_count-le (suc n) s pos = omega arith

-- There are no more parts than asked for.
pub length-partition_criteria :
    (render : Message → String) (n : ℕ) (s : RunState) (parts : List (String × List String))
    → 1 ≤ n
    → partition_criteria render (some n) s ≡ some parts
    → length parts ≤ n
unfolding partition_criteria parts_of
length-partition_criteria render n s parts pos h =
    let k = part_count (some n) s in
    let dealt = distribute k 0 (local_criteria s) (empty_parts k) in
    let named = length-name_parts render 0 dealt in
    let same = length-distribute k 0 (local_criteria s) (empty_parts k) in
    let empty = length-empty_parts TaskCriterion k in
    let few = part_count-le n s pos in
    let le : length (name_parts render 0 dealt) ≤ n = omega arith in ground (arith, le)
