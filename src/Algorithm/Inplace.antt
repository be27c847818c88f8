-- ===== src/Algorithm/Inplace.antt =====
-- seq/algorithm.hpp: the merge of two neighbouring ranges in place, with a buffer for `size`
-- elements. The search is that of `merge_forward`, and the merges through the buffer are those of
-- ranges apart from their output. `merge_adaptive` is `merge_adaptive_n<true>`, and
-- `merge_parts` is `merge_adaptive_n<false>`.
pub mod Split
pub mod Checks
pub mod Pivot
pub mod Merged
use mathlib.Core.List.{reverse}
use seq.Prelude.{
  Bool, true, false, not, ◌||◌, ℕ, zero, suc, ◌/◌, ◌+◌, none, some, List, [], ◌∷◌, ◌++◌, length,
  take, drop, focus, ltb, leb, if◌then◌else◌,
}
use seq.Algorithm.{span, merge_forward}

module _ {A : Type 0} where
  -- The last element, if the list has one.
  abbrev pub last_or : A → List A → A
  last_or d [] = d
  last_or d (x ∷ xs) = last_or x xs

  -- The list without the elements at its end that satisfy `p`, and those.
  abbrev pub trim : (A → Bool) → List A → List A × List A
  trim p [] = ([], [])
  trim p (x ∷ xs) =
      let rest = trim p xs in
      elim rest.0 [
        | [] ↦ if p x then ([], x ∷ rest.1) else (x ∷ [], rest.1)
        | y ∷ ys ↦ (x ∷ y ∷ ys, rest.1)
      ]

module _ {A : Type 0} (merge_rest : List A → List A → List A) where
  -- The first range without the elements that `y`, the first of the second range, is not before,
  -- and the second without those at its end that are in their places. A single element of the
  -- second is brought to the front by `rotate_one_right`.
  abbrev pub merge_trimmed : A → List A × List A → List A × List A → List A
  merge_trimmed y s t = elim s.1 [
    | [] ↦ s.0 ++ y ∷ (t.0 ++ t.1)
    | x ∷ xs ↦ elim t.0 [
      | [] ↦ s.0 ++ y ∷ x ∷ (xs ++ t.1)
      | z ∷ zs ↦ s.0 ++ (merge_rest (x ∷ xs) (y ∷ z ∷ zs) ++ t.1)
    ]
  ]

module _ {A : Type 0} (c : A → A → Bool) (merge_rest : List A → List A → List A) where
  -- The easy checks: nothing to do, a rotation, elements that are in their places at the
  -- beginning and at the end. What remains is merged by `merge_rest`.
  abbrev pub first_checks : List A → List A → List A
  first_checks [] ys = ys
  first_checks (x ∷ xs) [] = x ∷ xs
  first_checks (x ∷ xs) (y ∷ ys) =
      let highest = last_or x xs in
      if not (c y highest)
      then x ∷ (xs ++ y ∷ ys)
      else if c (last_or y ys) x
      then y ∷ (ys ++ x ∷ xs)
      else merge_trimmed merge_rest y (span (λ z. not (c y z)) (x ∷ xs))
          (trim (λ z. not (c z highest)) ys)

module _ {A : Type 0} (c : A → A → Bool) (search : (A → Bool) → List A → ℕ) (random : Bool) where
  -- `merge_forward` from behind, with the arguments of the comparison exchanged.
  abbrev pub merge_backward : List A → List A → List A
  merge_backward xs ys =
      reverse (merge_forward (λ a b. c b a) search random (reverse ys) (reverse xs))

  abbrev pub merge_with_buffer : List A → List A → List A
  merge_with_buffer xs ys =
      if leb (length xs) (length ys)
      then merge_forward c search random xs ys
      else merge_backward xs ys

  module _ (merge_rest : List A → List A → List A) where
    -- `merge_inplace_left_subproblem`: the middle of the first range, and the elements of the
    -- second that stand before it, are brought to their place by a rotation.
    abbrev pub split_left : List A → List A → List A
    split_left xs ys = elim (focus (length xs / 2) xs) [
      | none ↦ xs ++ ys
      | some r ↦
          let n = search (λ z. c z r.1) ys in
          merge_rest r.0 (take n ys) ++ r.1 ∷ merge_rest r.2 (drop n ys)
    ]

    -- `merge_inplace_right_subproblem`: the middle of the second range, and the elements of the
    -- first that it stands before.
    abbrev pub split_right : List A → List A → List A
    split_right xs ys = elim (focus (length ys / 2) ys) [
      | none ↦ xs ++ ys
      | some r ↦
          let n = search (λ z. not (c r.1 z)) xs in
          merge_rest (take n xs) r.0 ++ r.1 ∷ merge_rest (drop n xs) r.2
    ]

    abbrev pub merge_parts : ℕ → List A → List A → List A
    merge_parts size xs ys =
        if leb (length xs) size || leb (length ys) size
        then merge_with_buffer xs ys
        else if ltb (length xs) (length ys)
        then split_left xs ys
        else split_right xs ys

  -- The recursion, on fuel.
  abbrev pub merge_adaptive : ℕ → ℕ → List A → List A → List A
  merge_adaptive zero size xs ys = xs ++ ys
  merge_adaptive (suc n) size xs ys =
      first_checks c (merge_parts (merge_adaptive n size) size) xs ys

  -- `inplace_merge` makes the easy checks itself.
  abbrev pub inplace_merge : ℕ → List A → List A → List A
  inplace_merge size xs ys =
      first_checks c (merge_parts (merge_adaptive (length xs + length ys) size) size) xs ys
