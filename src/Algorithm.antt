-- ===== src/Algorithm.antt =====
-- seq/algorithm.hpp: the parts that the merge sort is made of. A range is the list of its
-- elements, `c a b` says that `a` stands before `b`, and what a function leaves in a range or
-- writes to its output is a list. `merge_forward` writes to a range apart from its inputs.
pub mod Stable
mod Insertion
mod Reversal
mod Merging
pub mod Inplace
pub mod Network
pub mod Runs
pub mod Blocks
mod Tests
use mathlib.Core.List.{reverse}
use seq.Prelude.{
  Bool, true, false, not, ◌&&◌, ℕ, zero, suc, ◌*◌, Option, none, some, ◌>>=◌, List, [], ◌∷◌, ◌++◌,
  length, take, drop, ltb, if◌then◌else◌,
}

-- The elements up to the first that does not satisfy `p`, and those from it on.
abbrev pub span : {A : Type 0} → (A → Bool) → List A → List A × List A
span p [] = ([], [])
span p (x ∷ xs) = let rest = span p xs in if p x then (x ∷ rest.0, rest.1) else ([], x ∷ xs)

module _ {A : Type 0} (c : A → A → Bool) where
  -- `tmp` moves in front of the elements that it stands before; the last of the sorted elements
  -- is the first of the list.
  abbrev pub sift : A → List A → List A
  sift tmp [] = tmp ∷ []
  sift tmp (prev ∷ sorted) = if c tmp prev then prev ∷ sift tmp sorted else tmp ∷ prev ∷ sorted

  -- The sorted elements, last first, and those from `cur` on. `none` is a read behind the last
  -- element.
  abbrev pub insertion_loop : ℕ → List A → List A → Option (List A × List A)
  insertion_loop zero sorted xs = some (sorted, xs)
  insertion_loop (suc n) sorted [] = none
  insertion_loop (suc n) sorted (cur ∷ xs) = insertion_loop n (sift cur sorted) xs

  -- The elements before the iterator that is returned, and those from it on.
  abbrev pub insertion_sort_n : ℕ → List A → Option (List A × List A)
  insertion_sort_n zero xs = some ([], xs)
  insertion_sort_n (suc n) [] = none
  insertion_sort_n (suc n) (x ∷ xs) = do r ← insertion_loop n (x ∷ []) xs; some (reverse r.0, r.1)

  abbrev mutual
    -- The loop through elements that are not equal: `prev`, the elements in front of it, the
    -- nearest first, and those from `begin` on. The result is what the last `std::reverse` makes
    -- of them.
    pub descend : A → List A → List A → List A
    descend prev before [] = prev ∷ before
    descend prev before (x ∷ xs) =
        if c x prev then descend x (prev ∷ before) xs else level prev [] x before xs

    -- A range of equal elements: its first one, those between, and `prev`, its last one. When it
    -- ends, `std::reverse` makes `start` the element in front of `begin`.
    pub level : A → List A → A → List A → List A → List A
    level start between prev before [] = start ∷ (between ++ prev ∷ before)
    level start between prev before (x ∷ xs) =
        if c x prev
        then (if c x start
            then descend x (start ∷ (between ++ prev ∷ before)) xs
            else level start [] x (between ++ prev ∷ before) xs)
        else level start (between ++ prev ∷ []) x before xs

  abbrev pub reverse_sort : List A → List A
  reverse_sort [] = []
  reverse_sort (x ∷ xs) = descend x [] xs

  -- `merge_forward` for ranges of similar size; each round takes an element of the second range.
  abbrev pub merge_loop : ℕ → List A → List A → List A
  merge_loop zero xs ys = xs ++ ys
  merge_loop (suc n) xs [] = xs
  merge_loop (suc n) xs (y ∷ ys) =
      let s = span (λ x. not (c y x)) xs in
      elim s.1 [
        | [] ↦ s.0 ++ y ∷ ys
        | x ∷ rest ↦ let t = span (λ z. c z x) ys in s.0 ++ y ∷ (t.0 ++ x ∷ merge_loop n rest t.1)
      ]

  -- `lower_bound` and `upper_bound` of the standard library are one search for the end of the
  -- elements that satisfy a predicate.
  module _ (search : (A → Bool) → List A → ℕ) where
    -- The first range is way smaller; each round takes an element of it.
    abbrev pub merge_small_left : ℕ → List A → List A → List A
    merge_small_left zero xs ys = xs ++ ys
    merge_small_left (suc n) [] ys = ys
    merge_small_left (suc n) (x ∷ xs) [] = x ∷ merge_small_left n xs []
    merge_small_left (suc n) xs (y ∷ ys) =
        let s = span (λ x. not (c y x)) xs in
        elim s.1 [
          | [] ↦ s.0 ++ y ∷ ys
          | x ∷ rest ↦
              let found = search (λ z. c z x) (y ∷ ys) in
              s.0 ++ (take found (y ∷ ys) ++ x ∷ merge_small_left n rest (drop found (y ∷ ys)))
        ]

    -- The second range is way smaller; each round takes an element of it.
    abbrev pub merge_small_right : ℕ → List A → List A → List A
    merge_small_right zero xs ys = xs ++ ys
    merge_small_right (suc n) xs [] = xs
    merge_small_right (suc n) [] (y ∷ ys) = y ∷ merge_small_right n [] ys
    merge_small_right (suc n) (x ∷ xs) ys =
        let s = span (λ y. c y x) ys in
        elim s.1 [
          | [] ↦ s.0 ++ x ∷ xs
          | y ∷ rest ↦
              let found = search (λ z. not (c y z)) (x ∷ xs) in
              s.0 ++ (take found (x ∷ xs) ++ y ∷ merge_small_right n (drop found (x ∷ xs)) rest)
        ]

    -- `random` is whether both ranges have random access.
    abbrev pub merge_forward : Bool → List A → List A → List A
    merge_forward random xs ys =
        if random && ltb (length xs * 32) (length ys)
        then merge_small_left (length xs) xs ys
        else if random && ltb (length ys * 32) (length xs)
        then merge_small_right (length ys) xs ys
        else merge_loop (length ys) xs ys
