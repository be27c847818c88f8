-- ===== src/Algorithm/Merging.antt =====
-- `merge_forward` of seq/algorithm.hpp, in each of its three ways, is the merge that takes an
-- element of the second list only if it stands before the next one of the first.
pub mod Bound
pub mod Blocks
pub mod Backward
pub mod Forward
use seq.Prelude.{
  ◌≡◌, refl, ap, sym, subst, ◌∙◌, ◌⊎◌, inl, inr, Bool, true, false, not, Bool-cases, ℕ, zero, suc,
  ◌+◌, ◌≤◌, ◌<◌, some, List, [], ◌∷◌, ◌++◌, length, get_elem?, take, drop, append-nil, append_assoc,
  ltb, if◌then◌else◌, arith,
}
use seq.BinarySearch.Bound.{Partitioned, IsBound}
use seq.Algorithm.{span, merge_loop, merge_small_left, merge_small_right, merge_forward}
use seq.Algorithm.Stable.{
  filter, All, All-map, All-append, filter-append, filter-move, WeakOrder, alike, Ascending, Sorts,
  le_trans,
}

pub not-false : (b : Bool) → not b ≡ false → b ≡ true
not-false true e = refl
not-false false e = absurd cc

pub not-true : (b : Bool) → not b ≡ true → b ≡ false
not-true true e = absurd cc
not-true false e = refl

module _ {A : Type 0} where
  pub length-span : (p : A → Bool) (xs : List A) → length ((span p xs).1) ≤ length xs
  length-span p [] = omega arith
  length-span p (x ∷ xs) = elim (Bool-cases (p x)) [
    | inl e ↦ rw e (omega (arith, length-span p xs))
    | inr e ↦ rw e (omega arith)
  ]

  -- A list as its first element and the others.
  pub list-cases : (xs : List A) → (xs ≡ []) ⊎ ((x : A) × (rest : List A) × (xs ≡ x ∷ rest))
  list-cases [] = inl refl
  list-cases (x ∷ xs) = inr (x, xs, refl)

  -- A list does not start with an element that satisfies `p`.
  abbrev Ends : (A → Bool) → List A → Type 0
  Ends p [] = Unit {0}
  Ends p (x ∷ xs) = p x ≡ false

  span-Ends : (p : A → Bool) (xs : List A) → Ends p ((span p xs).1)
  span-Ends p [] = tt
  span-Ends p (x ∷ xs) = elim (Bool-cases (p x)) [ inl e ↦ rw e (span-Ends p xs) | inr e ↦ rw e e ]

  pub span-next :
      (p : A → Bool) (xs : List A) (x : A) (rest : List A) → (span p xs).1 ≡ x ∷ rest → p x ≡ false
  span-next p xs x rest e = subst (Ends p) e (span-Ends p xs)

module _ {A : Type 0} (c : A → A → Bool) where
  abbrev pub merge : List A → List A → List A
  merge [] ys = ys
  merge (x ∷ xs) [] = x ∷ xs
  merge (x ∷ xs) (y ∷ ys) = elim (c y x) [
    | true ↦ y ∷ merge (x ∷ xs) ys
    | false ↦ x ∷ merge xs (y ∷ ys)
  ]

  pub merge-nil : (xs : List A) → merge xs [] ≡ xs
  merge-nil [] = refl
  merge-nil (x ∷ xs) = refl

  -- An element of the second list that stands before the next one of the first, and one that does
  -- not.
  pub merge-take :
      (x y : A) (xs ys : List A) → c y x ≡ true → merge (x ∷ xs) (y ∷ ys) ≡ y ∷ merge (x ∷ xs) ys
  merge-take x y xs ys e = rw (merge, e) refl

  pub merge-keep :
      (x y : A) (xs ys : List A) → c y x ≡ false → merge (x ∷ xs) (y ∷ ys) ≡ x ∷ merge xs (y ∷ ys)
  merge-keep x y xs ys e = rw (merge, e) refl

  -- The elements of the first list that `y` does not stand before.
  pub merge-span_left :
      (y : A) (xs ys : List A)
      → merge xs (y ∷ ys)
        ≡ (span (λ x. not (c y x)) xs).0 ++ merge ((span (λ x. not (c y x)) xs).1) (y ∷ ys)
  merge-span_left y [] ys = refl
  merge-span_left y (x ∷ xs) ys = elim (Bool-cases (c y x)) [
    | inl e ↦ rw e refl
    | inr e ↦ merge-keep x y xs ys e ∙ rw e (ap (λ l. x ∷ l) (merge-span_left y xs ys))
  ]

  -- The elements of the second list that stand before `x`.
  pub merge-span_right :
      (x : A) (xs ys : List A)
      → merge (x ∷ xs) ys ≡ (span (λ z. c z x) ys).0 ++ merge (x ∷ xs) ((span (λ z. c z x) ys).1)
  merge-span_right x xs [] = refl
  merge-span_right x xs (y ∷ ys) = elim (Bool-cases (c y x)) [
    | inl e ↦ merge-take x y xs ys e ∙ rw e (ap (λ l. y ∷ l) (merge-span_right x xs ys))
    | inr e ↦ rw e refl
  ]

  -- Behind the elements of the second list that stand before `x`, the merge takes `x`.
  pub merge-next :
      (x : A) (xs ys : List A)
      → merge (x ∷ xs) ys ≡ (span (λ z. c z x) ys).0 ++ x ∷ merge xs ((span (λ z. c z x) ys).1)
  merge-next x xs [] = ap (λ l. x ∷ l) (sym (merge-nil xs))
  merge-next x xs (y ∷ ys) = elim (Bool-cases (c y x)) [
    | inl e ↦ merge-take x y xs ys e ∙ rw e (ap (λ l. y ∷ l) (merge-next x xs ys))
    | inr e ↦ merge-keep x y xs ys e ∙ rw e refl
  ]

  -- Behind the elements of the first list that `y` does not stand before, it takes `y`.
  pub merge-next_right :
      (y : A) (xs ys : List A)
      → merge xs (y ∷ ys)
        ≡ (span (λ x. not (c y x)) xs).0 ++ y ∷ merge ((span (λ x. not (c y x)) xs).1) ys
  merge-next_right y [] ys = refl
  merge-next_right y (x ∷ xs) ys = elim (Bool-cases (c y x)) [
    | inl e ↦ merge-take x y xs ys e ∙ rw e refl
    | inr e ↦ merge-keep x y xs ys e ∙ rw e (ap (λ l. x ∷ l) (merge-next_right y xs ys))
  ]

  pub merge_loop-merge :
      (n : ℕ) (xs ys : List A) → length ys ≤ n → merge_loop c n xs ys ≡ merge xs ys
  merge_loop-merge zero xs [] h = append-nil xs ∙ sym (merge-nil xs)
  merge_loop-merge zero xs (y ∷ ys) h = absurd (omega arith)
  merge_loop-merge (suc n) xs [] h = sym (merge-nil xs)
  merge_loop-merge (suc n) xs (y ∷ ys) h = elim (list-cases ((span (λ x. not (c y x)) xs).1)) [
    | inl none_left ↦ rw (merge_loop, none_left) (sym (merge-span_left y xs ys ∙ rw none_left refl))
    | inr next ↦
        let s = span (λ x. not (c y x)) xs in
        let t = span (λ z. c z next.0) ys in
        let before = not-false (c y next.0) (span-next _ xs next.0 next.1 next.2) in
        rw (merge_loop, next.2)
          (ap (λ l. s.0 ++ y ∷ (t.0 ++ next.0 ∷ l))
              (merge_loop-merge n next.1 t.1 (omega (arith, length-span (λ z. c z next.0) ys)))
            ∙ sym (
                merge-span_left y xs ys
                ∙ ap (λ l. s.0 ++ merge l (y ∷ ys)) next.2
                ∙ ap (λ l. s.0 ++ l)
                    (merge-take next.0 y next.1 ys before
                      ∙ ap (λ l. y ∷ l) (merge-next next.0 next.1 ys))))
  ]
