-- ===== src/Algorithm/Inplace/Merged.antt =====
-- seq/algorithm.hpp: the merge in place is the stable merge, whatever the size of the buffer, and
-- the recursion ends.
use mathlib.Core.List.{reverse, reverse-reverse}
use seq.Prelude.{
  ◌≡◌, refl, ap, ap₂, sym, subst, ◌∙◌, inl, inr, Bool, not, Bool-cases, ℕ, zero, suc, ◌+◌, ◌/◌, ◌≤◌,
  ◌<◌, List, [], ◌∷◌, ◌++◌, length, length-append, take, drop, take-append-drop, ltb, leb, arith,
}
use seq.BinarySearch.Bound.{Partitioned, IsBound}
use seq.Algorithm.Stable.{All-map, WeakOrder, Ascending, Sorts}
use seq.Algorithm.Insertion.{reverse-Ascending}
use seq.Algorithm.Merging.{merge, not-false, not-true}
use seq.Algorithm.Merging.Bound.{
  before-Partitioned, behind-Partitioned, IsBound-All, drop-Ascending,
}
use seq.Algorithm.Merging.Blocks.{Ascending-left, Ascending-right}
use seq.Algorithm.Merging.Backward.{flip-WeakOrder, reverse-merge}
use seq.Algorithm.Merging.Forward.{merge_forward-merge, merge-Ascending, filter-merge}
use seq.Algorithm.Inplace.{
  merge_backward, merge_with_buffer, split_left, split_right, merge_parts, merge_adaptive,
  inplace_merge,
}
use seq.Algorithm.Inplace.Pivot.{merge-pivot_left, merge-pivot_right}
use seq.Algorithm.Inplace.Split.{focus-lt}
use seq.Algorithm.Inplace.Checks.{first_checks-merge}

module _ {A : Type 0} (c : A → A → Bool) (o : WeakOrder c) (search : (A → Bool) → List A → ℕ)
    (random : Bool)
    (finds : (p : A → Bool) (xs : List A) → Partitioned p xs → IsBound p xs (search p xs)) where
  merge_backward-merge :
      (xs ys : List A)
      → Ascending c xs
      → Ascending c ys
      → merge_backward c search random xs ys ≡ merge c xs ys
  merge_backward-merge xs ys a b =
      let flip : A → A → Bool = λ a b. c b a in
      ap reverse (
        merge_forward-merge flip (flip-WeakOrder c o) search finds random (reverse ys) (reverse xs)
          (reverse-Ascending flip ys b) (reverse-Ascending flip xs a))
      ∙ reverse-merge c o (reverse ys) (reverse xs)
          (subst (Ascending c) (sym (reverse-reverse xs)) a)
          (subst (Ascending c) (sym (reverse-reverse ys)) b)
      ∙ ap₂ (merge c) (reverse-reverse xs) (reverse-reverse ys)

  merge_with_buffer-merge :
      (xs ys : List A)
      → Ascending c xs
      → Ascending c ys
      → merge_with_buffer c search random xs ys ≡ merge c xs ys
  merge_with_buffer-merge xs ys a b = elim (Bool-cases (leb (length xs) (length ys))) [
    | inl e ↦ rw e (merge_forward-merge c o search finds random xs ys a b)
    | inr e ↦ rw e (merge_backward-merge xs ys a b)
  ]

  -- The two parts of a range at an index, and at the middle.
  take-Ascending : (n : ℕ) (xs : List A) → Ascending c xs → Ascending c (take n xs)
  take-Ascending n xs a =
      Ascending-left c (take n xs) (drop n xs) (subst (Ascending c) (sym (take-append-drop n xs)) a)

  length-parts : (n : ℕ) (xs : List A) → length (take n xs) + length (drop n xs) ≡ length xs
  length-parts n xs =
      sym (length-append (take n xs) (drop n xs)) ∙ ap length (take-append-drop n xs)

  module _ (merge_rest : List A → List A → List A) (n : ℕ)
      (rest-merge : (xs ys : List A)
        → Ascending c xs
        → Ascending c ys
        → length xs + length ys ≤ n
        → merge_rest xs ys ≡ merge c xs ys) where
    split_left-merge :
        (xs ys : List A)
        → Ascending c xs
        → Ascending c ys
        → length xs + length ys ≤ suc n
        → 0 < length xs
        → split_left c search random merge_rest xs ys ≡ merge c xs ys
    split_left-merge xs ys a b size some_left =
        let f = focus-lt (length xs / 2) xs (omega arith) in
        let a' = subst (Ascending c) (sym f.2) a in
        let p = f.0.1 in
        let behind = Ascending-right c f.0.0 (p ∷ f.0.2) a' in
        let m = search (λ z. c z p) ys in
        let cut = IsBound-All (λ z. c z p) ys m (finds _ ys (before-Partitioned c o ys b p)) in
        let size_xs = sym (length-append f.0.0 (p ∷ f.0.2)) ∙ ap length f.2 in
        let size_ys = length-parts m ys in
        rw (split_left, f.1)
          (ap₂ (λ l r. l ++ p ∷ r)
              (rest-merge f.0.0 (take m ys) (Ascending-left c f.0.0 (p ∷ f.0.2) a')
                (take-Ascending m ys b) (omega (arith, size_xs, size_ys)))
              (rest-merge f.0.2 (drop m ys) behind.1 (drop-Ascending c m ys b)
                (omega (arith, size_xs, size_ys)))
            ∙ sym (merge-pivot_left c o f.0.0 p f.0.2 (take m ys) (drop m ys) a' cut.0 cut.1)
            ∙ ap₂ (merge c) f.2 (take-append-drop m ys))

    split_right-merge :
        (xs ys : List A)
        → Ascending c xs
        → Ascending c ys
        → length xs + length ys ≤ suc n
        → 0 < length ys
        → split_right c search random merge_rest xs ys ≡ merge c xs ys
    split_right-merge xs ys a b size some_left =
        let f = focus-lt (length ys / 2) ys (omega arith) in
        let b' = subst (Ascending c) (sym f.2) b in
        let p = f.0.1 in
        let behind = Ascending-right c f.0.0 (p ∷ f.0.2) b' in
        let m = search (λ z. not (c p z)) xs in
        let cut =
          IsBound-All (λ z. not (c p z)) xs m (finds _ xs (behind-Partitioned c o xs a p)) in
        let size_ys = sym (length-append f.0.0 (p ∷ f.0.2)) ∙ ap length f.2 in
        let size_xs = length-parts m xs in
        rw (split_right, f.1)
          (ap₂ (λ l r. l ++ p ∷ r)
              (rest-merge (take m xs) f.0.0 (take-Ascending m xs a)
                (Ascending-left c f.0.0 (p ∷ f.0.2) b') (omega (arith, size_xs, size_ys)))
              (rest-merge (drop m xs) f.0.2 (drop-Ascending c m xs a) behind.1
                (omega (arith, size_xs, size_ys)))
            ∙ sym (
                merge-pivot_right c o (take m xs) (drop m xs) f.0.0 p f.0.2 b'
                  (All-map _ _ (take m xs) (λ z g. not-true (c p z) g) cut.0)
                  (All-map _ _ (drop m xs) (λ z g. not-false (c p z) g) cut.1))
            ∙ ap₂ (merge c) (take-append-drop m xs) f.2)

    merge_parts-merge :
        (size : ℕ) (xs ys : List A)
        → Ascending c xs
        → Ascending c ys
        → length xs + length ys ≤ suc n
        → merge_parts c search random merge_rest size xs ys ≡ merge c xs ys
    merge_parts-merge size xs ys a b h = elim (Bool-cases (leb (length xs) size)) [
      | inl e ↦ rw e (merge_with_buffer-merge xs ys a b)
      | inr e ↦ elim (Bool-cases (leb (length ys) size)) [
        | inl f ↦ rw (e, f) (merge_with_buffer-merge xs ys a b)
        | inr f ↦ elim (Bool-cases (ltb (length xs) (length ys))) [
          | inl g ↦ rw (e, f, g) (split_left-merge xs ys a b h (ground arith))
          | inr g ↦ rw (e, f, g) (split_right-merge xs ys a b h (ground arith))
        ]
      ]
    ]

  pub merge_adaptive-merge :
      (n size : ℕ) (xs ys : List A)
      → Ascending c xs
      → Ascending c ys
      → length xs + length ys ≤ n
      → merge_adaptive c search random n size xs ys ≡ merge c xs ys
  merge_adaptive-merge zero size [] ys a b h = refl
  merge_adaptive-merge zero size (x ∷ xs) ys a b h = absurd (omega arith)
  merge_adaptive-merge (suc n) size xs ys a b h =
      first_checks-merge c o
        (merge_parts c search random (merge_adaptive c search random n size) size) (suc n)
        (merge_parts-merge (merge_adaptive c search random n size) n
          (λ xs' ys' a' b' h'. merge_adaptive-merge n size xs' ys' a' b' h') size)
        xs ys a b h

  inplace_merge-merge :
      (size : ℕ) (xs ys : List A)
      → Ascending c xs
      → Ascending c ys
      → inplace_merge c search random size xs ys ≡ merge c xs ys
  inplace_merge-merge size xs ys a b =
      merge_adaptive-merge (suc (length xs + length ys)) size xs ys a b (omega arith)

  -- For a comparison that is a strict weak order, a search that finds the bound in every
  -- partitioned range, two ascending ranges, with random access or without, and a buffer of any
  -- size, also of none, `inplace_merge` with all its recursive calls is a stable merge: its result
  -- is ascending, and the elements alike with any given one are those of the first range and then
  -- those of the second, in their order.
  pub inplace_merge-Sorts :
      (size : ℕ) (xs ys : List A)
      → Ascending c xs
      → Ascending c ys
      → Sorts c (xs ++ ys) (inplace_merge c search random size xs ys)
  inplace_merge-Sorts size xs ys a b =
      subst (Sorts c (xs ++ ys)) (sym (inplace_merge-merge size xs ys a b)) (record {
        ascending = merge-Ascending c o xs ys a b;
        same = λ k. filter-merge c o k xs ys a;
      })
