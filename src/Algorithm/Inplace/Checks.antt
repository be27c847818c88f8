-- ===== src/Algorithm/Inplace/Checks.antt =====
-- The easy checks of seq/algorithm.hpp leave a merge of what they did not settle.
use seq.Prelude.{
  ◌≡◌, refl, ap, sym, subst, ◌∙◌, inl, inr, Bool, true, false, not, Bool-cases, ℕ, suc, ◌+◌, ◌≤◌,
  List, [], ◌∷◌, ◌++◌, length, length-append, append-nil, arith,
}
use seq.Algorithm.{span}
use seq.Algorithm.Stable.{All, All-map, WeakOrder, Ascending, le_trans, lt-le_trans, le-lt_trans}
use seq.Algorithm.Merging.{
  merge, merge-take, merge-span_left, length-span, not-false, not-true, span-next,
}
use seq.Algorithm.Merging.Blocks.{
  Each-nil, All-right, Ascending-left, Ascending-right, merge-blocks,
}
use seq.Algorithm.Inplace.{last_or, trim, merge_trimmed, first_checks}
use seq.Algorithm.Inplace.Split.{last_or-highest, span-append, trim-Trims}

module _ {A : Type 0} (c : A → A → Bool) (o : WeakOrder c) where
  -- The first element of the second list is not before the last of the first.
  pub merge-in_order :
      (x : A) (xs : List A) (y : A) (ys : List A)
      → Ascending c (x ∷ xs)
      → Ascending c (y ∷ ys)
      → c y (last_or x xs) ≡ false
      → merge c (x ∷ xs) (y ∷ ys) ≡ x ∷ (xs ++ y ∷ ys)
  merge-in_order x xs y ys a b e =
      ap (λ l. merge c l (y ∷ ys)) (sym (append-nil (x ∷ xs)))
      ∙ merge-blocks c (x ∷ xs) [] [] (y ∷ ys)
          (All-map _ _ (x ∷ xs)
            (λ z f.
              let first = le_trans c o z (last_or x xs) y f e in
              (first, All-map _ _ ys (λ w g. le_trans c o z y w first g) b.0))
            (last_or-highest c o x xs a))
          tt

  -- The last element of the second list is before the first of the first.
  merge-rotated :
      (x : A) (xs : List A) (y : A) (ys : List A)
      → Ascending c (x ∷ xs)
      → Ascending c (y ∷ ys)
      → c (last_or y ys) x ≡ true
      → merge c (x ∷ xs) (y ∷ ys) ≡ y ∷ (ys ++ x ∷ xs)
  merge-rotated x xs y ys a b e =
      ap (merge c (x ∷ xs)) (sym (append-nil (y ∷ ys)))
      ∙ merge-blocks c [] (x ∷ xs) (y ∷ ys) [] tt (
          All-map _ _ (y ∷ ys)
            (λ w f.
              let first = le-lt_trans c o w (last_or y ys) x f e in
              (first, All-map _ _ xs (λ z g. lt-le_trans c o w x z first g) a.0))
            (last_or-highest c o y ys b))

  -- What stands at the end of the second list, not before the greatest of the first.
  merge-trimmed :
      (xs ys zs : List A) (highest : A)
      → All (λ x. c highest x ≡ false) xs
      → All (λ z. c z highest ≡ false) zs
      → merge c xs (ys ++ zs) ≡ merge c xs ys ++ zs
  merge-trimmed xs ys zs highest h k =
      ap (λ l. merge c l (ys ++ zs)) (sym (append-nil xs))
      ∙ merge-blocks c xs [] ys zs
          (All-map _ _ xs (λ x f. All-map _ _ zs (λ z g. le_trans c o x highest z f g) k) h)
          (Each-nil (λ y x. c y x ≡ true) ys)

  module _ (merge_rest : List A → List A → List A) (n : ℕ)
      (rest-merge : (xs ys : List A)
        → Ascending c xs
        → Ascending c ys
        → length xs + length ys ≤ n
        → merge_rest xs ys ≡ merge c xs ys) where
    merge_trimmed-merge :
        (xs : List A) (y : A) (ys zs : List A) (highest : A)
        → Ascending c xs
        → Ascending c (y ∷ ys)
        → All (λ x. c highest x ≡ false) xs
        → All (λ z. c z highest ≡ false) zs
        → length xs + suc (length ys) ≤ n
        → merge_trimmed merge_rest y (span (λ z. not (c y z)) xs) (ys, zs)
          ≡ merge c xs (y ∷ (ys ++ zs))
    merge_trimmed-merge xs y ys zs highest a b h k size =
        let s = span (λ z. not (c y z)) xs in
        let parts = span-append (λ z. not (c y z)) xs in
        let behind = Ascending-right c s.0 s.1 (subst (Ascending c) (sym parts) a) in
        let low = All-right _ s.0 s.1 (subst (All (λ x. c highest x ≡ false)) (sym parts) h) in
        let shorter = length-span (λ z. not (c y z)) xs in
        merge_split s.1 ys refl behind low b (omega arith) ∙ sym (merge-span_left c y xs (ys ++ zs))
      where
        merge_split :
            (rest kept : List A)
            → (span (λ z. not (c y z)) xs).1 ≡ rest
            → Ascending c rest
            → All (λ x. c highest x ≡ false) rest
            → Ascending c (y ∷ kept)
            → length rest + suc (length kept) ≤ n
            → merge_trimmed merge_rest y ((span (λ z. not (c y z)) xs).0, rest) (kept, zs)
              ≡ (span (λ z. not (c y z)) xs).0 ++ merge c rest (y ∷ (kept ++ zs))
        merge_split [] kept e a' h' b' size' = refl
        merge_split (x ∷ rest) [] e a' h' b' size' =
            let before = not-false (c y x) (span-next _ xs x rest e) in
            ap (λ l. (span (λ z. not (c y z)) xs).0 ++ l)
              (sym (
                merge-trimmed (x ∷ rest) (y ∷ []) zs highest h' k
                ∙ ap (λ l. l ++ zs) (merge-take c x y rest [] before)))
        merge_split (x ∷ rest) (z ∷ kept) e a' h' b' size' =
            ap (λ l. (span (λ z. not (c y z)) xs).0 ++ l)
              (ap (λ l. l ++ zs) (rest-merge (x ∷ rest) (y ∷ z ∷ kept) a' b' size')
                ∙ sym (merge-trimmed (x ∷ rest) (y ∷ z ∷ kept) zs highest h' k))

    pub first_checks-merge :
        (xs ys : List A)
        → Ascending c xs
        → Ascending c ys
        → length xs + length ys ≤ n
        → first_checks c merge_rest xs ys ≡ merge c xs ys
    first_checks-merge [] ys a b size = refl
    first_checks-merge (x ∷ xs) [] a b size = refl
    first_checks-merge (x ∷ xs) (y ∷ ys) a b size = elim (Bool-cases (c y (last_or x xs))) [
      | inr e ↦ rw e (sym (merge-in_order x xs y ys a b e))
      | inl e ↦ elim (Bool-cases (c (last_or y ys) x)) [
        | inl f ↦ rw (e, f) (sym (merge-rotated x xs y ys a b f))
        | inr f ↦
            let highest = last_or x xs in
            let t = trim (λ z. not (c z highest)) ys in
            let parts = trim-Trims (λ z. not (c z highest)) ys in
            let size_of = length-append t.0 t.1 in
            let same_size = ap length parts.0 in
            rw (e, f)
              (merge_trimmed-merge (x ∷ xs) y t.0 t.1 highest a
                  (Ascending-left c (y ∷ t.0) t.1
                    (subst (λ l. Ascending c (y ∷ l)) (sym parts.0) b))
                  (last_or-highest c o x xs a)
                  (All-map _ _ t.1 (λ z g. not-true (c z highest) g) parts.1)
                  (omega (arith, size_of, same_size))
                ∙ ap (λ l. merge c (x ∷ xs) (y ∷ l)) parts.0)
      ]
    ]
