-- ===== src/Algorithm/Merging/Blocks.antt =====
-- The merge of two lists each of which is cut in two, so that the merges of the first and of the
-- second parts stand one behind the other.
use seq.Prelude.{
  ◌≡◌, refl, ap, sym, ◌∙◌, inl, inr, Bool, true, false, Bool-cases, List, [], ◌∷◌, ◌++◌,
}
use seq.Algorithm.Stable.{All, Ascending}
use seq.Algorithm.Merging.{merge, merge-nil, merge-take, merge-keep}

module _ {A : Type 0} where
  -- Each element of the first list stands in a relation to each of the second.
  abbrev pub Each : (A → A → Type 0) → List A → List A → Type 0
  Each R xs ys = All (λ x. All (R x) ys) xs

  pub All-left : (P : A → Type 0) (xs ys : List A) → All P (xs ++ ys) → All P xs
  All-left P [] ys h = tt
  All-left P (x ∷ xs) ys h = (h.0, All-left P xs ys h.1)

  pub All-right : (P : A → Type 0) (xs ys : List A) → All P (xs ++ ys) → All P ys
  All-right P [] ys h = h
  All-right P (x ∷ xs) ys h = All-right P xs ys h.1

  pub Each-nil : (R : A → A → Type 0) (xs : List A) → Each R xs []
  Each-nil R [] = tt
  Each-nil R (x ∷ xs) = (tt, Each-nil R xs)

module _ {A : Type 0} (c : A → A → Bool) where
  pub Ascending-left : (xs ys : List A) → Ascending c (xs ++ ys) → Ascending c xs
  Ascending-left [] ys a = tt
  Ascending-left (x ∷ xs) ys a = (All-left _ xs ys a.0, Ascending-left xs ys a.1)

  pub Ascending-right : (xs ys : List A) → Ascending c (xs ++ ys) → Ascending c ys
  Ascending-right [] ys a = a
  Ascending-right (x ∷ xs) ys a = Ascending-right xs ys a.1

  -- The elements of a part are not behind those of the next one.
  pub Ascending-Each : (xs ys : List A) → Ascending c (xs ++ ys) → Each (λ x y. c y x ≡ false) xs ys
  Ascending-Each [] ys a = tt
  Ascending-Each (x ∷ xs) ys a = (All-right _ xs ys a.0, Ascending-Each xs ys a.1)

  -- No element of the second list's second part stands before one of the first list's first part,
  -- and each of its first part stands before each of the first list's second part.
  pub merge-blocks :
      (xs xs' ys ys' : List A)
      → Each (λ x y. c y x ≡ false) xs ys'
      → Each (λ y x. c y x ≡ true) ys xs'
      → merge c (xs ++ xs') (ys ++ ys') ≡ merge c xs ys ++ merge c xs' ys'
  merge-blocks [] xs' [] ys' h k = refl
  merge-blocks [] [] (y ∷ ys) ys' h k = refl
  merge-blocks [] (x ∷ xs') (y ∷ ys) ys' h k =
      merge-take c x y xs' (ys ++ ys') k.0.0
      ∙ ap (λ l. y ∷ l) (merge-blocks [] (x ∷ xs') ys ys' tt k.1)
  merge-blocks (x ∷ xs) xs' [] [] h k = ap (λ l. x ∷ (xs ++ l)) (sym (merge-nil c xs'))
  merge-blocks (x ∷ xs) xs' [] (y ∷ ys') h k =
      merge-keep c x y (xs ++ xs') ys' h.0.0
      ∙ ap (λ l. x ∷ l)
          (merge-blocks xs xs' [] (y ∷ ys') h.1 tt
            ∙ ap (λ l. l ++ merge c xs' (y ∷ ys')) (merge-nil c xs))
  merge-blocks (x ∷ xs) xs' (y ∷ ys) ys' h k = elim (Bool-cases (c y x)) [
    | inl e ↦
        merge-take c x y (xs ++ xs') (ys ++ ys') e
        ∙ ap (λ l. y ∷ l) (merge-blocks (x ∷ xs) xs' ys ys' h k.1)
        ∙ ap (λ l. l ++ merge c xs' ys') (sym (merge-take c x y xs ys e))
    | inr e ↦
        merge-keep c x y (xs ++ xs') (ys ++ ys') e
        ∙ ap (λ l. x ∷ l) (merge-blocks xs xs' (y ∷ ys) ys' h.1 k)
        ∙ ap (λ l. l ++ merge c xs' ys') (sym (merge-keep c x y xs ys e))
  ]
