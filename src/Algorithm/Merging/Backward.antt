-- ===== src/Algorithm/Merging/Backward.antt =====
-- `merge_backward` of seq/algorithm.hpp: the merge from behind gives the same list.
use mathlib.Core.List.{reverse, reverse-cons}
use seq.Prelude.{
  ◌≡◌, refl, ap, ap₂, sym, subst, ◌∙◌, inl, inr, Bool, true, false, Bool-cases, List, [], ◌∷◌, ◌++◌,
  append-nil,
}
use seq.Algorithm.Stable.{
  All-map, All-append, WeakOrder, Ascending, le_trans, lt-le_trans, le-lt_trans,
}
use seq.Algorithm.Merging.{merge, merge-nil, merge-take, merge-keep}
use seq.Algorithm.Merging.Blocks.{Each-nil, Ascending-left, Ascending-Each, merge-blocks}

module _ {A : Type 0} (c : A → A → Bool) (o : WeakOrder c) where
  -- The last element of the first list is greater.
  last-left :
      (xs ys : List A) (x y : A)
      → Ascending c (ys ++ y ∷ [])
      → c y x ≡ true
      → merge c (xs ++ x ∷ []) (ys ++ y ∷ []) ≡ merge c xs (ys ++ y ∷ []) ++ x ∷ []
  last-left xs ys x y b e =
      ap (merge c (xs ++ x ∷ [])) (sym (append-nil (ys ++ y ∷ [])))
      ∙ merge-blocks c xs (x ∷ []) (ys ++ y ∷ []) [] (Each-nil (λ p q. c q p ≡ false) xs) (
          All-append _ ys (y ∷ [])
            (All-map _ _ ys (λ z f. (le-lt_trans c o z y x f.0 e, tt))
              (Ascending-Each c ys (y ∷ []) b))
            ((e, tt), tt))

  -- The last element of the second list is not less.
  last-right :
      (xs ys : List A) (x y : A)
      → Ascending c (xs ++ x ∷ [])
      → c y x ≡ false
      → merge c (xs ++ x ∷ []) (ys ++ y ∷ []) ≡ merge c (xs ++ x ∷ []) ys ++ y ∷ []
  last-right xs ys x y a e =
      ap (λ l. merge c l (ys ++ y ∷ [])) (sym (append-nil (xs ++ x ∷ [])))
      ∙ merge-blocks c (xs ++ x ∷ []) [] ys (y ∷ [])
          (All-append _ xs (x ∷ [])
            (All-map _ _ xs (λ z f. (le_trans c o z x y f.0 e, tt))
              (Ascending-Each c xs (x ∷ []) a))
            ((e, tt), tt))
          (Each-nil (λ q p. c q p ≡ true) ys)

  pub flip-WeakOrder : WeakOrder (λ a b. c b a)
  flip-WeakOrder = record {
    asymmetric = λ a b h. o.asymmetric b a h;
    cotransitive = λ a b d h k. lt-le_trans c o b a d h k;
  }

  pub reverse-merge :
      (ys xs : List A)
      → Ascending c (reverse xs)
      → Ascending c (reverse ys)
      → reverse (merge (λ a b. c b a) ys xs) ≡ merge c (reverse xs) (reverse ys)
  reverse-merge [] xs a b = sym (merge-nil c (reverse xs))
  reverse-merge (y ∷ ys) [] a b = refl
  reverse-merge (y ∷ ys) (x ∷ xs) a b =
      let a' = subst (Ascending c) (reverse-cons x xs) a in
      let b' = subst (Ascending c) (reverse-cons y ys) b in
      elim (Bool-cases (c y x)) [
        | inl e ↦
            ap reverse (merge-take (λ a b. c b a) y x ys xs e)
            ∙ reverse-cons x (merge (λ a b. c b a) (y ∷ ys) xs)
            ∙ ap (λ l. l ++ x ∷ [])
                (reverse-merge (y ∷ ys) xs (Ascending-left c (reverse xs) (x ∷ []) a') b
                  ∙ ap (merge c (reverse xs)) (reverse-cons y ys))
            ∙ sym (
                ap₂ (merge c) (reverse-cons x xs) (reverse-cons y ys)
                ∙ last-left (reverse xs) (reverse ys) x y b' e)
        | inr e ↦
            ap reverse (merge-keep (λ a b. c b a) y x ys xs e)
            ∙ reverse-cons y (merge (λ a b. c b a) ys (x ∷ xs))
            ∙ ap (λ l. l ++ y ∷ [])
                (reverse-merge ys (x ∷ xs) a (Ascending-left c (reverse ys) (y ∷ []) b')
                  ∙ ap (λ l. merge c l (reverse ys)) (reverse-cons x xs))
            ∙ sym (
                ap₂ (merge c) (reverse-cons x xs) (reverse-cons y ys)
                ∙ last-right (reverse xs) (reverse ys) x y a' e)
      ]
