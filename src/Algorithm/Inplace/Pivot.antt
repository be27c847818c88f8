-- ===== src/Algorithm/Inplace/Pivot.antt =====
-- seq/algorithm.hpp: the merges beside an element that is brought to its place.
use seq.Prelude.{◌≡◌, refl, ap, sym, ◌∙◌, Bool, true, false, List, [], ◌∷◌, ◌++◌}
use seq.Algorithm.Stable.{All, All-map, WeakOrder, Ascending, le_trans, lt-le_trans, le-lt_trans}
use seq.Algorithm.Merging.{merge, merge-nil}
use seq.Algorithm.Merging.Blocks.{Ascending-right, Ascending-Each, merge-blocks}

module _ {A : Type 0} (c : A → A → Bool) (o : WeakOrder c) where
  -- The two merges beside an element of the first list, and of the second.
  pub merge-pivot_left :
      (xs : List A) (p : A) (xs' ys ys' : List A)
      → Ascending c (xs ++ p ∷ xs')
      → All (λ y. c y p ≡ true) ys
      → All (λ y. c y p ≡ false) ys'
      → merge c (xs ++ p ∷ xs') (ys ++ ys') ≡ merge c xs ys ++ p ∷ merge c xs' ys'
  merge-pivot_left xs p xs' ys ys' a h k =
      merge-blocks c xs (p ∷ xs') ys ys'
        (All-map _ _ xs (λ x f. All-map _ _ ys' (λ y g. le_trans c o x p y f.0 g) k)
          (Ascending-Each c xs (p ∷ xs') a))
        (All-map _ _ ys
          (λ y f. (
            f,
            All-map _ _ xs' (λ x g. lt-le_trans c o y p x f g) (Ascending-right c xs (p ∷ xs') a).0,
          ))
          h)
      ∙ ap (λ l. merge c xs ys ++ l) (first ys' k)
    where
      first :
          (zs : List A) → All (λ y. c y p ≡ false) zs → merge c (p ∷ xs') zs ≡ p ∷ merge c xs' zs
      first [] k' = ap (λ l. p ∷ l) (sym (merge-nil c xs'))
      first (z ∷ zs) k' = rw (merge, k'.0) refl

  pub merge-pivot_right :
      (xs xs' ys : List A) (p : A) (ys' : List A)
      → Ascending c (ys ++ p ∷ ys')
      → All (λ x. c p x ≡ false) xs
      → All (λ x. c p x ≡ true) xs'
      → merge c (xs ++ xs') (ys ++ p ∷ ys') ≡ merge c xs ys ++ p ∷ merge c xs' ys'
  merge-pivot_right xs xs' ys p ys' b h k =
      merge-blocks c xs xs' ys (p ∷ ys')
        (All-map _ _ xs
          (λ x f. (
            f,
            All-map _ _ ys' (λ y g. le_trans c o x p y f g) (Ascending-right c ys (p ∷ ys') b).0,
          ))
          h)
        (All-map _ _ ys (λ y f. All-map _ _ xs' (λ x g. le-lt_trans c o y p x f.0 g) k)
          (Ascending-Each c ys (p ∷ ys') b))
      ∙ ap (λ l. merge c xs ys ++ l) (first xs' k)
    where
      first : (zs : List A) → All (λ x. c p x ≡ true) zs → merge c zs (p ∷ ys') ≡ p ∷ merge c zs ys'
      first [] k' = refl
      first (z ∷ zs) k' = rw (merge, k'.0) refl
