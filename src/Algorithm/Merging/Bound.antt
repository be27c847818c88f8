-- ===== src/Algorithm/Merging/Bound.antt =====
-- A search in an ascending range splits it where the elements that satisfy a predicate end.
use mathlib.Core.Option.{some-injective}
use seq.Prelude.{
  ◌≡◌, refl, ap, sym, subst, ◌∙◌, ◌⊎◌, inl, inr, Bool, true, false, not, Bool-cases, ℕ, zero, suc,
  ◌≤◌, some, List, [], ◌∷◌, get_elem?, take, drop, arith,
}
use seq.BinarySearch.Bound.{Partitioned, IsBound}
use seq.Algorithm.{span}
use seq.Algorithm.Stable.{All, WeakOrder, Ascending, lt-le_trans, le-lt_trans}

module _ {A : Type 0} where
  IsBound-tail :
      (p : A → Bool) (x : A) (xs : List A) (r : ℕ) → IsBound p (x ∷ xs) (suc r) → IsBound p xs r
  IsBound-tail p x xs r b = record {
    order = omega arith;
    fits = omega (arith, b.fits);
    below = λ i y at h. b.below (suc i) y at (omega arith);
    above = λ i y at h. b.above (suc i) y at (omega arith);
  }

  pub IsBound-span :
      (p : A → Bool) (xs : List A) (r : ℕ)
      → IsBound p xs r
      → (take r xs ≡ (span p xs).0) × (drop r xs ≡ (span p xs).1)
  IsBound-span p [] zero b = (refl, refl)
  IsBound-span p [] (suc r) b = (refl, refl)
  IsBound-span p (x ∷ xs) zero b = rw (b.above 0 x refl (omega arith)) (refl, refl)
  IsBound-span p (x ∷ xs) (suc r) b =
      let rest = IsBound-span p xs r (IsBound-tail p x xs r b) in
      rw (b.below 0 x refl (omega arith)) (ap (λ l. x ∷ l) rest.0, rest.1)

  IsBound-rest : (p : A → Bool) (x : A) (xs : List A) → IsBound p (x ∷ xs) zero → IsBound p xs zero
  IsBound-rest p x xs b = record {
    order = omega arith;
    fits = omega arith;
    below = λ i y at h. absurd (omega arith);
    above = λ i y at h. b.above (suc i) y at (omega arith);
  }

  pub IsBound-All :
      (p : A → Bool) (xs : List A) (r : ℕ)
      → IsBound p xs r
      → All (λ z. p z ≡ true) (take r xs) × All (λ z. p z ≡ false) (drop r xs)
  IsBound-All p [] zero b = (tt, tt)
  IsBound-All p [] (suc r) b = (tt, tt)
  IsBound-All p (x ∷ xs) zero b =
      (tt, (b.above 0 x refl (omega arith), (IsBound-All p xs zero (IsBound-rest p x xs b)).1))
  IsBound-All p (x ∷ xs) (suc r) b =
      let rest = IsBound-All p xs r (IsBound-tail p x xs r b) in
      ((b.below 0 x refl (omega arith), rest.0), rest.1)

  All-get :
      (P : A → Type 0) (xs : List A) (i : ℕ) (x : A) → All P xs → get_elem? xs i ≡ some x → P x
  All-get P [] i x h at = absurd cc
  All-get P (z ∷ xs) zero x h at = subst P (some-injective z x at) h.0
  All-get P (z ∷ xs) (suc i) x h at = All-get P xs i x h.1 at

module _ {A : Type 0} (c : A → A → Bool) where
  Ascending-get :
      (xs : List A) (i j : ℕ) (x y : A)
      → Ascending c xs
      → get_elem? xs i ≡ some x
      → get_elem? xs j ≡ some y
      → i ≤ j
      → (x ≡ y) ⊎ (c y x ≡ false)
  Ascending-get [] i j x y a ai aj h = absurd cc
  Ascending-get (z ∷ xs) zero zero x y a ai aj h =
      inl (sym (some-injective z x ai) ∙ some-injective z y aj)
  Ascending-get (z ∷ xs) zero (suc j) x y a ai aj h =
      inr (ap (c y) (sym (some-injective z x ai)) ∙ All-get _ xs j y a.0 aj)
  Ascending-get (z ∷ xs) (suc i) zero x y a ai aj h = absurd (omega arith)
  Ascending-get (z ∷ xs) (suc i) (suc j) x y a ai aj h =
      Ascending-get xs i j x y a.1 ai aj (omega arith)

  pub drop-Ascending : (n : ℕ) (xs : List A) → Ascending c xs → Ascending c (drop n xs)
  drop-Ascending zero xs a = a
  drop-Ascending (suc n) [] a = a
  drop-Ascending (suc n) (x ∷ xs) a = drop-Ascending n xs a.1

  module _ (o : WeakOrder c) (xs : List A) (a : Ascending c xs) where
    -- The elements before `x`.
    pub before-Partitioned : (x : A) → Partitioned (λ z. c z x) xs
    before-Partitioned x i j y z ai aj h e = elim (Ascending-get xs i j y z a ai aj h) [
      | inl same ↦ ap (λ w. c w x) same ∙ e
      | inr le ↦ le-lt_trans c o y z x le e
    ]

    -- The elements that `y` does not stand before.
    pub behind-Partitioned : (y : A) → Partitioned (λ z. not (c y z)) xs
    behind-Partitioned y i j x z ai aj h e = elim (Bool-cases (c y x)) [
      | inr f ↦ ap not f
      | inl t ↦ elim (Ascending-get xs i j x z a ai aj h) [
        | inl same ↦ ap (λ w. not (c y w)) same ∙ e
        | inr le ↦
            let before = lt-le_trans c o y x z t le in
            let both : true ≡ false = sym e ∙ ap not before in absurd cc
      ]
    ]
