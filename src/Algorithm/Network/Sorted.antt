-- ===== src/Algorithm/Network/Sorted.antt =====
-- The sorting network of seq/algorithm.hpp on any values: what it does to their comparisons with
-- one of them is what it does to Boolean values.
use mathlib.Core.Option.{some-injective}
use seq.Prelude.{
  ◌≡◌, refl, ap, ap₂, sym, ◌∙◌, inl, inr, Bool, true, false, Bool-cases, ℕ, zero, suc, none, some,
  List, [], ◌∷◌, map, length, length-map, get_elem?, if◌then◌else◌,
}
use seq.Algorithm.Network.{assign_at, check_2, check_all, network, network_sort_8}
use seq.Algorithm.Network.Counted.{Option-cases, check_all-count}
use seq.Algorithm.Network.Booleans.{
  below, all_true, rising, and-left, and-right, network_sort_8-rising,
}
use seq.Algorithm.Stable.{filter, All, WeakOrder, Ascending, irreflexive, lt-le_trans}

module _ {A : Type 0} where
  assign_at-same : (i : ℕ) (v : A) (xs : List A) → get_elem? xs i ≡ some v → assign_at i v xs ≡ xs
  assign_at-same i v [] e = refl
  assign_at-same zero v (x ∷ xs) e = ap (λ w. w ∷ xs) (sym (some-injective x v e))
  assign_at-same (suc i) v (x ∷ xs) e = ap (λ l. x ∷ l) (assign_at-same i v xs e)

  All-intro :
      (P : A → Type 0) (xs : List A) → ((i : ℕ) (x : A) → get_elem? xs i ≡ some x → P x) → All P xs
  All-intro P [] f = tt
  All-intro P (x ∷ xs) f = (f 0 x refl, All-intro P xs (λ i. f (suc i)))

module _ {A : Type 0} (f : A → Bool) where
  map-assign_at :
      (i : ℕ) (v : A) (xs : List A) → map f (assign_at i v xs) ≡ assign_at i (f v) (map f xs)
  map-assign_at i v [] = refl
  map-assign_at zero v (x ∷ xs) = refl
  map-assign_at (suc i) v (x ∷ xs) = ap (λ l. f x ∷ l) (map-assign_at i v xs)

  map-some :
      (xs : List A) (i : ℕ) (a : A) → get_elem? xs i ≡ some a → get_elem? (map f xs) i ≡ some (f a)
  map-some [] i a e = absurd cc
  map-some (x ∷ xs) zero a e = ap (λ y. some (f y)) (some-injective x a e)
  map-some (x ∷ xs) (suc i) a e = map-some xs i a e

  map-none : (xs : List A) (i : ℕ) → get_elem? xs i ≡ none → get_elem? (map f xs) i ≡ none
  map-none [] i e = refl
  map-none (x ∷ xs) zero e = absurd cc
  map-none (x ∷ xs) (suc i) e = map-none xs i e

  all_true-get :
      (xs : List A) (i : ℕ) (a : A)
      → all_true (map f xs) ≡ true
      → get_elem? xs i ≡ some a
      → f a ≡ true
  all_true-get [] i a h e = absurd cc
  all_true-get (x ∷ xs) zero a h e =
      ap f (sym (some-injective x a e)) ∙ and-left (f x) (all_true (map f xs)) h
  all_true-get (x ∷ xs) (suc i) a h e =
      all_true-get xs i a (and-right (f x) (all_true (map f xs)) h) e

all_true-rising : (bs : List Bool) → all_true bs ≡ true → rising bs ≡ true
all_true-rising [] h = refl
all_true-rising (true ∷ bs) h = h
all_true-rising (false ∷ bs) h = absurd cc

rising-tail : (b : Bool) (bs : List Bool) → rising (b ∷ bs) ≡ true → rising bs ≡ true
rising-tail true bs h = all_true-rising bs h
rising-tail false bs h = h

module _ {A : Type 0} (c : A → A → Bool) (o : WeakOrder c) where
  -- Two places that hold the same value.
  unchanged :
      (t : A) (l r : ℕ) (xs : List A) (a b : A) (v : Bool)
      → get_elem? xs l ≡ some a
      → get_elem? xs r ≡ some b
      → c t a ≡ v
      → c t b ≡ v
      → map (c t) (assign_at l b (assign_at r a xs)) ≡ map (c t) xs
  unchanged t l r xs a b v al br ta tb =
      map-assign_at (c t) l b (assign_at r a xs)
      ∙ ap (assign_at l (c t b)) (map-assign_at (c t) r a xs)
      ∙ ap (assign_at l (c t b)) (
          assign_at-same r (c t a) (map (c t) xs)
            (map-some (c t) xs r b br ∙ ap some (tb ∙ sym ta)))
      ∙ assign_at-same l (c t b) (map (c t) xs) (map-some (c t) xs l a al ∙ ap some (ta ∙ sym tb))

  -- A comparison with `t` keeps its place when values are exchanged.
  exchange-map :
      (t : A) (l r : ℕ) (xs : List A) (a b : A)
      → get_elem? xs l ≡ some a
      → get_elem? xs r ≡ some b
      → map (c t) (if c b a then assign_at l b (assign_at r a xs) else xs) ≡ (
          if below (c t b) (c t a)
          then assign_at l (c t b) (assign_at r (c t a) (map (c t) xs))
          else map (c t) xs)
  exchange-map t l r xs a b al br = elim (Bool-cases (c b a)) [
    | inr e ↦ elim (Bool-cases (c t a)) [
      | inl ta ↦ rw (e, ta, lt-le_trans c o t a b ta e) refl
      | inr ta ↦ elim (Bool-cases (c t b)) [
        | inl tb ↦ rw (e, ta, tb) refl
        | inr tb ↦ rw (e, ta, tb) refl
      ]
    ]
    | inl e ↦ elim (Bool-cases (c t b)) [
      | inl tb ↦
          let ta = lt-le_trans c o t b a tb (o.asymmetric b a e) in
          rw (e, ta, tb) (unchanged t l r xs a b true al br ta tb)
      | inr tb ↦ elim (Bool-cases (c t a)) [
        | inl ta ↦
            rw (e, ta, tb)
              (map-assign_at (c t) l b (assign_at r a xs)
                ∙ ap₂ (λ v w. assign_at l v w) tb
                    (map-assign_at (c t) r a xs ∙ ap (λ v. assign_at r v (map (c t) xs)) ta))
        | inr ta ↦ rw (e, ta, tb) (unchanged t l r xs a b false al br ta tb)
      ]
    ]
  ]

  check_2-map :
      (t : A) (l r : ℕ) (xs : List A)
      → map (c t) (check_2 c l r xs) ≡ check_2 below l r (map (c t) xs)
  check_2-map t l r xs = elim (Option-cases (get_elem? xs l)) [
    | inl e ↦ rw (check_2, e, map-none (c t) xs l e) refl
    | inr a ↦ elim (Option-cases (get_elem? xs r)) [
      | inl e ↦ rw (check_2, a.1, e, map-some (c t) xs l a.0 a.1, map-none (c t) xs r e) refl
      | inr b ↦
          rw (check_2, a.1, b.1, map-some (c t) xs l a.0 a.1, map-some (c t) xs r b.0 b.1)
            (exchange-map t l r xs a.0 b.0 a.1 b.1)
    ]
  ]

  check_all-map :
      (t : A) (ps : List (ℕ × ℕ)) (xs : List A)
      → map (c t) (check_all c ps xs) ≡ check_all below ps (map (c t) xs)
  check_all-map t [] xs = refl
  check_all-map t (p ∷ ps) xs =
      check_all-map t ps (check_2 c p.0 p.1 xs) ∙ ap (check_all below ps) (check_2-map t p.0 p.1 xs)

  rising-Ascending : (xs : List A) → ((t : A) → rising (map (c t) xs) ≡ true) → Ascending c xs
  rising-Ascending [] h = tt
  rising-Ascending (x ∷ xs) h = (
    All-intro _ xs (λ i y at. elim (Bool-cases (c y x)) [
      | inr e ↦ e
      | inl e ↦
          let above = all_true-get (c y) xs i y (true_first y e (h y)) at in
          let never = irreflexive c o y in absurd cc
    ]),
    rising-Ascending xs (λ t. rising-tail (c t x) (map (c t) xs) (h t)),
  )
    where
      true_first :
          (y : A)
          → c y x ≡ true
          → rising (c y x ∷ map (c y) xs) ≡ true
          → all_true (map (c y) xs) ≡ true
      true_first y e k = ap (λ b. rising (b ∷ map (c y) xs)) (sym e) ∙ k

-- For a comparison that is a strict weak order and eight elements, `network_sort_8` gives an
-- ascending list in which as many elements satisfy any given predicate as before.
pub network_sort_8-Ascending :
    {A : Type 0} (c : A → A → Bool)
    → WeakOrder c
    → (xs : List A) → length xs ≡ 8
    → Ascending c (network_sort_8 c xs)
      × ((p : A → Bool) → length (filter p (network_sort_8 c xs)) ≡ length (filter p xs))
network_sort_8-Ascending c o xs h = (
  rising-Ascending c o (network_sort_8 c xs) (λ t.
      ap rising (check_all-map c o t network xs)
      ∙ network_sort_8-rising (map (c t) xs) (length-map (c t) xs ∙ h)),
  λ p. check_all-count p c network xs,
)
