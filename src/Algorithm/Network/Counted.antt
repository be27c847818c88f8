-- ===== src/Algorithm/Network/Counted.antt =====
-- The sorting network of seq/algorithm.hpp exchanges values, so it keeps how many satisfy a
-- predicate.
use mathlib.Core.Option.{some-injective}
use seq.Prelude.{
  ◌≡◌, refl, ap, ◌∙◌, ◌⊎◌, inl, inr, Bool, Bool-cases, ℕ, zero, suc, ◌+◌, Option, none, some, List,
  [], ◌∷◌, length, get_elem?, if◌then◌else◌, arith,
}
use seq.Algorithm.Network.{assign_at, check_2, check_all}
use seq.Algorithm.Stable.{filter}

module _ {A : Type 0} where
  pub Option-cases : (o : Option A) → (o ≡ none) ⊎ ((a : A) × (o ≡ some a))
  Option-cases none = inl refl
  Option-cases (some a) = inr (a, refl)

module _ {A : Type 0} (p : A → Bool) where
  -- What an element adds to the number of those that satisfy `p`.
  abbrev hits : A → ℕ
  hits a = if p a then 1 else 0

  length-filter : (x : A) (xs : List A) → length (filter p (x ∷ xs)) ≡ hits x + length (filter p xs)
  length-filter x xs = elim (Bool-cases (p x)) [
    | inl e ↦ rw e (omega arith)
    | inr e ↦ rw e (omega arith)
  ]

  assign_at-count :
      (i : ℕ) (v a : A) (xs : List A)
      → get_elem? xs i ≡ some a
      → length (filter p (assign_at i v xs)) + hits a ≡ length (filter p xs) + hits v
  assign_at-count i v a [] e = absurd cc
  assign_at-count zero v a (x ∷ xs) e =
      let same = ap hits (some-injective x a e) in
      omega (arith, same, length-filter v xs, length-filter x xs)
  assign_at-count (suc i) v a (x ∷ xs) e =
      omega
        (arith, assign_at-count i v a xs e, length-filter x xs, length-filter x (assign_at i v xs))

  assign_at-keeps :
      (l r : ℕ) (a : A) (xs : List A)
      → get_elem? xs l ≡ some a
      → get_elem? (assign_at r a xs) l ≡ some a
  assign_at-keeps l r a [] e = e
  assign_at-keeps zero zero a (x ∷ xs) e = refl
  assign_at-keeps zero (suc r) a (x ∷ xs) e = e
  assign_at-keeps (suc l) zero a (x ∷ xs) e = e
  assign_at-keeps (suc l) (suc r) a (x ∷ xs) e = assign_at-keeps l r a xs e

  check_2-count :
      (c : A → A → Bool) (l r : ℕ) (xs : List A)
      → length (filter p (check_2 c l r xs)) ≡ length (filter p xs)
  check_2-count c l r xs = elim (Option-cases (get_elem? xs l)) [
    | inl e ↦ rw (check_2, e) refl
    | inr a ↦ elim (Option-cases (get_elem? xs r)) [
      | inl e ↦ rw (check_2, a.1, e) refl
      | inr b ↦ elim (Bool-cases (c b.0 a.0)) [
        | inr e ↦ rw (check_2, a.1, b.1, e) refl
        | inl e ↦
            let first =
              assign_at-count l b.0 a.0 (assign_at r a.0 xs) (assign_at-keeps l r a.0 xs a.1) in
            let second = assign_at-count r a.0 b.0 xs b.1 in
            rw (check_2, a.1, b.1, e) (omega (arith, first, second))
      ]
    ]
  ]

  pub check_all-count :
      (c : A → A → Bool) (ps : List (ℕ × ℕ)) (xs : List A)
      → length (filter p (check_all c ps xs)) ≡ length (filter p xs)
  check_all-count c [] xs = refl
  check_all-count c (q ∷ ps) xs =
      check_all-count c ps (check_2 c q.0 q.1 xs) ∙ check_2-count c q.0 q.1 xs
