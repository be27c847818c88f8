-- ===== src/Algorithm/Inplace/Split.antt =====
-- Last elements, elements taken from an end, and the middle of a range.
use seq.Prelude.{
  ◌≡◌, refl, ap, inl, inr, Bool, true, false, Bool-cases, ℕ, zero, suc, ◌<◌, some, List, [], ◌∷◌,
  ◌++◌, length, focus, if◌then◌else◌, arith,
}
use seq.Algorithm.{span}
use seq.Algorithm.Stable.{All, WeakOrder, Ascending, irreflexive}
use seq.Algorithm.Inplace.{last_or, trim}

module _ {A : Type 0} where
  pub last_or-All : (P : A → Type 0) (x : A) (xs : List A) → All P (x ∷ xs) → P (last_or x xs)
  last_or-All P x [] h = h.0
  last_or-All P x (y ∷ xs) h = last_or-All P y xs h.1

  pub span-append : (p : A → Bool) (xs : List A) → (span p xs).0 ++ (span p xs).1 ≡ xs
  span-append p [] = refl
  span-append p (x ∷ xs) = elim (Bool-cases (p x)) [
    | inl e ↦ rw e (ap (λ l. x ∷ l) (span-append p xs))
    | inr e ↦ rw e refl
  ]

  -- The elements that are taken off satisfy `p`.
  abbrev Trims : (A → Bool) → List A → List A × List A → Type 0
  Trims p xs t = (t.0 ++ t.1 ≡ xs) × All (λ z. p z ≡ true) t.1

  trim-step :
      (p : A → Bool) (x : A) (xs kept : List A)
      → (trim p xs).0 ≡ kept
      → Trims p xs (kept, (trim p xs).1)
      → Trims p (x ∷ xs) (elim kept [
        | [] ↦ if p x then ([], x ∷ (trim p xs).1) else (x ∷ [], (trim p xs).1)
        | y ∷ ys ↦ (x ∷ y ∷ ys, (trim p xs).1)
      ])
  trim-step p x xs [] e t = elim (Bool-cases (p x)) [
    | inl f ↦ rw f (ap (λ l. x ∷ l) t.0, (f, t.1))
    | inr f ↦ rw f (ap (λ l. x ∷ l) t.0, t.1)
  ]
  trim-step p x xs (y ∷ ys) e t = (ap (λ l. x ∷ l) t.0, t.1)

  pub trim-Trims : (p : A → Bool) (xs : List A) → Trims p xs (trim p xs)
  trim-Trims p [] = (refl, tt)
  trim-Trims p (x ∷ xs) = trim-step p x xs ((trim p xs).0) refl (trim-Trims p xs)

  pub focus-lt :
      (n : ℕ) (xs : List A)
      → n < length xs
      → (r : List A × A × List A) × (focus n xs ≡ some r) × (r.0 ++ r.1 ∷ r.2 ≡ xs)
  focus-lt n [] h = absurd (omega arith)
  focus-lt zero (x ∷ xs) h = (([], x, xs), refl, refl)
  focus-lt (suc n) (x ∷ xs) h =
      let rest = focus-lt n xs (omega arith) in
      ((x ∷ rest.0.0, rest.0.1, rest.0.2), rw rest.1 refl, ap (λ l. x ∷ l) rest.2)

module _ {A : Type 0} (c : A → A → Bool) (o : WeakOrder c) where
  -- No element of an ascending list is greater than the last one.
  pub last_or-highest :
      (x : A) (xs : List A) → Ascending c (x ∷ xs) → All (λ z. c (last_or x xs) z ≡ false) (x ∷ xs)
  last_or-highest x [] a = (irreflexive c o x, tt)
  last_or-highest x (y ∷ xs) a =
      (last_or-All (λ z. c z x ≡ false) y xs a.0, last_or-highest y xs a.1)
