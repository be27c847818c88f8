-- ===== src/FlatMap/Positions.antt =====
-- Where the elements stand after an insertion and an erasure.
use mathlib.Core.Option.{some-injective}
use seq.Prelude.{
  ℕ, zero, suc, ◌+◌, ◌-◌, ◌≤◌, ◌<◌, ◌≡◌, ap, sym, ◌∙◌, subst, ◌⊎◌, inl, inr, none, some, List, [],
  ◌∷◌, length, get_elem?, drop, arith,
}
use seq.BucketManager.Bucket.{emplace_at, erase_at}
use seq.BucketManager.Erasure.Parts.{erase_at-suc}

module _ {A : Type 0} where
  -- Each element stands in a relation to the elements behind it.
  abbrev pub Ordered : (A → A → Type 0) → List A → Type 0
  Ordered R xs =
      (i j : ℕ) (x y : A) → get_elem? xs i ≡ some x → get_elem? xs j ≡ some y → i < j → R x y

  -- Where an element of `emplace_at` and of `erase_at` comes from.
  abbrev Placed : ℕ → A → List A → ℕ → A → Type 0
  Placed p v xs i x =
      ((i < p) × (get_elem? xs i ≡ some x))
      ⊎ (((i ≡ p) × (v ≡ x)) ⊎ ((p < i) × (get_elem? xs (i - 1) ≡ some x)))

  emplace_at-Placed :
      (p : ℕ) (v : A) (xs : List A) (i : ℕ) (x : A)
      → p ≤ length xs
      → get_elem? (emplace_at p v xs) i ≡ some x
      → Placed p v xs i x
  emplace_at-Placed zero v xs zero x h at = inr (inl (omega arith, some-injective v x at))
  emplace_at-Placed zero v xs (suc i) x h at =
      let e : i ≡ suc i - 1 = omega arith in inr (inr (omega arith, ap (get_elem? xs) (sym e) ∙ at))
  emplace_at-Placed (suc p) v [] i x h at = absurd (omega arith)
  emplace_at-Placed (suc p) v (y ∷ xs) zero x h at = inl (omega arith, at)
  emplace_at-Placed (suc p) v (y ∷ xs) (suc i) x h at =
      elim (emplace_at-Placed p v xs i x (omega arith) at) [
        | inl before ↦ inl (omega (arith, before.0), before.1)
        | inr (inl here) ↦ inr (inl (omega (arith, here.0), here.1))
        | inr (inr behind) ↦
            let e : suc (i - 1) ≡ suc i - 1 = omega (arith, behind.0) in
            inr (inr (omega (arith, behind.0), ap (get_elem? (y ∷ xs)) (sym e) ∙ behind.1))
      ]

  -- An element between those that it may stand behind and those that may stand behind it.
  pub emplace_at-Ordered :
      (R : A → A → Type 0) (xs : List A) (p : ℕ) (v : A)
      → Ordered R xs
      → p ≤ length xs
      → ((i : ℕ) (x : A) → get_elem? xs i ≡ some x → i < p → R x v)
      → ((i : ℕ) (x : A) → get_elem? xs i ≡ some x → p ≤ i → R v x)
      → Ordered R (emplace_at p v xs)
  emplace_at-Ordered R xs p v ordered h below above i j x y ai aj lt =
      elim (emplace_at-Placed p v xs i x h ai) [
        | inl before ↦ elim (emplace_at-Placed p v xs j y h aj) [
          | inl later ↦ ordered i j x y before.1 later.1 lt
          | inr (inl here) ↦ subst (R x) here.1 (below i x before.1 before.0)
          | inr (inr behind) ↦
              ordered i (j - 1) x y before.1 behind.1 (omega (arith, before.0, behind.0))
        ]
        | inr (inl here) ↦ elim (emplace_at-Placed p v xs j y h aj) [
          | inl later ↦ absurd (omega (arith, here.0, later.0))
          | inr (inl same) ↦ absurd (omega (arith, here.0, same.0))
          | inr (inr behind) ↦
              subst (λ z. R z y) here.1 (above (j - 1) y behind.1 (omega (arith, behind.0)))
        ]
        | inr (inr behind) ↦ elim (emplace_at-Placed p v xs j y h aj) [
          | inl later ↦ absurd (omega (arith, behind.0, later.0))
          | inr (inl same) ↦ absurd (omega (arith, behind.0, same.0))
          | inr (inr later) ↦
              ordered (i - 1) (j - 1) x y behind.1 later.1 (omega (arith, behind.0, later.0))
        ]
      ]

  abbrev pub Kept : ℕ → List A → ℕ → A → Type 0
  Kept p xs i x =
      ((i < p) × (get_elem? xs i ≡ some x)) ⊎ ((p ≤ i) × (get_elem? xs (i + 1) ≡ some x))

  pub erase_at-Kept :
      (p : ℕ) (xs : List A) (i : ℕ) (x : A) → get_elem? (erase_at p xs) i ≡ some x → Kept p xs i x
  erase_at-Kept zero [] i x at = absurd cc
  erase_at-Kept (suc p) [] i x at =
      let e : suc p + 1 ≡ suc (p + 1) = omega arith in
      let missing : none ≡ some x = sym (ap (λ k. get_elem? (drop k []) i) e) ∙ at in absurd cc
  erase_at-Kept zero (y ∷ xs) i x at =
      let e : i + 1 ≡ suc i = omega arith in inr (omega arith, ap (get_elem? (y ∷ xs)) e ∙ at)
  erase_at-Kept (suc p) (y ∷ xs) zero x at = inl (omega arith, at)
  erase_at-Kept (suc p) (y ∷ xs) (suc i) x at =
      let shifted : get_elem? (erase_at p xs) i ≡ some x =
        sym (ap (λ l. get_elem? l (suc i)) (erase_at-suc p y xs)) ∙ at in
      elim (erase_at-Kept p xs i x shifted) [
        | inl before ↦ inl (omega (arith, before.0), before.1)
        | inr behind ↦
            let e : suc i + 1 ≡ suc (i + 1) = omega arith in
            inr (omega (arith, behind.0), ap (get_elem? (y ∷ xs)) e ∙ behind.1)
      ]
