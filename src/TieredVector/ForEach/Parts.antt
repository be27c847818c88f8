-- ===== src/TieredVector/ForEach/Parts.antt =====
-- Parts of a list.
use mathlib.Core.Option.{some-injective}
use seq.Prelude.{
  ℕ, zero, suc, ◌+◌, ◌-◌, ◌≤◌, ◌≡◌, refl, ap, sym, ◌∙◌, some, List, [], ◌∷◌, ◌++◌, take, drop,
  get_elem?, arith,
}

module _ {A : Type 0} where
  pub drop-elem :
      (xs : List A) (i : ℕ) (x : A) → get_elem? xs i ≡ some x → drop i xs ≡ x ∷ drop (i + 1) xs
  drop-elem [] i x at = absurd cc
  drop-elem (y ∷ xs) zero x at = ap (λ z. z ∷ xs) (some-injective y x at)
  drop-elem (y ∷ xs) (suc i) x at =
      drop-elem xs i x at
      ∙ ap (λ k. x ∷ drop k (y ∷ xs)) (let e : suc (i + 1) ≡ suc i + 1 = omega arith in e)

  take_nil : (k : ℕ) → take {A = A} k [] ≡ []
  take_nil zero = refl
  take_nil (suc k) = refl

  drop_nil : (k : ℕ) → drop {A = A} k [] ≡ []
  drop_nil zero = refl
  drop_nil (suc k) = refl

  pub drop-drop : (i j : ℕ) (xs : List A) → drop i (drop j xs) ≡ drop (j + i) xs
  drop-drop i zero xs = ap (λ k. drop k xs) (omega arith)
  drop-drop i (suc j) [] = drop_nil i ∙ sym (drop_nil (suc j + i))
  drop-drop i (suc j) (x ∷ xs) =
      drop-drop i j xs
      ∙ ap (λ k. drop k (x ∷ xs)) (let e : suc (j + i) ≡ suc j + i = omega arith in e)

  pub take-split :
      (i j : ℕ) (xs : List A) → i ≤ j → take i xs ++ take (j - i) (drop i xs) ≡ take j xs
  take-split zero j xs h = ap (λ k. take k xs) (let e : j - 0 ≡ j = omega arith in e)
  take-split (suc i) zero xs h = absurd (omega arith)
  take-split (suc i) (suc j) [] h = take_nil (suc j - suc i)
  take-split (suc i) (suc j) (x ∷ xs) h =
      ap (λ k. x ∷ (take i xs ++ take k (drop i xs)))
        (let e : suc j - suc i ≡ j - i = omega arith in e)
      ∙ ap (λ l. x ∷ l) (take-split i j xs (omega arith))
