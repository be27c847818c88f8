-- ===== src/Algorithm/Network.antt =====
-- seq/algorithm.hpp: the sorting network for eight values. `check_2` is the macro `CHECK_2`: it
-- exchanges the values at two places if the second stands before the first.
pub mod Booleans
pub mod Counted
pub mod Sorted
use seq.Prelude.{
  Bool, true, false, ℕ, zero, suc, none, some, List, [], ◌∷◌, get_elem?, if◌then◌else◌,
}

module _ {A : Type 0} where
  abbrev pub assign_at : ℕ → A → List A → List A
  assign_at i v [] = []
  assign_at zero v (x ∷ xs) = v ∷ xs
  assign_at (suc i) v (x ∷ xs) = x ∷ assign_at i v xs

module _ {A : Type 0} (c : A → A → Bool) where
  abbrev pub check_2 : ℕ → ℕ → List A → List A
  check_2 l r xs = elim (get_elem? xs l) [
    | none ↦ xs
    | some a ↦ elim (get_elem? xs r) [
      | none ↦ xs
      | some b ↦ if c b a then assign_at l b (assign_at r a xs) else xs
    ]
  ]

  abbrev pub check_all : List (ℕ × ℕ) → List A → List A
  check_all [] xs = xs
  check_all (p ∷ ps) xs = check_all ps (check_2 p.0 p.1 xs)

-- The places that are compared, in their order.
abbrev pub network : List (ℕ × ℕ)
network =
    (0, 1)
    ∷ (2, 3)
    ∷ (4, 5)
    ∷ (6, 7)
    ∷ (0, 2)
    ∷ (1, 3)
    ∷ (4, 6)
    ∷ (5, 7)
    ∷ (0, 4)
    ∷ (1, 5)
    ∷ (2, 6)
    ∷ (3, 7)
    ∷ (2, 4)
    ∷ (3, 5)
    ∷ (1, 4)
    ∷ (3, 6)
    ∷ (1, 2)
    ∷ (3, 4)
    ∷ (5, 6)
    ∷ []

abbrev pub network_sort_8 : {A : Type 0} → (A → A → Bool) → List A → List A
network_sort_8 c xs = check_all c network xs
