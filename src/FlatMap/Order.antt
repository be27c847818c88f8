-- ===== src/FlatMap/Order.antt =====
-- Sorted lists of elements with different keys.
use mathlib.Core.Option.{some-injective}
use seq.Prelude.{
  ℕ, ◌+◌, ◌≤◌, ◌≡◌, ap, sym, ◌∙◌, ◌⊎◌, inl, inr, true, false, not, Bool-cases, some, List,
  get_elem?, get_elem?-lt, arith, ltb,
}
use seq.BinarySearch.Bound.{Partitioned, IsBound}
use seq.BucketManager.Bucket.{erase_at}
use seq.FlatMap.{key_below, key_not_above}
use seq.FlatMap.Comparison.{TreeTraits, Lawful}
use seq.FlatMap.Criterion.{get_elem?-within}
use seq.FlatMap.Positions.{Ordered, erase_at-Kept}

module _ {K : Type 0} {A : Type 0} (t : TreeTraits K A) where
  -- Each element has a smaller key than the elements behind it.
  abbrev pub Sorted : List A → Type 0
  Sorted xs = Ordered (λ x y. t.less (t.key x) (t.key y) ≡ true) xs

  -- The element has the key.
  abbrev pub Equivalent : K → A → Type 0
  Equivalent k x = (t.less k (t.key x) ≡ false) × (t.less (t.key x) k ≡ false)

  -- Every element has a smaller or a greater key.
  abbrev pub Absent : K → List A → Type 0
  Absent k xs =
      (i : ℕ) (x : A)
      → get_elem? xs i ≡ some x
      → (t.less (t.key x) k ≡ true) ⊎ (t.less k (t.key x) ≡ true)

module _ {K : Type 0} {A : Type 0} (t : TreeTraits K A) (lawful : Lawful t) where
  pub less_trans : (a b c : K) → t.less a b ≡ true → t.less b c ≡ true → t.less a c ≡ true
  less_trans a b c h k = elim (Bool-cases (t.less a c)) [
    | inl holds ↦ holds
    | inr fails ↦
        let back = lawful.cotransitive a b c h fails in
        let front = lawful.asymmetric b c k in absurd cc
  ]

  pub less_irrefl : (a : K) → t.less a a ≡ false
  less_irrefl a = elim (Bool-cases (t.less a a)) [
    | inl holds ↦ lawful.asymmetric a a holds
    | inr fails ↦ fails
  ]

  module _ (xs : List A) (sorted : Sorted t xs) (k : K) where
    -- Beside an element, or the same one.
    related :
        (i j : ℕ) (x y : A)
        → get_elem? xs i ≡ some x
        → get_elem? xs j ≡ some y
        → i ≤ j
        → (x ≡ y) ⊎ (t.less (t.key x) (t.key y) ≡ true)
    related i j x y ai aj h = elim (Bool-cases (ltb i j)) [
      | inl lt ↦ inr (sorted i j x y ai aj (ground arith))
      | inr same ↦
          let e : i ≡ j = ground arith in
          inl (some-injective x y (sym ai ∙ ap (get_elem? xs) e ∙ aj))
    ]

    pub Sorted-below : Partitioned (key_below t k) xs
    Sorted-below i j x y ai aj h below = elim (related i j x y ai aj h) [
      | inl e ↦ ap (key_below t k) e ∙ below
      | inr lt ↦ less_trans (t.key x) (t.key y) k lt below
    ]

    pub Sorted-not_above : Partitioned (key_not_above t k) xs
    Sorted-not_above i j x y ai aj h below = elim (related i j x y ai aj h) [
      | inl e ↦ ap (key_not_above t k) e ∙ below
      | inr lt ↦ elim (Bool-cases (t.less k (t.key x))) [
        | inl above ↦
            let far = less_trans k (t.key x) (t.key y) above lt in
            let no : not (t.less k (t.key y)) ≡ false = ap not far in absurd cc
        | inr fits ↦ ap not fits
      ]
    ]

    module _ (r : ℕ) (bound : IsBound (key_below t k) xs r) where
      -- No element has the key when there is none at the bound, or that one's is greater.
      pub IsBound-Absent :
          ((x : A) → get_elem? xs r ≡ some x → t.less k (t.key x) ≡ true) → Absent t k xs
      IsBound-Absent above i x at = elim (Bool-cases (ltb i r)) [
        | inl before ↦ inl (bound.below i x at (ground arith))
        | inr behind ↦
            let here = get_elem?-lt xs r (ground (arith, get_elem?-within xs i x at)) in
            inr elim (related r i here.0 x here.1 at (ground arith)) [
              | inl e ↦ above x (here.1 ∙ ap some e)
              | inr lt ↦ less_trans k (t.key here.0) (t.key x) (above here.0 here.1) lt
            ]
      ]

      -- The elements from the bound on have a greater key, when no element has the key.
      pub Absent-above :
          Absent t k xs
          → (i : ℕ) (x : A) → get_elem? xs i ≡ some x
          → r ≤ i
          → t.less k (t.key x) ≡ true
      Absent-above absent i x at h = elim (absent i x at) [
        | inl less ↦ let fails = bound.above i x at h in absurd cc
        | inr more ↦ more
      ]

  pub erase_at-Sorted : (xs : List A) (p : ℕ) → Sorted t xs → Sorted t (erase_at p xs)
  erase_at-Sorted xs p sorted i j x y ai aj lt = elim (erase_at-Kept p xs i x ai) [
    | inl before ↦ elim (erase_at-Kept p xs j y aj) [
      | inl later ↦ sorted i j x y before.1 later.1 lt
      | inr behind ↦ sorted i (j + 1) x y before.1 behind.1 (omega arith)
    ]
    | inr behind ↦ elim (erase_at-Kept p xs j y aj) [
      | inl later ↦ absurd (omega (arith, behind.0, later.0))
      | inr later ↦ sorted (i + 1) (j + 1) x y behind.1 later.1 (omega arith)
    ]
  ]

  smaller :
      (k : K) (x y : A)
      → Equivalent t k y
      → t.less (t.key x) (t.key y) ≡ true
      → t.less (t.key x) k ≡ true
  smaller k x y e lt = elim (Bool-cases (t.less (t.key x) k)) [
    | inl holds ↦ holds
    | inr fails ↦
        let back = lawful.cotransitive (t.key x) (t.key y) k lt fails in let no = e.0 in absurd cc
  ]

  pub greater :
      (k : K) (x y : A)
      → Equivalent t k x
      → t.less (t.key x) (t.key y) ≡ true
      → t.less k (t.key y) ≡ true
  greater k x y e lt = elim (Bool-cases (t.less (t.key x) k)) [
    | inl holds ↦ let no = e.1 in absurd cc
    | inr fails ↦ lawful.cotransitive (t.key x) (t.key y) k lt fails
  ]

  -- Without the element that has the key, no element has it.
  pub erase_at-Absent :
      (xs : List A) (p : ℕ) (k : K) (y : A)
      → Sorted t xs
      → get_elem? xs p ≡ some y
      → Equivalent t k y
      → Absent t k (erase_at p xs)
  erase_at-Absent xs p k y sorted at e i x ai = elim (erase_at-Kept p xs i x ai) [
    | inl before ↦ inl (smaller k x y e (sorted i p x y before.1 at before.0))
    | inr behind ↦
        inr (greater k y x e (sorted p (i + 1) y x at behind.1 (omega (arith, behind.0))))
  ]

  -- Two elements with the key stand at the same position.
  pub Equivalent-unique :
      (xs : List A) (i j : ℕ) (k : K) (x y : A)
      → Sorted t xs
      → get_elem? xs i ≡ some x
      → get_elem? xs j ≡ some y
      → Equivalent t k x
      → Equivalent t k y
      → i ≡ j
  Equivalent-unique xs i j k x y sorted ai aj e f = elim (Bool-cases (ltb i j)) [
    | inl lt ↦
        let g = greater k x y e (sorted i j x y ai aj (ground arith)) in let no = f.0 in absurd cc
    | inr ge ↦ elim (Bool-cases (ltb j i)) [
      | inl gt ↦
          let g = greater k y x f (sorted j i y x aj ai (ground arith)) in let no = e.0 in absurd cc
      | inr le ↦ ground arith
    ]
  ]

  pub Equivalent-self : (v : A) → Equivalent t (t.key v) v
  Equivalent-self v = (less_irrefl (t.key v), less_irrefl (t.key v))
