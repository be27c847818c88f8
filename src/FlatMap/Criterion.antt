-- ===== src/FlatMap/Criterion.antt =====
-- Lower bounds in parts of a list that is partitioned.
use seq.Prelude.{
  ℕ, ◌+◌, ◌-◌, ◌≤◌, ◌<◌, ◌≡◌, sym, ◌∙◌, inl, inr, Bool, true, false, Bool-cases, some, List, ◌++◌,
  length, get_elem?, get_elem?-lt, get_elem?-length_le, get_elem?-append_left,
  get_elem?-append_right, arith, ltb,
}
use seq.BinarySearch.Bound.{Partitioned, IsBound}

module _ {A : Type 0} where
  -- In a list that is partitioned it is enough to look at the elements beside the position.
  pub Partitioned-IsBound :
      (le : A → Bool) (xs : List A) (r : ℕ)
      → Partitioned le xs
      → r ≤ length xs
      → ((x : A) → 0 < r → get_elem? xs (r - 1) ≡ some x → le x ≡ true)
      → ((x : A) → get_elem? xs r ≡ some x → le x ≡ false)
      → IsBound le xs r
  Partitioned-IsBound le xs r part h last next = record {
    order = omega arith;
    fits = h;
    below = λ i x at k.
        let end = get_elem?-lt xs (r - 1) (omega arith) in
        part i (r - 1) x end.0 at end.1 (omega arith) (last end.0 (omega arith) end.1);
    above = λ i x at k. elim (Bool-cases (le x)) [
      | inr fails ↦ fails
      | inl holds ↦ outside i x at k holds
    ];
  }
    where
      outside : (i : ℕ) (x : A) → get_elem? xs i ≡ some x → r ≤ i → le x ≡ true → le x ≡ false
      outside i x at k holds = elim (Bool-cases (ltb r (length xs))) [
        | inl inside ↦
            let here = get_elem?-lt xs r (ground arith) in
            let both : true ≡ false =
              sym (part r i here.0 x here.1 at k holds) ∙ next here.0 here.1 in
            cc
        | inr all ↦ let missing = get_elem?-length_le xs i (ground arith) in cc
      ]

  pub get_elem?-within : (xs : List A) (i : ℕ) (x : A) → get_elem? xs i ≡ some x → i < length xs
  get_elem?-within xs i x at = elim (Bool-cases (ltb i (length xs))) [
    | inl inside ↦ ground arith
    | inr outside ↦ let missing = get_elem?-length_le xs i (ground arith) in absurd cc
  ]

  pub get_elem?-left :
      (xs ys : List A) (i : ℕ) (x : A) → get_elem? xs i ≡ some x → get_elem? (xs ++ ys) i ≡ some x
  get_elem?-left xs ys i x at = get_elem?-append_left xs ys i (get_elem?-within xs i x at) ∙ at

  pub Partitioned-left :
      (le : A → Bool) (xs ys : List A) → Partitioned le (xs ++ ys) → Partitioned le xs
  Partitioned-left le xs ys part i j x y ai aj =
      part i j x y (get_elem?-left xs ys i x ai) (get_elem?-left xs ys j y aj)

  pub Partitioned-right :
      (le : A → Bool) (xs ys : List A) → Partitioned le (xs ++ ys) → Partitioned le ys
  Partitioned-right le xs ys part i j x y ai aj h =
      part (length xs + i) (length xs + j) x y (get_elem?-append_right xs ys i ∙ ai)
        (get_elem?-append_right xs ys j ∙ aj) (omega arith)

  -- Two bounds are the same.
  pub IsBound-unique :
      (le : A → Bool) (xs : List A) (r s : ℕ) → IsBound le xs r → IsBound le xs s → r ≡ s
  IsBound-unique le xs r s v w = elim (Bool-cases (ltb r s)) [
    | inl lt ↦
        let at = get_elem?-lt xs r (ground (arith, w.fits)) in
        let holds = w.below r at.0 at.1 (ground arith) in
        let fails = v.above r at.0 at.1 (omega arith) in absurd cc
    | inr ge ↦ elim (Bool-cases (ltb s r)) [
      | inl gt ↦
          let at = get_elem?-lt xs s (ground (arith, v.fits)) in
          let holds = v.below s at.0 at.1 (ground arith) in
          let fails = w.above s at.0 at.1 (omega arith) in absurd cc
      | inr le ↦ ground arith
    ]
  ]
