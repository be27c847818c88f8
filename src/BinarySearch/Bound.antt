-- ===== src/BinarySearch/Bound.antt =====
-- What a lower bound is, and how a search narrows the range that it lies in.
use seq.Prelude.{
  ℕ, ◌+◌, ◌≤◌, ◌<◌, ◌≡◌, sym, ◌∙◌, inl, inr, Bool, true, false, Bool-cases, Option, some, subst,
  List, length, get_elem?, get_elem?-length_le, arith,
}

module _ {A : Type 0} where
  -- The elements that satisfy `le` stand before those that do not.
  abbrev pub Partitioned : (A → Bool) → List A → Type 0
  Partitioned le xs =
      (i j : ℕ) (x y : A)
      → get_elem? xs i ≡ some x
      → get_elem? xs j ≡ some y
      → i ≤ j
      → le y ≡ true
      → le x ≡ true

  -- The lower bound lies in [s, e].
  pub record Within (le : A → Bool) (xs : List A) (s e : ℕ) : Type 0 where
    pub order : s ≤ e
    pub fits : e ≤ length xs
    pub below : (i : ℕ) (x : A) → get_elem? xs i ≡ some x → i < s → le x ≡ true
    pub above : (i : ℕ) (x : A) → get_elem? xs i ≡ some x → e ≤ i → le x ≡ false

  -- The elements before `r` satisfy `le`, those from `r` on do not.
  abbrev pub IsBound : (A → Bool) → List A → ℕ → Type 0
  IsBound le xs r = Within le xs r r

  -- A search gives the bound.
  abbrev pub Finds : (A → Bool) → List A → Option ℕ → Type 0
  Finds le xs o = (r : ℕ) × (o ≡ some r) × IsBound le xs r

  pub Within-move :
      (le : A → Bool) (xs : List A) (s e e' : ℕ) → e ≡ e' → Within le xs s e → Within le xs s e'
  Within-move le xs s e e' q w = subst (Within le xs s) q w

  pub Within-all : (le : A → Bool) (xs : List A) → Within le xs 0 (length xs)
  Within-all le xs = record {
    order = omega arith;
    fits = omega arith;
    below = λ i x at h. absurd (omega arith);
    above = λ i x at h. let missing = get_elem?-length_le xs i h in cc;
  }

  module _ (le : A → Bool) (xs : List A) (part : Partitioned le xs) (s e : ℕ)
      (within : Within le xs s e) (mid : ℕ) (x : A) (at : get_elem? xs mid ≡ some x) where
    -- An element before the bound: the bound lies behind it.
    pub Within-right : (s' : ℕ) → le x ≡ true → s' ≤ mid + 1 → s' ≤ e → Within le xs s' e
    Within-right s' holds h k = record {
      order = k;
      fits = within.fits;
      below = λ i y there l. part i mid y x there at (omega arith) holds;
      above = within.above;
    }

    -- An element that is not: the bound lies at it or before it.
    pub Within-left : (e' : ℕ) → le x ≡ false → mid ≤ e' → s ≤ e' → e' ≤ e → Within le xs s e'
    Within-left e' fails h k l = record {
      order = k;
      fits = omega (arith, within.fits);
      below = within.below;
      above = λ i y there m. elim (Bool-cases (le y)) [
        | inl holds ↦
            let both : true ≡ false = sym (part mid i x y at there (omega arith) holds) ∙ fails in
            cc
        | inr n ↦ n
      ];
    }
