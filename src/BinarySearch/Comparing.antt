-- ===== src/BinarySearch/Comparing.antt =====
-- The searches by three-way comparison find the bound, and say whether the key is there.
use seq.Prelude.{
  ℕ, zero, suc, ◌+◌, ◌/◌, ◌%◌, ◌≤◌, ◌<◌, ◌≡◌, ◌⊎◌, refl, ap, sym, ◌∙◌, subst, inl, inr, Bool, true,
  false, Bool-cases, Option, none, some, List, length, get_elem?, get_elem?-length_le, get_elem?-lt,
  arith, ◌==◌, ltb, mod-eq_of_lt, not,
}
use seq.BinarySearch.{
  Sign, negative, null, positive, comparing, comparing_multi, lower_bound_unique, lower_bound_multi,
}
use seq.BinarySearch.Bound.{
  Partitioned, Within, Within-all, Within-right, Within-left, IsBound, Within-move,
}

abbrev pub is_negative : Sign → Bool
is_negative negative = true
is_negative _ = false

abbrev pub is_null : Sign → Bool
is_null null = true
is_null _ = false

abbrev pub is_positive : Sign → Bool
is_positive positive = true
is_positive _ = false

middle : (max s e : ℕ) → s < e → e + e ≤ max → (s ≤ (s + e) % max / 2) × ((s + e) % max / 2 < e)
middle max s e h k =
    rw (mod-eq_of_lt {n = s + e} {m = max} (omega arith)) (omega arith, omega arith)

Sign-cases : (c : Sign) → (c ≡ negative) ⊎ ((c ≡ null) ⊎ (c ≡ positive))
Sign-cases negative = inl refl
Sign-cases null = inr (inl refl)
Sign-cases positive = inr (inr refl)

negative-null : (c : Sign) → is_negative c ≡ true → is_null c ≡ false
negative-null negative h = refl
negative-null null h = sym h
negative-null positive h = refl

positive-null : (c : Sign) → not (is_positive c) ≡ false → is_null c ≡ false
positive-null negative h = refl
positive-null null h = h
positive-null positive h = refl

module _ {A : Type 0} (compare : A → Sign) (xs : List A) where
  -- The keys before the searched one, the searched ones, and those behind it, in this order.
  pub record Sorted : Type 0 where
    pub first : Partitioned (λ x. is_negative (compare x)) xs
    pub last : Partitioned (λ x. not (is_positive (compare x))) xs

  -- Whether the element at an index has the searched key.
  abbrev pub exact_at : ℕ → Bool
  exact_at i = elim (get_elem? xs i) [ none ↦ false | some x ↦ is_null (compare x) ]

  -- What a search in a container without equal keys says.
  abbrev pub Located : Option (ℕ × Bool) → Type 0
  Located none = ⊥
  Located (some (r, true)) = exact_at r ≡ true
  Located (some (r, false)) =
      IsBound (λ x. is_negative (compare x)) xs r × ((i : ℕ) → exact_at i ≡ false)

  -- The bound, and whether the element there has the searched key.
  abbrev pub Matched : Option (ℕ × Bool) → Type 0
  Matched o = (r : ℕ) × (o ≡ some (r, exact_at r)) × IsBound (λ x. is_negative (compare x)) xs r

  module _ (sorted : Sorted) (max : ℕ) (room : length xs + length xs ≤ max) where
    abbrev before : A → Bool
    before x = is_negative (compare x)

    abbrev upto : A → Bool
    upto x = not (is_positive (compare x))

    exact-some : (i : ℕ) (x : A) → get_elem? xs i ≡ some x → exact_at i ≡ is_null (compare x)
    exact-some i x there = rw (exact_at, there) refl

    exact-none : (i : ℕ) → length xs ≤ i → exact_at i ≡ false
    exact-none i h = rw (exact_at, get_elem?-length_le xs i h) refl

    -- An empty range: the key is nowhere.
    absent : (r : ℕ) → Within before xs r r → Within upto xs r r → (i : ℕ) → exact_at i ≡ false
    absent r v w i = elim (Bool-cases (ltb i (length xs))) [
      | inr out ↦ exact-none i (ground arith)
      | inl inside ↦
          let found = get_elem?-lt xs i (ground arith) in
          elim (Bool-cases (ltb i r)) [
            | inl front ↦
                exact-some i found.0 found.1
                ∙ negative-null (compare found.0) (v.below i found.0 found.1 (ground arith))
            | inr back ↦
                exact-some i found.0 found.1
                ∙ positive-null (compare found.0) (w.above i found.0 found.1 (ground arith))
          ]
    ]

    closed :
        (s e : ℕ) → s ≡ e → Within before xs s e → Within upto xs s e → Located (some (s, false))
    closed s e q v w =
        let v' = Within-move before xs s e s (sym q) v in
        (v', absent s v' (Within-move upto xs s e s (sym q) w))

    comparing-Located :
        (fuel s e : ℕ)
        → e ≤ s + fuel
        → Within before xs s e
        → Within upto xs s e
        → Located (comparing max fuel compare xs s e)
    unfolding comparing
    comparing-Located zero s e h v w =
        rw (let z : (s == e) ≡ true = ground (arith, v.order) in z)
          (closed s e (omega (arith, v.order)) v w)
    comparing-Located (suc fuel) s e h v w = elim (Bool-cases (s == e)) [
      | inl done ↦ rw done (closed s e (ground arith) v w)
      | inr more ↦
          let mid = (s + e) % max / 2 in
          let m = middle max s e (ground (arith, v.order)) (omega (arith, v.fits)) in
          let found = get_elem?-lt xs mid (omega (arith, v.fits, m.1)) in
          let x = found.0 in
          elim (Sign-cases (compare x)) [
            | inl less ↦
                rw (comparing, more, found.1, less)
                  (comparing-Located fuel (mid + 1) e (omega (arith, m.0))
                    (Within-right before xs sorted.first s e v mid x found.1 (mid + 1)
                      (ap is_negative less) (omega arith) (omega (arith, m.1)))
                    (Within-right upto xs sorted.last s e w mid x found.1 (mid + 1)
                      (ap (λ c. not (is_positive c)) less) (omega arith) (omega (arith, m.1))))
            | inr (inl same) ↦
                rw (comparing, more, found.1, same) (exact-some mid x found.1 ∙ ap is_null same)
            | inr (inr greater) ↦
                rw (comparing, more, found.1, greater)
                  (comparing-Located fuel s mid (omega (arith, m.1))
                    (Within-left before xs sorted.first s e v mid x found.1 mid
                      (ap is_negative greater) (omega arith) m.0 (omega (arith, m.1)))
                    (Within-left upto xs sorted.last s e w mid x found.1 mid
                      (ap (λ c. not (is_positive c)) greater) (omega arith) m.0
                      (omega (arith, m.1))))
          ]
    ]

    -- On a list sorted by `compare` of which twice the length is at most `max`, the `lower_bound`
    -- by three-way comparison without equal keys returns and reads inside the list only; with the
    -- flag set it gives an index with the searched key, and with the flag not set no element has
    -- that key and the index is the one before which all keys are less and from which on none is.
    pub lower_bound_unique-Located : Located (lower_bound_unique max compare xs)
    lower_bound_unique-Located =
        comparing-Located (length xs) 0 (length xs) (omega arith) (Within-all before xs)
          (Within-all upto xs)

    still_behind :
        (mid e : ℕ) (x y : A)
        → get_elem? xs mid ≡ some x
        → get_elem? xs e ≡ some y
        → compare x ≡ positive
        → mid ≤ e
        → upto y ≡ false
    still_behind mid e x y there end greater h = elim (Bool-cases (upto y)) [
      | inr behind ↦ behind
      | inl front ↦
          let both : true ≡ false =
            sym (sorted.last mid e x y there end h front) ∙ ap (λ c. not (is_positive c)) greater in
          cc
    ]

    -- Before an element behind the key, there is no match at the end of the range either.
    exact_behind :
        (mid e : ℕ) (x : A)
        → get_elem? xs mid ≡ some x
        → compare x ≡ positive
        → mid ≤ e
        → exact_at e ≡ exact_at mid
    exact_behind mid e x there greater h = elim (Bool-cases (ltb e (length xs))) [
      | inr out ↦ exact-none e (ground arith) ∙ sym (exact-some mid x there ∙ ap is_null greater)
      | inl inside ↦
          let found = get_elem?-lt xs e (ground arith) in
          exact-some e found.0 found.1
          ∙ positive-null (compare found.0) (still_behind mid e x found.0 there found.1 greater h)
          ∙ sym (exact-some mid x there ∙ ap is_null greater)
    ]

    comparing_multi-Matched :
        (fuel s e : ℕ)
        → e ≤ s + fuel
        → Within before xs s e
        → Matched (comparing_multi max fuel compare xs (exact_at e) s e)
    unfolding comparing_multi
    comparing_multi-Matched zero s e h v =
        rw (let z : (s == e) ≡ true = ground (arith, v.order) in z) (
          s,
          ap (λ k. some (s, exact_at k)) (let k : e ≡ s = omega (arith, v.order) in k),
          Within-move before xs s e s (omega (arith, v.order)) v,
        )
    comparing_multi-Matched (suc fuel) s e h v = elim (Bool-cases (s == e)) [
      | inl done ↦ rw done (
        s,
        ap (λ k. some (s, exact_at k)) (let k : e ≡ s = ground arith in k),
        Within-move before xs s e s (ground arith) v,
      )
      | inr more ↦
          let mid = (s + e) % max / 2 in
          let m = middle max s e (ground (arith, v.order)) (omega (arith, v.fits)) in
          let found = get_elem?-lt xs mid (omega (arith, v.fits, m.1)) in
          let x = found.0 in
          let rest = λ (c : Sign) (k : compare x ≡ c) (n : is_negative c ≡ false).
            comparing_multi-Matched fuel s mid (omega (arith, m.1)) (
              Within-left before xs sorted.first s e v mid x found.1 mid (ap is_negative k ∙ n)
                (omega arith) m.0 (omega (arith, m.1))) in
          elim (Sign-cases (compare x)) [
            | inl less ↦
                rw (comparing_multi, more, found.1, less)
                  (comparing_multi-Matched fuel (mid + 1) e (omega (arith, m.0)) (
                    Within-right before xs sorted.first s e v mid x found.1 (mid + 1)
                      (ap is_negative less) (omega arith) (omega (arith, m.1))))
            | inr (inl same) ↦
                rw (comparing_multi, more, found.1, same)
                  (subst (λ b. Matched (comparing_multi max fuel compare xs b s mid))
                    (exact-some mid x found.1 ∙ ap is_null same) (rest null same refl))
            | inr (inr greater) ↦
                rw (comparing_multi, more, found.1, greater)
                  (subst (λ b. Matched (comparing_multi max fuel compare xs b s mid))
                    (sym (exact_behind mid e x found.1 greater (omega (arith, m.1))))
                    (rest positive greater refl))
          ]
    ]

    -- On a list sorted by `compare` of which twice the length is at most `max`, the `lower_bound`
    -- by three-way comparison that allows equal keys returns, reads inside the list only, and gives
    -- the index before which all keys are less and from which on none is, with a flag that says
    -- whether the element there has the searched key.
    pub lower_bound_multi-Matched : Matched (lower_bound_multi max compare xs)
    lower_bound_multi-Matched =
        subst (λ b. Matched (comparing_multi max (length xs) compare xs b 0 (length xs)))
          (exact-none (length xs) (omega arith))
          (comparing_multi-Matched (length xs) 0 (length xs) (omega arith) (Within-all before xs))
