-- ===== src/FlatMap/Multi/Bounds.antt =====
-- The operations on ascending lists, in which elements with the same key stand side by side.
use mathlib.Core.Option.{some-injective}
use seq.Prelude.{
  ℕ, ◌-◌, ◌≤◌, ◌<◌, ◌≡◌, refl, ap, sym, ◌∙◌, subst, inl, inr, true, false, not, Bool-cases, some,
  List, length, get_elem?, get_elem?-lt, arith, ◌==◌,
}
use seq.BinarySearch.Bound.{IsBound}
use seq.BucketManager.{Manager}
use seq.BucketManager.Locate.{Represents}
use seq.BucketManager.Bucket.{emplace_at}
use seq.TieredVector.Operations.{emplace-Makes}
use seq.FlatMap.{key_below, key_not_above, lower_bound_pos, upper_bound_pos, above_key}
use seq.FlatMap.Comparison.{TreeTraits, Lawful}
use seq.FlatMap.Criterion.{Partitioned-IsBound, IsBound-unique}
use seq.FlatMap.Search.{tvector_lower_bound-Finds}
use seq.FlatMap.Positions.{emplace_at-Ordered}
use seq.FlatMap.Find.{read_at}
use seq.FlatMap.Multi.{
  emplace_pos_multi, not_above_before, emplace_pos_hint_multi, equal_range_multi, count_multi,
}
use seq.FlatMap.Multi.Ascending.{
  not-true, Ascending, HoldsMulti, Block, Ascending-below, Ascending-not_above, IsBound-Block,
}

module _ {K : Type 0} {A : Type 0} (t : TreeTraits K A) (lawful : Lawful t) (m : Manager A)
    (xs : List A) (begins : ℕ → ℕ) (holds : HoldsMulti t m xs begins) where
  lower : (k : K) → (r : ℕ) × (lower_bound_pos t begins k m ≡ some r) × IsBound (key_below t k) xs r
  lower k =
      tvector_lower_bound-Finds t lawful (key_below t k) m xs holds.represents
        (Ascending-below t lawful xs holds.ascending k) begins holds.starts holds.searchable

  upper :
      (k : K) → (r : ℕ) × (upper_bound_pos t begins k m ≡ some r) × IsBound (key_not_above t k) xs r
  upper k =
      tvector_lower_bound-Finds t lawful (key_not_above t k) m xs holds.represents
        (Ascending-not_above t lawful xs holds.ascending k) begins holds.starts holds.searchable

  -- On a tree that represents an ascending list, in which keys may be equal, with no bucket or with
  -- an element, and with lawful traits, `equal_range_multi` gives two positions such that the
  -- elements before the first have smaller keys, those between them the key, and those from the
  -- second on greater keys, and `count_multi` gives the number of positions between them.
  pub equal_range_multi-Block :
      (k : K)
      → (low : ℕ) × (up : ℕ) × (equal_range_multi t begins k m ≡ some (low, up))
        × (count_multi t begins k m ≡ some (up - low))
        × Block t k xs low up
  unfolding equal_range_multi count_multi
  equal_range_multi-Block k =
      let l = lower k in
      let u = upper k in
      let c = holds.represents in
      let block = IsBound-Block t lawful xs holds.ascending k l.0 u.0 l.2 u.2 in
      elim (Bool-cases (l.0 == m.size)) [
        | inr inside ↦ (
          l.0,
          u.0,
          rw (equal_range_multi, l.1, inside, u.1) refl,
          rw (count_multi, l.1, inside, u.1) refl,
          block,
        )
        | inl outside ↦
            let both : l.0 ≡ u.0 = ground (arith, c.count, block.order, block.fits) in
            let nothing : 0 ≡ l.0 - l.0 = omega arith in
            (
              l.0,
              l.0,
              rw (equal_range_multi, l.1, outside) refl,
              rw (count_multi, l.1, outside) (ap some nothing),
              subst (Block t k xs l.0) (sym both) block,
            )
      ]

  -- On a tree that represents an ascending list, in which keys may be equal, with no bucket or with
  -- an element, and with lawful traits, `emplace_pos_multi` inserts the element behind all elements
  -- with its key and before those with a greater one, and the tree then represents the list with
  -- the element there, which is ascending.
  pub emplace_pos_multi-Ascending :
      (v : A)
      → (pos : ℕ) × (q : Manager A) × (emplace_pos_multi t begins v m ≡ some (pos, true, q))
        × Represents q (emplace_at pos v xs)
        × Ascending t (emplace_at pos v xs)
        × ((low : ℕ) × Block t (t.key v) xs low pos)
  unfolding emplace_pos_multi
  emplace_pos_multi-Ascending v =
      let k = t.key v in
      let l = lower k in
      let u = upper k in
      let w = u.2 in
      let block = IsBound-Block t lawful xs holds.ascending k l.0 u.0 l.2 u.2 in
      let q = emplace-Makes t.deque lawful.valid (some m) xs holds.represents u.0 v w.fits in
      (
        u.0,
        q.0,
        rw (emplace_pos_multi, u.1, q.1) refl,
        q.2,
        emplace_at-Ordered (λ x y. t.less (t.key y) (t.key x) ≡ false) xs u.0 v holds.ascending
            w.fits (λ i x at h. not-true (t.less k (t.key x)) (w.below i x at h))
            (λ i x at h. lawful.asymmetric k (t.key x) (block.greater i x at h)),
        (l.0, block),
      )

  -- A hint behind which the key is smaller, and before which it is not.
  hint_at_bound :
      (v : A) (hint : ℕ) (x y : A)
      → 0 < hint
      → hint < length xs
      → get_elem? xs hint ≡ some x
      → t.less (t.key v) (t.key x) ≡ true
      → get_elem? xs (hint - 1) ≡ some y
      → t.less (t.key v) (t.key y) ≡ false
      → upper_bound_pos t begins (t.key v) m ≡ some hint
  hint_at_bound v hint x y positive lt e above f fits =
      let u = upper (t.key v) in
      let le = key_not_above t (t.key v) in
      let w =
        Partitioned-IsBound le xs hint (Ascending-not_above t lawful xs holds.ascending (t.key v))
          (omega arith) (λ z h at. ap le (some-injective z y (sym at ∙ f)) ∙ ap not fits)
          (λ z at. ap le (some-injective z x (sym at ∙ e)) ∙ ap not above) in
      u.1 ∙ ap some (IsBound-unique le xs u.0 hint u.2 w)

  -- On a tree that represents an ascending list, in which keys may be equal, with no bucket or with
  -- an element, and with lawful traits, `emplace_pos_hint_multi` with any hint that is at most the
  -- size does the same as `emplace_pos_multi`.
  pub emplace_pos_hint_multi-emplace_pos_multi :
      (v : A) (hint : ℕ)
      → hint ≤ length xs
      → emplace_pos_hint_multi t begins hint v m ≡ emplace_pos_multi t begins v m
  unfolding emplace_pos_hint_multi emplace_pos_multi above_key not_above_before
  emplace_pos_hint_multi-emplace_pos_multi v hint fits = elim (Bool-cases (hint == m.size)) [
    | inl behind ↦ rw (emplace_pos_hint_multi, above_key, behind) refl
    | inr before ↦
        let c = holds.represents in
        let lt : hint < length xs = ground (arith, c.count) in
        let e = get_elem?-lt xs hint lt in
        let here = read_at m xs c hint lt e.0 e.1 in
        elim (Bool-cases (t.less (t.key v) (t.key e.0))) [
          | inr other ↦ rw (emplace_pos_hint_multi, above_key, before, here, other) refl
          | inl above ↦ elim (Bool-cases (hint == 0)) [
            | inl first ↦
                rw (emplace_pos_hint_multi, above_key, before, here, above, not_above_before, first)
                  refl
            | inr later ↦
                let prior : hint - 1 < length xs = omega arith in
                let d = get_elem?-lt xs (hint - 1) prior in
                let there = read_at m xs c (hint - 1) prior d.0 d.1 in
                elim (Bool-cases (t.less (t.key v) (t.key d.0))) [
                  | inl smaller ↦
                      rw
                        (
                          emplace_pos_hint_multi, above_key, before, here, above, not_above_before,
                          later, there, smaller,
                        )
                        refl
                  | inr fits_before ↦
                      let found =
                        hint_at_bound v hint e.0 d.0 (ground arith) lt e.1 above d.1 fits_before in
                      rw
                        (
                          emplace_pos_hint_multi, above_key, before, here, above, not_above_before,
                          later, there, fits_before, emplace_pos_multi, found,
                        )
                        refl
                ]
          ]
        ]
  ]
