-- ===== src/FlatMap/Emplace.antt =====
-- The insertion in a tree, with a hint and without.
use mathlib.Core.Option.{some-injective}
use seq.Prelude.{
  ℕ, ◌-◌, ◌≤◌, ◌<◌, ◌≡◌, refl, ap, sym, ◌∙◌, ◌⊎◌, inl, inr, Bool, true, false, Bool-cases, Option,
  some, List, length, get_elem?, get_elem?-lt, arith, ◌==◌,
}
use seq.BinarySearch.Bound.{IsBound}
use seq.BucketManager.{Manager}
use seq.BucketManager.Locate.{Represents}
use seq.BucketManager.Bucket.{emplace_at}
use seq.TieredVector.Operations.{emplace-Makes}
use seq.FlatMap.{
  key_below, lower_bound_pos, above_key, below_key_before, is_new, emplace_pos, emplace_pos_hint,
}
use seq.FlatMap.Comparison.{TreeTraits, Lawful}
use seq.FlatMap.Criterion.{Partitioned-IsBound, IsBound-unique}
use seq.FlatMap.Order.{Sorted, Equivalent, Absent, Sorted-below, Absent-above}
use seq.FlatMap.Positions.{emplace_at-Ordered}
use seq.FlatMap.Find.{
  Holds, lower_bound_pos-IsBound, IsBound-AtBound, at_end, at_greater, at_equivalent, read_at,
  not_end,
}

module _ {K : Type 0} {A : Type 0} (t : TreeTraits K A) where
  -- The element is inserted in its place in the order, or another one with its key is found.
  abbrev pub Emplaced : A → Manager A → List A → Option (ℕ × Bool × Manager A) → Type 0
  Emplaced v m xs o =
      ((pos : ℕ) × (q : Manager A) × (o ≡ some (pos, true, q))
        × (pos ≤ length xs)
        × Represents q (emplace_at pos v xs)
        × Sorted t (emplace_at pos v xs)
        × Absent t (t.key v) xs)
      ⊎ ((pos : ℕ) × (x : A) × (o ≡ some (pos, false, m))
          × (get_elem? xs pos ≡ some x)
          × Equivalent t (t.key v) x)

module _ {K : Type 0} {A : Type 0} (t : TreeTraits K A) (lawful : Lawful t) (m : Manager A)
    (xs : List A) (begins : ℕ → ℕ) (holds : Holds t m xs begins) (v : A) where
  -- The insertion at the bound of a new key.
  new_Emplaced :
      (pos : ℕ)
      → lower_bound_pos t begins (t.key v) m ≡ some pos
      → IsBound (key_below t (t.key v)) xs pos
      → is_new t (t.key v) pos m ≡ some true
      → Absent t (t.key v) xs
      → Emplaced t v m xs (emplace_pos t begins v m)
  unfolding emplace_pos
  new_Emplaced pos e w new absent =
      let q = emplace-Makes t.deque lawful.valid (some m) xs holds.represents pos v w.fits in
      inl (
        pos,
        q.0,
        rw (emplace_pos, e, new, q.1) refl,
        w.fits,
        q.2,
        emplace_at-Ordered (λ x y. t.less (t.key x) (t.key y) ≡ true) xs pos v holds.sorted w.fits
            (λ i x at h. w.below i x at h)
            (λ i x at h. Absent-above t lawful xs holds.sorted (t.key v) pos w absent i x at h),
        absent,
      )

  -- On a tree that represents a sorted list of different keys, with no bucket or with an element,
  -- and with lawful traits, `emplace_pos` either inserts the element, and then no element had its
  -- key, the position is in the order and the tree represents the sorted list with the element
  -- inserted there, or leaves the tree as it is and gives the position of an element with the same
  -- key.
  pub emplace_pos-Emplaced : Emplaced t v m xs (emplace_pos t begins v m)
  unfolding emplace_pos is_new
  emplace_pos-Emplaced =
      let b = lower_bound_pos-IsBound t lawful m xs begins holds (t.key v) in
      let c = holds.represents in
      elim (IsBound-AtBound t lawful m xs begins holds (t.key v) b.0 b.2) [
        | at_end e absent ↦
            let z : (b.0 == m.size) ≡ true = ground (arith, c.count) in
            new_Emplaced b.0 b.1 b.2 (rw (is_new, z) refl) absent
        | at_greater x h e above absent ↦
            new_Emplaced b.0 b.1 b.2
              (rw (is_new, not_end m xs c b.0 h, read_at m xs c b.0 h x e, above) refl) absent
        | at_equivalent x h e same ↦ inr (
          b.0,
          x,
          rw (emplace_pos, b.1, is_new, not_end m xs c b.0 h, read_at m xs c b.0 h x e, same.0)
              refl,
          e,
          same,
        )
      ]

  -- A hint that is the bound.
  hint_at_bound :
      (hint : ℕ) (x : A)
      → hint < length xs
      → get_elem? xs hint ≡ some x
      → t.less (t.key v) (t.key x) ≡ true
      → below_key_before t (t.key v) hint m ≡ some true
      → IsBound (key_below t (t.key v)) xs hint
      → emplace_pos_hint t begins hint v m ≡ emplace_pos t begins v m
  unfolding emplace_pos_hint emplace_pos above_key is_new
  hint_at_bound hint x lt e above below w =
      let b = lower_bound_pos-IsBound t lawful m xs begins holds (t.key v) in
      let c = holds.represents in
      let same : b.0 ≡ hint = IsBound-unique (key_below t (t.key v)) xs b.0 hint b.2 w in
      let found : lower_bound_pos t begins (t.key v) m ≡ some hint = b.1 ∙ ap some same in
      let here = read_at m xs c hint lt x e in
      let inside = not_end m xs c hint lt in
      rw
        (
          emplace_pos_hint, above_key, inside, here, above, below, emplace_pos, found, is_new,
          inside, here, above,
        )
        refl

  -- On a tree that represents a sorted list of different keys, with no bucket or with an element,
  -- and with lawful traits, `emplace_pos_hint` with any hint that is at most the size does the same
  -- as `emplace_pos`.
  pub emplace_pos_hint-emplace_pos :
      (hint : ℕ) → hint ≤ length xs → emplace_pos_hint t begins hint v m ≡ emplace_pos t begins v m
  unfolding emplace_pos_hint above_key below_key_before
  emplace_pos_hint-emplace_pos hint fits = elim (Bool-cases (hint == m.size)) [
    | inl behind ↦ rw (emplace_pos_hint, above_key, behind) refl
    | inr before ↦
        let c = holds.represents in
        let lt : hint < length xs = ground (arith, c.count) in
        let e = get_elem?-lt xs hint lt in
        let here = read_at m xs c hint lt e.0 e.1 in
        let part = Sorted-below t lawful xs holds.sorted (t.key v) in
        elim (Bool-cases (t.less (t.key v) (t.key e.0))) [
          | inr other ↦ rw (emplace_pos_hint, above_key, before, here, other) refl
          | inl above ↦
              let next = λ (x : A) (same : get_elem? xs hint ≡ some x).
                ap (key_below t (t.key v)) (some-injective x e.0 (sym same ∙ e.1))
                ∙ lawful.asymmetric (t.key v) (t.key e.0) above in
              elim (Bool-cases (hint == 0)) [
                | inl first ↦
                    hint_at_bound hint e.0 lt e.1 above (rw (below_key_before, first) refl) (
                      Partitioned-IsBound (key_below t (t.key v)) xs hint part fits
                        (λ x h there. absurd (ground arith)) next)
                | inr later ↦
                    let prior : hint - 1 < length xs = omega arith in
                    let d = get_elem?-lt xs (hint - 1) prior in
                    let there = read_at m xs c (hint - 1) prior d.0 d.1 in
                    elim (Bool-cases (t.less (t.key d.0) (t.key v))) [
                      | inl below ↦
                          hint_at_bound hint e.0 lt e.1 above
                            (rw (below_key_before, later, there, below) refl)
                            (Partitioned-IsBound (key_below t (t.key v)) xs hint part fits
                              (λ x h at.
                                ap (key_below t (t.key v)) (some-injective x d.0 (sym at ∙ d.1))
                                ∙ below)
                              next)
                      | inr other ↦
                          rw
                            (
                              emplace_pos_hint, above_key, before, here, above, below_key_before,
                              later, there, other,
                            )
                            refl
                    ]
              ]
        ]
  ]
