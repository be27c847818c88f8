-- ===== src/FlatMap/Range.antt =====
-- The range of a key, and whether it is there.
use mathlib.Core.Option.{some-injective}
use seq.Prelude.{
  ℕ, ◌+◌, ◌-◌, ◌≡◌, refl, ap, sym, ◌∙◌, ◌⊎◌, inl, inr, true, false, not, some, List, length,
  get_elem?, arith, ◌==◌, if◌then◌else◌,
}
use seq.BinarySearch.Bound.{IsBound}
use seq.BucketManager.{Manager, at}
use seq.FlatMap.{
  key_below, key_not_above, lower_bound_pos, upper_bound_pos, equal_range_pos, contains, count,
}
use seq.FlatMap.Comparison.{TreeTraits, Lawful}
use seq.FlatMap.Criterion.{get_elem?-within, Partitioned-IsBound, IsBound-unique}
use seq.FlatMap.Search.{tvector_lower_bound-Finds}
use seq.FlatMap.Order.{Equivalent, Absent, Absent-above, Sorted-not_above, greater}
use seq.FlatMap.Find.{
  Holds, lower_bound_pos-IsBound, IsBound-AtBound, at_end, at_greater, at_equivalent, not_end,
  tvector_binary_search-Found,
}

module _ {K : Type 0} {A : Type 0} (t : TreeTraits K A) (begins : ℕ → ℕ) (k : K) (m : Manager A)
    (xs : List A) where
  -- The range from the lower to the upper bound, or one element where both are the same.
  abbrev pub Range : Type 0
  Range =
      ((low : ℕ) × (x : A) × (equal_range_pos t begins k m ≡ some (low, low + 1))
        × (lower_bound_pos t begins k m ≡ some low)
        × (upper_bound_pos t begins k m ≡ some (low + 1))
        × (get_elem? xs low ≡ some x)
        × Equivalent t k x)
      ⊎ ((low : ℕ) × (equal_range_pos t begins k m
            ≡ some (low, if low == length xs then low else low + 1))
          × (lower_bound_pos t begins k m ≡ some low)
          × (upper_bound_pos t begins k m ≡ some low)
          × Absent t k xs)

  -- An element has the key, and is counted, or none has.
  abbrev pub Counted : Type 0
  Counted =
      ((pos : ℕ) × (x : A) × (contains t begins k m ≡ some true)
        × (count t begins k m ≡ some 1)
        × (get_elem? xs pos ≡ some x)
        × Equivalent t k x)
      ⊎ ((contains t begins k m ≡ some false) × (count t begins k m ≡ some 0) × Absent t k xs)

module _ {K : Type 0} {A : Type 0} (t : TreeTraits K A) (lawful : Lawful t) (m : Manager A)
    (xs : List A) (begins : ℕ → ℕ) (holds : Holds t m xs begins) (k : K) where
  -- The upper bound is where the elements with a greater key begin.
  upper_bound_pos-IsBound :
      (r : ℕ) → IsBound (key_not_above t k) xs r → upper_bound_pos t begins k m ≡ some r
  upper_bound_pos-IsBound r w =
      let found =
        tvector_lower_bound-Finds t lawful (key_not_above t k) m xs holds.represents
          (Sorted-not_above t lawful xs holds.sorted k) begins holds.starts holds.searchable in
      found.1 ∙ ap some (IsBound-unique (key_not_above t k) xs found.0 r found.2 w)

  upper_bound_pos-Absent :
      (r : ℕ) → IsBound (key_below t k) xs r → Absent t k xs → upper_bound_pos t begins k m ≡ some r
  upper_bound_pos-Absent r w absent = upper_bound_pos-IsBound r (
      Partitioned-IsBound (key_not_above t k) xs r (Sorted-not_above t lawful xs holds.sorted k)
        w.fits
        (λ x h at. ap not (lawful.asymmetric (t.key x) k (w.below (r - 1) x at (omega arith))))
        (λ x at. ap not (Absent-above t lawful xs holds.sorted k r w absent r x at (omega arith))))

  upper_bound_pos-Equivalent :
      (r : ℕ) (x : A)
      → get_elem? xs r ≡ some x
      → Equivalent t k x
      → upper_bound_pos t begins k m ≡ some (r + 1)
  upper_bound_pos-Equivalent r x at same = upper_bound_pos-IsBound (r + 1) (
      Partitioned-IsBound (key_not_above t k) xs (r + 1)
        (Sorted-not_above t lawful xs holds.sorted k) (omega (arith, get_elem?-within xs r x at))
        (λ y h there.
          let e : r + 1 - 1 ≡ r = omega arith in
          let q : y ≡ x = some-injective y x (sym there ∙ ap (get_elem? xs) e ∙ at) in
          ap (key_not_above t k) q ∙ ap not same.0)
        (λ y there.
          ap not (greater t lawful k x y same (holds.sorted r (r + 1) x y at there (omega arith)))))

  -- On a tree that represents a sorted list of different keys, with no bucket or with an element,
  -- and with lawful traits, `equal_range_pos` gives the range from the lower to the upper bound
  -- when an element has the key; when none has, both bounds are one position, and it gives the
  -- empty range there only if this is the size, and otherwise the range of the one element there.
  pub equal_range_pos-Range : Range t begins k m xs
  unfolding equal_range_pos
  equal_range_pos-Range =
      let b = lower_bound_pos-IsBound t lawful m xs begins holds k in
      let c = holds.represents in
      elim (IsBound-AtBound t lawful m xs begins holds k b.0 b.2) [
        | at_end e absent ↦
            let z : (b.0 == m.size) ≡ true = ground (arith, c.count) in
            let y : (b.0 == length xs) ≡ true = ground arith in
            inr (
              b.0,
              rw (equal_range_pos, b.1, z, y) refl,
              b.1,
              upper_bound_pos-Absent b.0 b.2 absent,
              absent,
            )
        | at_greater x h e above absent ↦
            let y : (b.0 == length xs) ≡ false = ground arith in
            inr (
              b.0,
              rw (equal_range_pos, b.1, not_end m xs c b.0 h, y) refl,
              b.1,
              upper_bound_pos-Absent b.0 b.2 absent,
              absent,
            )
        | at_equivalent x h e same ↦ inl (
          b.0,
          x,
          rw (equal_range_pos, b.1, not_end m xs c b.0 h) refl,
          b.1,
          upper_bound_pos-Equivalent b.0 x e same,
          e,
          same,
        )
      ]

  -- On a tree that represents a sorted list of different keys, with no bucket or with an element,
  -- and with lawful traits, `contains` and `count` give true and 1, and then an element has the
  -- key, or false and 0, and then none has.
  pub count-Counted : Counted t begins k m xs
  unfolding contains count
  count-Counted =
      let c = holds.represents in
      elim (tvector_binary_search-Found t lawful m xs begins holds k) [
        | inl there ↦
            let inside = not_end m xs c there.0 (get_elem?-within xs there.0 there.1 there.3) in
            inl (
              there.0,
              there.1,
              rw (contains, there.2, inside) refl,
              rw (count, there.2, inside) refl,
              there.3,
              there.4,
            )
        | inr none_there ↦
            let z : (length xs == m.size) ≡ true = ground (arith, c.count) in
            inr
              (rw (contains, none_there.0, z) refl, rw (count, none_there.0, z) refl, none_there.1)
      ]
