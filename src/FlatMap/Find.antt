-- ===== src/FlatMap/Find.antt =====
-- The operations of a tree that look for a key.
use seq.Prelude.{
  ℕ, ◌<◌, ◌≡◌, refl, ap, ◌∙◌, ◌⊎◌, inl, inr, true, false, Bool-cases, Option, some, List, [],
  length, get_elem?, get_elem?-lt, arith, ltb, ◌==◌,
}
use seq.BinarySearch.Bound.{IsBound}
use seq.BucketManager.{Manager, at}
use seq.BucketManager.Locate.{Represents, at-get_elem?}
use seq.BucketManager.Bucket.{erase_at}
use seq.TieredVector.Operations.{erase-Makes}
use seq.FlatMap.{key_below, lower_bound_pos, above_key, tvector_binary_search, erase_key}
use seq.FlatMap.Comparison.{TreeTraits, Lawful}
use seq.FlatMap.Criterion.{get_elem?-within}
use seq.FlatMap.Search.{tvector_lower_bound-Finds}
use seq.FlatMap.Order.{
  Sorted, Equivalent, Absent, Sorted-below, IsBound-Absent, erase_at-Sorted, erase_at-Absent,
}

module _ {K : Type 0} {A : Type 0} (t : TreeTraits K A) where
  -- The tree is a manager of a sorted list, and it can be searched: it has no bucket, or an element.
  pub record Holds (m : Manager A) (xs : List A) (begins : ℕ → ℕ) : Type 0 where
    pub represents : Represents m xs
    pub sorted : Sorted t xs
    pub searchable : (m.buckets ≡ []) ⊎ (0 < length xs)
    pub starts : (i : ℕ) → begins i < m.bucket_size

  -- The position is that of an element with the key, or behind the last one.
  abbrev pub Found : K → List A → Option ℕ → Type 0
  Found k xs o =
      ((pos : ℕ) × (x : A) × (o ≡ some pos) × (get_elem? xs pos ≡ some x) × Equivalent t k x)
      ⊎ ((o ≡ some (length xs)) × Absent t k xs)

  -- One element is erased, that with the key, or none.
  abbrev pub Erased : K → Manager A → List A → Option (ℕ × Manager A) → Type 0
  Erased k m xs o =
      ((pos : ℕ) × (x : A) × (q : Manager A) × (o ≡ some (1, q))
        × (get_elem? xs pos ≡ some x)
        × Equivalent t k x
        × Represents q (erase_at pos xs)
        × Sorted t (erase_at pos xs)
        × Absent t k (erase_at pos xs))
      ⊎ ((o ≡ some (0, m)) × Absent t k xs)

-- What a read gives at an element, and the test for the end.
module _ {A : Type 0} (m : Manager A) (xs : List A) (represents : Represents m xs) (r : ℕ)
    (h : r < length xs) where
  pub read_at : (x : A) → get_elem? xs r ≡ some x → at m r ≡ some x
  read_at x e = at-get_elem? m xs represents r h ∙ e

  pub not_end : (r == m.size) ≡ false
  not_end = ground (arith, represents.count)

-- What the bound of a key tells of the element at it.
module _ {K : Type 0} {A : Type 0} (t : TreeTraits K A) (lawful : Lawful t) (m : Manager A)
    (xs : List A) (begins : ℕ → ℕ) (holds : Holds t m xs begins) (k : K) where
  pub lower_bound_pos-IsBound :
      (r : ℕ) × (lower_bound_pos t begins k m ≡ some r) × IsBound (key_below t k) xs r
  lower_bound_pos-IsBound =
      tvector_lower_bound-Finds t lawful (key_below t k) m xs holds.represents
        (Sorted-below t lawful xs holds.sorted k) begins holds.starts holds.searchable

  -- At the bound there is no element, one with a greater key, or one with the key.
  pub data AtBound (r : ℕ) : Type 0 where
    at_end : r ≡ length xs → Absent t k xs → AtBound r
    at_greater :
        (x : A)
        → r < length xs
        → get_elem? xs r ≡ some x
        → t.less k (t.key x) ≡ true
        → Absent t k xs
        → AtBound r
    at_equivalent : (x : A) → r < length xs → get_elem? xs r ≡ some x → Equivalent t k x → AtBound r

  pub IsBound-AtBound : (r : ℕ) → IsBound (key_below t k) xs r → AtBound r
  IsBound-AtBound r w = elim (Bool-cases (ltb r (length xs))) [
    | inr over ↦ at_end (ground (arith, w.fits)) (
        IsBound-Absent t lawful xs holds.sorted k r w
          (λ x here. absurd (ground (arith, get_elem?-within xs r x here))))
    | inl inside ↦
        let e = get_elem?-lt xs r (ground arith) in
        elim (Bool-cases (t.less k (t.key e.0))) [
          | inl above ↦
              at_greater e.0 (ground arith) e.1 above
                (IsBound-Absent t lawful xs holds.sorted k r w (λ x here. let same = e.1 in cc))
          | inr other ↦
              at_equivalent e.0 (ground arith) e.1 (other, w.above r e.0 e.1 (omega arith))
        ]
  ]

  -- On a tree that represents a sorted list of different keys, with no bucket or with an element,
  -- and with lawful traits, `tvector_binary_search` gives the position of an element with the key,
  -- or the size, and then no element has the key.
  pub tvector_binary_search-Found : Found t k xs (tvector_binary_search t begins k m)
  unfolding tvector_binary_search above_key
  tvector_binary_search-Found =
      let b = lower_bound_pos-IsBound in
      let c = holds.represents in
      elim (IsBound-AtBound b.0 b.2) [
        | at_end e absent ↦
            let z : (b.0 == m.size) ≡ true = ground (arith, c.count) in
            inr (rw (tvector_binary_search, b.1, above_key, z) (ap some e), absent)
        | at_greater x h e above absent ↦ inr (
          rw
              (
                tvector_binary_search,
                b.1,
                above_key,
                not_end m xs c b.0 h,
                read_at m xs c b.0 h x e,
                above,
              )
              (ap some c.count),
          absent,
        )
        | at_equivalent x h e same ↦ inl (
          b.0,
          x,
          rw
              (
                tvector_binary_search,
                b.1,
                above_key,
                not_end m xs c b.0 h,
                read_at m xs c b.0 h x e,
                same.0,
              )
              refl,
          e,
          same,
        )
      ]

  -- On a tree that represents a sorted list of different keys, with no bucket or with an element,
  -- and with lawful traits, `erase_key` gives 1 and a tree that represents the list without an
  -- element that had the key, sorted and with no other element of that key, or gives 0 and the same
  -- tree, and then no element has the key.
  pub erase_key-Erased : Erased t k m xs (erase_key t begins k m)
  unfolding erase_key
  erase_key-Erased =
      let c = holds.represents in
      elim tvector_binary_search-Found [
        | inr none_there ↦
            let z : (length xs == m.size) ≡ true = ground (arith, c.count) in
            inr (rw (erase_key, none_there.0, z) refl, none_there.1)
        | inl there ↦
            let h = get_elem?-within xs there.0 there.1 there.3 in
            let q = erase-Makes t.deque lawful.valid m xs there.0 c h in
            inl (
              there.0,
              there.1,
              q.0,
              rw (erase_key, there.2, not_end m xs c there.0 h, q.1) refl,
              there.3,
              there.4,
              q.2,
              erase_at-Sorted t lawful xs there.0 holds.sorted,
              erase_at-Absent t lawful xs there.0 k there.1 holds.sorted there.3 there.4,
            )
      ]
