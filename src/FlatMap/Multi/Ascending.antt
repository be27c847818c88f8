-- ===== src/FlatMap/Multi/Ascending.antt =====
-- Ascending lists, in which elements with the same key stand side by side.
use mathlib.Core.Option.{some-injective}
use seq.Prelude.{
  ℕ, ◌≤◌, ◌<◌, ◌≡◌, refl, ap, sym, ◌∙◌, ◌⊎◌, inl, inr, Bool, true, false, not, Bool-cases, some,
  List, [], length, get_elem?, get_elem?-lt, arith, ltb,
}
use seq.BinarySearch.Bound.{Partitioned, IsBound}
use seq.BucketManager.{Manager}
use seq.BucketManager.Locate.{Represents}
use seq.FlatMap.{key_below, key_not_above}
use seq.FlatMap.Comparison.{TreeTraits, Lawful}
use seq.FlatMap.Order.{Equivalent}
use seq.FlatMap.Positions.{Ordered}

pub not-true : (b : Bool) → not b ≡ true → b ≡ false
not-true true e = cc
not-true false e = refl

pub not-false : (b : Bool) → not b ≡ false → b ≡ true
not-false true e = refl
not-false false e = cc

module _ {K : Type 0} {A : Type 0} (t : TreeTraits K A) where
  -- No element has a smaller key than an element before it.
  abbrev pub Ascending : List A → Type 0
  Ascending xs = Ordered (λ x y. t.less (t.key y) (t.key x) ≡ false) xs

  pub record HoldsMulti (m : Manager A) (xs : List A) (begins : ℕ → ℕ) : Type 0 where
    pub represents : Represents m xs
    pub ascending : Ascending xs
    pub searchable : (m.buckets ≡ []) ⊎ (0 < length xs)
    pub starts : (i : ℕ) → begins i < m.bucket_size

  -- The positions before `low` have smaller keys, those up to `up` the key, the others greater ones.
  pub record Block (k : K) (xs : List A) (low up : ℕ) : Type 0 where
    pub order : low ≤ up
    pub fits : up ≤ length xs
    pub smaller : (i : ℕ) (x : A) → get_elem? xs i ≡ some x → i < low → t.less (t.key x) k ≡ true
    pub same : (i : ℕ) (x : A) → get_elem? xs i ≡ some x → low ≤ i → i < up → Equivalent t k x
    pub greater : (i : ℕ) (x : A) → get_elem? xs i ≡ some x → up ≤ i → t.less k (t.key x) ≡ true

module _ {K : Type 0} {A : Type 0} (t : TreeTraits K A) (lawful : Lawful t) (xs : List A)
    (ascending : Ascending t xs) (k : K) where
  pub Ascending-below : Partitioned (key_below t k) xs
  Ascending-below i j x y ai aj h below = elim (Bool-cases (ltb i j)) [
    | inl lt ↦
        lawful.cotransitive (t.key y) k (t.key x) below (ascending i j x y ai aj (ground arith))
    | inr ge ↦
        let e : i ≡ j = ground arith in
        ap (key_below t k) (some-injective x y (sym ai ∙ ap (get_elem? xs) e ∙ aj)) ∙ below
  ]

  pub Ascending-not_above : Partitioned (key_not_above t k) xs
  Ascending-not_above i j x y ai aj h fits = elim (Bool-cases (ltb i j)) [
    | inl lt ↦ elim (Bool-cases (t.less k (t.key x))) [
      | inl above ↦
          let back =
            lawful.cotransitive k (t.key x) (t.key y) above (not-true (t.less k (t.key y)) fits) in
          let no = ascending i j x y ai aj (ground arith) in absurd cc
      | inr other ↦ ap not other
    ]
    | inr ge ↦
        let e : i ≡ j = ground arith in
        ap (key_not_above t k) (some-injective x y (sym ai ∙ ap (get_elem? xs) e ∙ aj)) ∙ fits
  ]

  pub IsBound-Block :
      (low up : ℕ)
      → IsBound (key_below t k) xs low
      → IsBound (key_not_above t k) xs up
      → Block t k xs low up
  IsBound-Block low up v w = record {
    order = elim (Bool-cases (ltb up low)) [ inl lt ↦ crossed lt | inr le ↦ ground arith ];
    fits = w.fits;
    smaller = λ i x at h. v.below i x at h;
    same = λ i x at h l. (not-true (t.less k (t.key x)) (w.below i x at l), v.above i x at h);
    greater = λ i x at h. not-false (t.less k (t.key x)) (w.above i x at h);
  }
    where
      crossed : ltb up low ≡ true → low ≤ up
      crossed lt =
          let at = get_elem?-lt xs up (ground (arith, v.fits)) in
          let below = v.below up at.0 at.1 (ground arith) in
          let above = not-false (t.less k (t.key at.0)) (w.above up at.0 at.1 (omega arith)) in
          let no = lawful.asymmetric k (t.key at.0) above in absurd cc
