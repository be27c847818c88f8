-- ===== src/FlatMap/Tests.antt =====
-- seq/flat_map.hpp: runs on a set of even numbers in three buckets, and in one.
use mathlib.Core.Option.{some-injective}
use seq.Prelude.{
  ℕ, zero, suc, ◌+◌, ◌<◌, ◌≡◌, inl, inr, true, Bool-cases, some, List, [], ◌∷◌, get_elem?, arith,
  ltb, lt→ltb, ◌==◌, if◌then◌else◌,
}
use seq.BinarySearch.Bound.{Finds}
use seq.BucketManager.{Manager}
use seq.BucketManager.Locate.{Represents}
use seq.TieredVector.Sample.{small, small-IsValid, evens, pairs, pairs-Represents}
use seq.BinarySearch.Halving.{lower_bound-Finds}
use seq.BinarySearch.Probing.{lower_bound_arithmetic-Finds}
use seq.FlatMap.{
  key_below, tvector_lower_bound, tvector_binary_search, emplace_pos, emplace_pos_hint, erase_key,
}
use seq.FlatMap.Comparison.{TreeTraits, Lawful, halving_traits, probing_traits}
use seq.FlatMap.Order.{Sorted, Absent, Sorted-below}
use seq.FlatMap.Search.{tvector_lower_bound-Finds}
use seq.FlatMap.Find.{Holds, Found, Erased, tvector_binary_search-Found, erase_key-Erased}
use seq.FlatMap.Emplace.{Emplaced, emplace_pos-Emplaced, emplace_pos_hint-emplace_pos}
use seq.FlatMap.Range.{Range, equal_range_pos-Range}
use seq.FlatMap.RoundTrip.{erase_key-emplace_pos}

-- A set of numbers, with the linear probing at the end of a search, or without.
abbrev numbers : TreeTraits ℕ ℕ
numbers = halving_traits small ltb (λ x. x)

abbrev probed : TreeTraits ℕ ℕ
probed = probing_traits small 1 ltb (λ x. x)

numbers-Lawful : Lawful numbers
numbers-Lawful = record {
  asymmetric = λ a b h. ground arith;
  cotransitive = λ a b c h k. ground arith;
  finds = λ le xs part. lower_bound-Finds le xs part;
  valid = small-IsValid;
}

probed-Lawful : Lawful probed
probed-Lawful = record {
  asymmetric = λ a b h. ground arith;
  cotransitive = λ a b c h k. ground arith;
  finds = λ le xs part. lower_bound_arithmetic-Finds le xs part 1 (omega arith);
  valid = small-IsValid;
}

-- The ring of the second bucket starts in its middle.
abbrev begins : ℕ → ℕ
begins i = if i == 1 then 1 else 0

begins-lt : (i : ℕ) → begins i < 2
begins-lt i = ground arith

-- Even numbers from one of them on.
abbrev stepping : ℕ → ℕ → List ℕ
stepping a zero = []
stepping a (suc n) = a ∷ stepping (a + 2) n

stepping-elem : (a n i x : ℕ) → get_elem? (stepping a n) i ≡ some x → x ≡ a + i + i
stepping-elem a zero i x at = absurd cc
stepping-elem a (suc n) zero x at = omega (arith, some-injective a x at)
stepping-elem a (suc n) (suc i) x at = omega (arith, stepping-elem (a + 2) n i x at)

stepping-Sorted :
    (t : TreeTraits ℕ ℕ) (a n : ℕ)
    → ((x y : ℕ) → ltb x y ≡ true → t.less (t.key x) (t.key y) ≡ true)
    → Sorted t (stepping a n)
stepping-Sorted t a n less i j x y ai aj h =
    less x y (lt→ltb x y (omega (arith, stepping-elem a n i x ai, stepping-elem a n j y aj)))

pairs-Holds : Holds numbers pairs evens begins
pairs-Holds = record {
  represents = pairs-Represents;
  sorted = stepping-Sorted numbers 4 5 (λ x y h. h);
  searchable = inr (omega arith);
  starts = begins-lt;
}

probed-Holds : Holds probed pairs evens begins
probed-Holds = record {
  represents = pairs-Represents;
  sorted = stepping-Sorted probed 4 5 (λ x y h. h);
  searchable = inr (omega arith);
  starts = begins-lt;
}

odd-Absent : Absent numbers 7 evens
odd-Absent i x at =
    let e = stepping-elem 4 5 i x at in
    elim (Bool-cases (ltb x 7)) [ inl below ↦ inl below | inr other ↦ inr (ground (arith, e)) ]

tvector_lower_bound-Finds_example :
    Finds
      (key_below numbers 7)
      evens
      (tvector_lower_bound numbers begins (key_below numbers 7) pairs)
tvector_lower_bound-Finds_example =
    tvector_lower_bound-Finds numbers numbers-Lawful (key_below numbers 7) pairs evens
      pairs-Represents
      (Sorted-below numbers numbers-Lawful evens (stepping-Sorted numbers 4 5 (λ x y h. h)) 7)
      begins begins-lt (inr (omega arith))

emplace_pos-Emplaced_example : Emplaced numbers 7 pairs evens (emplace_pos numbers begins 7 pairs)
emplace_pos-Emplaced_example =
    emplace_pos-Emplaced numbers numbers-Lawful pairs evens begins pairs-Holds 7

emplace_pos_hint-emplace_pos_example :
    emplace_pos_hint numbers begins 2 7 pairs ≡ emplace_pos numbers begins 7 pairs
emplace_pos_hint-emplace_pos_example =
    emplace_pos_hint-emplace_pos numbers numbers-Lawful pairs evens begins pairs-Holds 7 2
      (omega arith)

tvector_binary_search-Found_example :
    Found probed 8 evens (tvector_binary_search probed begins 8 pairs)
tvector_binary_search-Found_example =
    tvector_binary_search-Found probed probed-Lawful pairs evens begins probed-Holds 8

erase_key-Erased_example : Erased numbers 8 pairs evens (erase_key numbers begins 8 pairs)
erase_key-Erased_example = erase_key-Erased numbers numbers-Lawful pairs evens begins pairs-Holds 8

equal_range_pos-Range_example : Range numbers begins 7 pairs evens
equal_range_pos-Range_example =
    equal_range_pos-Range numbers numbers-Lawful pairs evens begins pairs-Holds 7

erase_key-emplace_pos_example :
    (pos : ℕ) × (q : Manager ℕ) × (r : Manager ℕ) × (emplace_pos numbers begins 7 pairs
      ≡ some (pos, true, q))
    × (erase_key numbers (λ i. 0) 7 q ≡ some (1, r))
    × Represents r evens
erase_key-emplace_pos_example =
    erase_key-emplace_pos numbers numbers-Lawful pairs evens begins 7 (λ q i. 0) pairs-Holds
      odd-Absent (λ q i h. h)
