-- ===== src/FlatMap/Multi/Tests.antt =====
-- seq/flat_map.hpp: runs on a multiset of numbers in three buckets.
use mathlib.Core.Option.{some-injective}
use seq.Prelude.{
  ℕ, zero, suc, ◌-◌, ◌/◌, ◌≡◌, refl, inr, true, some, List, [], ◌∷◌, get_elem?, arith, ltb, ◌==◌,
  if◌then◌else◌,
}
use seq.BucketManager.{Manager}
use seq.BucketManager.Locate.{Represents}
use seq.BucketManager.Bucket.{emplace_at}
use seq.BinarySearch.Halving.{lower_bound-Finds}
use seq.TieredVector.Sample.{small, small-IsValid, pairs}
use seq.FlatMap.Comparison.{TreeTraits, Lawful, halving_traits}
use seq.FlatMap.Multi.{emplace_pos_multi, equal_range_multi, count_multi}
use seq.FlatMap.Multi.Ascending.{Ascending, HoldsMulti, Block}
use seq.FlatMap.Multi.Bounds.{equal_range_multi-Block, emplace_pos_multi-Ascending}

-- Numbers are compared by their tens.
abbrev tens : TreeTraits ℕ ℕ
tens = halving_traits small ltb (λ x. x / 10)

tens-Lawful : Lawful tens
tens-Lawful = record {
  asymmetric = λ a b h. ground arith;
  cotransitive = λ a b c h k. ground arith;
  finds = λ le xs part. lower_bound-Finds le xs part;
  valid = small-IsValid;
}

abbrev values : List ℕ
values = 11 ∷ 24 ∷ 22 ∷ 23 ∷ 30 ∷ []

abbrev multi : Manager ℕ
multi = record pairs { buckets = (11 ∷ []) ∷ (24 ∷ 22 ∷ []) ∷ (23 ∷ 30 ∷ []) ∷ [] }

-- The tens of the elements.
tens_at :
    (i x : ℕ)
    → get_elem? values i ≡ some x
    → x / 10 ≡ (if i == 0 then 1 else if i == 4 then 3 else 2)
tens_at zero x at = let e = some-injective 11 x at in omega (arith, e)
tens_at (suc zero) x at = let e = some-injective 24 x at in omega (arith, e)
tens_at (suc (suc zero)) x at = let e = some-injective 22 x at in omega (arith, e)
tens_at (suc (suc (suc zero))) x at = let e = some-injective 23 x at in omega (arith, e)
tens_at (suc (suc (suc (suc zero)))) x at = let e = some-injective 30 x at in omega (arith, e)
tens_at (suc (suc (suc (suc (suc i))))) x at = absurd cc

multi-HoldsMulti : HoldsMulti tens multi values (λ i. 1)
multi-HoldsMulti = record {
  represents = record {
    power = refl;
    mask = refl;
    spine = (omega arith, omega arith, (refl, (omega arith, omega arith)));
    elements = refl;
    count = refl;
  };
  ascending = λ i j x y ai aj lt. ground (arith, tens_at i x ai, tens_at j y aj);
  searchable = inr (omega arith);
  starts = λ i. omega arith;
}

equal_range_multi-Block_example :
    (low : ℕ) × (up : ℕ) × (equal_range_multi tens (λ i. 1) 2 multi ≡ some (low, up))
    × (count_multi tens (λ i. 1) 2 multi ≡ some (up - low))
    × Block tens 2 values low up
equal_range_multi-Block_example =
    equal_range_multi-Block tens tens-Lawful multi values (λ i. 1) multi-HoldsMulti 2

emplace_pos_multi-Ascending_example :
    (pos : ℕ) × (q : Manager ℕ) × (emplace_pos_multi tens (λ i. 1) 25 multi ≡ some (pos, true, q))
    × Represents q (emplace_at pos 25 values)
    × Ascending tens (emplace_at pos 25 values)
    × ((low : ℕ) × Block tens 2 values low pos)
emplace_pos_multi-Ascending_example =
    emplace_pos_multi-Ascending tens tens-Lawful multi values (λ i. 1) multi-HoldsMulti 25
