-- ===== src/TieredVector/Tests.antt =====
-- seq/tiered_vector.hpp: runs of `tiered_vector` with buckets of two or four values.
use seq.Prelude.{ℕ, ◌≡◌, refl, arith, none, some, [], ◌∷◌}
use seq.BucketManager.{Manager, bucket_index, bucket_pos}
use seq.BucketManager.Locate.{Represents}
use seq.TieredVector.{
  small_bucket_size, large_bucket_size, clamp, find_bucket_size, rebuild, emplace,
}
use seq.TieredVector.ForEach.{for_each_bucket}
use seq.TieredVector.Sample.{small, small-IsValid, wide, evens, pairs, pairs-Represents}
use seq.TieredVector.BucketSize.Near.{Near}
use seq.TieredVector.Rebuild.{rebuild-Represents}
use seq.TieredVector.Operations.{Makes, emplace-Makes}

-- For 5000 values of 8 bytes: 8 times the highest power of two up to the root, which is 70.
size_run : find_bucket_size wide 5000 ≡ 512
unfolding find_bucket_size small_bucket_size large_bucket_size clamp seq.TieredVector.Sample.log2
    seq.TieredVector.Sample.root
size_run = refl

-- Four of the values, out of two of the old buckets.
rebuild-Represents_example :
    (r : Manager ℕ) × (rebuild small 2 1 4 pairs ≡ some r)
    × Represents r (6 ∷ 8 ∷ 10 ∷ 12 ∷ [])
    × (r.bucket_size ≡ 2)
rebuild-Represents_example =
    rebuild-Represents small small-IsValid pairs evens pairs-Represents 2 1 4 (1, refl)
      (omega arith)

-- The old buckets that are left when the values from the second one on have been moved.
for_each_bucket_run :
    for_each_bucket pairs 1 4
      (record { slots = none ∷ some (6 ∷ 8 ∷ []) ∷ some (10 ∷ 12 ∷ []) ∷ []; bindex = 1 })
    ≡ some (6 ∷ 8 ∷ 10 ∷ [], record { slots = none ∷ none ∷ some (10 ∷ 12 ∷ []) ∷ []; bindex = 2 })
unfolding for_each_bucket bucket_index bucket_pos
for_each_bucket_run = refl

emplace-Makes_example : Makes (emplace small 2 7 (some pairs)) (4 ∷ 6 ∷ 7 ∷ 8 ∷ 10 ∷ 12 ∷ [])
emplace-Makes_example =
    emplace-Makes small small-IsValid (some pairs) evens pairs-Represents 2 7 (omega arith)
