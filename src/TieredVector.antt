-- ===== src/TieredVector.antt =====
-- seq/tiered_vector.hpp: `tiered_vector` over its `BucketManager`: the size that the buckets should
-- have, the constructor of a manager with another bucket size, and the operations at one position.
-- `none` in the place of a manager is the null pointer; as a result, a read outside of a bucket or
-- through a null pointer.
pub mod BucketSize
pub mod ForEach
pub mod Fill
pub mod Rebuild
pub mod Operations
pub mod Sample
mod Tests
use Prim.Native.Nat.{bit_and}
use seq.Prelude.{
  ℕ, zero, suc, ◌+◌, ◌-◌, ◌*◌, ◌/◌, ◌%◌, ◌^◌, Option, none, some, ◌==◌, ltb, leb, Bool, true, false,
  not, ◌&&◌, ◌||◌, if◌then◌else◌, List, [], ◌∷◌, ◌>>=◌, map,
}
use seq.BucketManager.{Manager, new_manager, bucket_index, at, insert}
use seq.BucketManager
use seq.BucketManager.Erasure
use seq.TieredVector.ForEach.{Old, destroy_before, for_each_bucket}

-- The template arguments, the size of a value, and two functions of the compiler and of the C
-- library: the index of the highest bit that is set, and the square root rounded down.
pub record Config : Type 0 where
  pub min_block_size : ℕ
  pub max_block_size : ℕ
  pub value_size : ℕ
  pub bit_scan_reverse : ℕ → ℕ
  pub sqrt : ℕ → ℕ

-- The steps up to a size of 4096.
unfoldable pub small_bucket_size : ℕ → ℕ
small_bucket_size size =
    if ltb size 8
    then 2
    else if ltb size 32
    then 4
    else if ltb size 128
    then 8
    else if ltb size 512
    then 16
    else if ltb size 1024
    then 32
    else if ltb size 2048
    then 64
    else 128

-- The cast of 32 bits to `int`: what would be negative is below all bucket sizes, and is 0 here.
abbrev pub as_int : ℕ → ℕ
as_int x = if ltb x (2 ^ 31) then x else 0

-- `1U << bits` in 32 bits. A shift by 32 or more, which C++ does not define, gives 0 here.
unfoldable pub large_bucket_size : Config → ℕ → ℕ
large_bucket_size c size =
    let offset = if leb c.value_size 16 then 3 else if leb c.value_size 64 then 2 else 1 in
    as_int (2 ^ (c.bit_scan_reverse (c.sqrt size) + offset) % 2 ^ 32)

-- `std::max(low, std::min(high, res))`
unfoldable pub clamp : ℕ → ℕ → ℕ → ℕ
clamp low high res =
    let least = if ltb res high then res else high in if ltb low least then least else low

unfoldable pub find_bucket_size : Config → ℕ → ℕ
find_bucket_size c size =
    if ltb size c.min_block_size
    then c.min_block_size
    else clamp c.min_block_size c.max_block_size
        (if ltb size 4096 then small_bucket_size size else large_bucket_size c size)

-- The number of buckets that hold so many values.
unfoldable pub buckets_for : ℕ → ℕ → ℕ
buckets_for full_size n = full_size / n + (if full_size % n == 0 then 0 else 1)

-- The bucket size is checked below 64 values, and at the multiples of the square of the least one.
abbrev pub due : Config → ℕ → Bool
due c size =
    let mul_factor = if ltb c.min_block_size 8 then 8 else c.min_block_size in
    not (c.min_block_size == c.max_block_size)
    && (ltb size 64 || (bit_and size (mul_factor * mul_factor - 1) == 0))

module _ {A : Type 0} where
  -- `at` on `count` positions from `pos` on, for a single new bucket.
  unfoldable pub read_range : Manager A → ℕ → ℕ → Option (List A)
  read_range m pos zero = some []
  read_range m pos (suc count) = elim (at m pos) [
    | none ↦ none
    | some x ↦ elim (read_range m (pos + 1) count) [ none ↦ none | some xs ↦ some (x ∷ xs) ]
  ]

  -- The loop that fills one bucket after the other, on fuel, out of the old buckets that are left.
  -- Exceptions, and the destruction of old buckets behind the last value, are left out.
  unfoldable pub fill : ℕ → ℕ → ℕ → ℕ → Manager A → Old A → Option (List (List A) × Old A)
  fill zero n pos end_pos m old = if ltb pos end_pos then none else some ([], old)
  fill (suc fuel) n pos end_pos m old =
      let end = if ltb end_pos (pos + n) then end_pos else pos + n in
      if ltb pos end_pos
      then (do
        b ← for_each_bucket m pos end old
        rest ← fill fuel n (pos + (end - pos)) end_pos m b.1
        some (b.0 ∷ rest.0, rest.1))
      else some ([], old)

  abbrev pub rebuilt : Config → ℕ → ℕ → List (List A) → Manager A
  rebuilt c n full_size bs = record {
    buckets = bs;
    size = full_size;
    bucket_size = n;
    bucket_size1 = n - 1;
    bucket_size_bits = c.bit_scan_reverse n;
  }

  unfoldable pub rebuild_range : Config → ℕ → ℕ → ℕ → Manager A → Option (Manager A)
  rebuild_range c n start full_size m =
      let bucket_count = buckets_for full_size n in
      if bucket_count == 0
      then some (rebuilt c n 0 [])
      else if bucket_count == 1
      then elim (read_range m start full_size) [
        | none ↦ none
        | some b ↦ some (rebuilt c n full_size (b ∷ []))
      ]
      else (do
        slots ← destroy_before (bucket_index m start) (map some m.buckets)
        filled ←
            fill bucket_count n start (start + full_size) m
              (record { slots = slots; bindex = bucket_index m start })
        some (rebuilt c n full_size filled.0))

  -- The constructor that moves `size` values from `start` on out of another manager.
  unfoldable pub rebuild : Config → ℕ → ℕ → ℕ → Manager A → Option (Manager A)
  rebuild c n start size m = rebuild_range c n start (if ltb m.size size then m.size else size) m

  -- The size that is left out is the greatest number, so that all values are moved.
  unfoldable pub set_bucket_size : Config → ℕ → Manager A → Option (Manager A)
  set_bucket_size c n m = if not (n == m.bucket_size) then rebuild c n 0 m.size m else some m

  unfoldable pub check_bucket_size : Config → Manager A → Option (Manager A)
  check_bucket_size c m =
      if not (find_bucket_size c m.size == m.bucket_size)
      then set_bucket_size c (find_bucket_size c m.size) m
      else some m

  unfoldable pub update_bucket_size : Config → Manager A → Option (Manager A)
  update_bucket_size c m = if due c m.size then check_bucket_size c m else some m

  unfoldable pub make_manager_if_null : Config → Option (Manager A) → Manager A
  make_manager_if_null c none = new_manager c.min_block_size (c.bit_scan_reverse c.min_block_size)
  make_manager_if_null c (some m) = m

  unfoldable pub emplace : Config → ℕ → A → Option (Manager A) → Option (Manager A)
  emplace c pos v d = elim (update_bucket_size c (make_manager_if_null c d)) [
    | none ↦ none
    | some m ↦ insert pos v m
  ]

  unfoldable pub emplace_back : Config → A → Option (Manager A) → Option (Manager A)
  emplace_back c v d = elim (update_bucket_size c (make_manager_if_null c d)) [
    | none ↦ none
    | some m ↦ some (BucketManager.emplace_back v m)
  ]

  unfoldable pub emplace_front : Config → A → Option (Manager A) → Option (Manager A)
  emplace_front c v d = elim (update_bucket_size c (make_manager_if_null c d)) [
    | none ↦ none
    | some m ↦ some (BucketManager.emplace_front v m)
  ]

  -- The erasure alone does not look for a null pointer.
  unfoldable pub erase : Config → ℕ → Option (Manager A) → Option (Manager A)
  erase c pos d = elim d [
    | none ↦ none
    | some m ↦ elim (update_bucket_size c m) [ none ↦ none | some q ↦ Erasure.erase pos q ]
  ]

  unfoldable pub pop_back : Config → Option (Manager A) → Option (Manager A)
  pop_back c d = elim (update_bucket_size c (make_manager_if_null c d)) [
    | none ↦ none
    | some m ↦ Erasure.pop_back m
  ]

  unfoldable pub pop_front : Config → Option (Manager A) → Option (Manager A)
  pop_front c d = elim (update_bucket_size c (make_manager_if_null c d)) [
    | none ↦ none
    | some m ↦ Erasure.pop_front m
  ]
