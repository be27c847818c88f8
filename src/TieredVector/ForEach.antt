-- ===== src/TieredVector/ForEach.antt =====
-- seq/tiered_vector.hpp: `for_each_bucket` as the constructor of a manager with another bucket size
-- calls it on the old manager: it moves the values out of the old buckets, which are destroyed one
-- after the other on the way. A ring of a bucket is the list of its values.
pub mod Parts
pub mod Visited
pub mod Taken
use seq.Prelude.{
  ℕ, zero, suc, ◌+◌, ◌-◌, Option, none, some, ◌>>=◌, ◌==◌, ltb, if◌then◌else◌, List, [], ◌∷◌, ◌++◌,
  length, map, get_elem?,
}
use seq.BucketManager.{Manager, bucket_index, bucket_pos}

-- The old manager on the way: its buckets, `none` for one that is destroyed, and the one that the
-- values come from.
pub record Old (A : Type 0) : Type 0 where
  pub slots : List (Option (List A))
  pub bindex : ℕ

-- `std::min(remaining, size - pos)`, where the difference wraps around below 0.
abbrev pub to_copy : ℕ → ℕ → ℕ → ℕ
to_copy remaining size pos =
    if ltb size pos then remaining else if ltb (size - pos) remaining then size - pos else remaining

module _ {A : Type 0} where
  -- The bucket with an index, if it is there.
  abbrev pub bucket_at : ℕ → List (Option (List A)) → Option (List A)
  bucket_at index [] = none
  bucket_at zero (o ∷ slots) = o
  bucket_at (suc index) (o ∷ slots) = bucket_at index slots

  -- `destroy_bucket`, which leaves a null pointer alone, and the null pointer in its place.
  abbrev pub destroy_bucket : ℕ → List (Option (List A)) → Option (List (Option (List A)))
  destroy_bucket index [] = none
  destroy_bucket zero (o ∷ slots) = some (none ∷ slots)
  destroy_bucket (suc index) (o ∷ slots) = do rest ← destroy_bucket index slots; some (o ∷ rest)

  -- The loop that destroys the buckets before the first one that is read.
  abbrev pub destroy_before : ℕ → List (Option (List A)) → Option (List (Option (List A)))
  destroy_before zero slots = some slots
  destroy_before (suc n) [] = none
  destroy_before (suc n) (o ∷ slots) = do rest ← destroy_before n slots; some (none ∷ rest)

  -- What is done with a value of the bucket `index`, after it has been moved.
  abbrev pub moved : ℕ → Old A → Option (Old A)
  moved index old = if index == old.bindex then some old else (do
    slots ← destroy_bucket old.bindex old.slots
    some (record { slots = slots; bindex = index }))

  -- `count` values of the bucket `index`, from `pos` on.
  abbrev pub visit : ℕ → ℕ → ℕ → Old A → Option (List A × Old A)
  visit index pos zero old = some ([], old)
  visit index pos (suc count) old = do
    b ← bucket_at index old.slots
    x ← get_elem? b pos
    next ← moved index old
    rest ← visit index (pos + 1) count next
    some (x ∷ rest.0, rest.1)

  -- The loop over the buckets, on fuel.
  abbrev pub visit_buckets : ℕ → ℕ → ℕ → ℕ → Old A → Option (List A × Old A)
  visit_buckets fuel zero bindex pos old = some ([], old)
  visit_buckets zero (suc r) bindex pos old = none
  visit_buckets (suc fuel) (suc r) bindex pos old = do
    cur ← bucket_at bindex old.slots
    read ← visit bindex pos (to_copy (suc r) (length cur) pos) old
    rest ← visit_buckets fuel (suc r - to_copy (suc r) (length cur) pos) (bindex + 1) 0 read.1
    some (read.0 ++ rest.0, rest.1)

  -- The values of the manager `m` from `start` to `end`, which may be read where they still are; `bucket_index` and `bucket_pos` are given
  -- the size that the front bucket of `m` had. There is fuel for every bucket once.
  unfoldable pub for_each_bucket : Manager A → ℕ → ℕ → Old A → Option (List A × Old A)
  for_each_bucket m start end old =
      visit_buckets (length m.buckets) (end - start) (bucket_index m start) (bucket_pos m start) old
