-- ===== src/BucketManager/Tests.antt =====
-- seq/tiered_vector.hpp: runs of `BucketManager` on buckets of two elements.
use seq.Prelude.{ℕ, ◌≡◌, refl, some, [], ◌∷◌, arith}
use seq.BucketManager.{Manager, at, insert}
use seq.BucketManager.Locate.{Represents, at-get_elem?}
use seq.BucketManager.Anywhere.{insert-Represents}
use seq.BucketManager.Erasure.{erase}
use seq.BucketManager.Erasure.Removal.{erase-Represents}

-- A full bucket between two others.
abbrev three : Manager ℕ
three = record {
  buckets = (5 ∷ []) ∷ (6 ∷ 7 ∷ []) ∷ (8 ∷ 9 ∷ []) ∷ [];
  size = 5;
  bucket_size = 2;
  bucket_size1 = 1;
  bucket_size_bits = 1;
}

three-Represents : Represents three (5 ∷ 6 ∷ 7 ∷ 8 ∷ 9 ∷ [])
three-Represents = record {
  power = refl;
  mask = refl;
  spine = (omega arith, omega arith, (refl, (omega arith, omega arith)));
  elements = refl;
  count = refl;
}

at-get_elem?_example : at three 3 ≡ some 8
at-get_elem?_example = at-get_elem? three (5 ∷ 6 ∷ 7 ∷ 8 ∷ 9 ∷ []) three-Represents 3 (omega arith)

-- The full bucket hands an element on, and so does the last.
insert-Represents_example :
    (r : Manager ℕ) × (insert 2 4 three ≡ some r) × Represents r (5 ∷ 6 ∷ 4 ∷ 7 ∷ 8 ∷ 9 ∷ [])
insert-Represents_example =
    insert-Represents three (5 ∷ 6 ∷ 7 ∷ 8 ∷ 9 ∷ []) three-Represents 2 4 (omega arith)

-- The last bucket gives an element to the full one.
erase-Represents_example :
    (r : Manager ℕ) × (erase 2 three ≡ some r) × Represents r (5 ∷ 6 ∷ 8 ∷ 9 ∷ [])
erase-Represents_example =
    erase-Represents three (5 ∷ 6 ∷ 7 ∷ 8 ∷ 9 ∷ []) three-Represents (omega arith) 2 (omega arith)
