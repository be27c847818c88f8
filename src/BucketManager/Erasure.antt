-- ===== src/BucketManager/Erasure.antt =====
-- seq/tiered_vector.hpp: the removals of `BucketManager`.
pub mod Shrink
pub mod Parts
pub mod Effect
pub mod Outer
pub mod Removal
pub mod RoundTrip
use seq.Prelude.{
  ℕ, zero, suc, ◌+◌, ◌-◌, ◌/◌, Option, none, some, ◌==◌, ltb, ◌||◌, if◌then◌else◌, List, [], ◌∷◌,
  ◌++◌, length, unsnoc, focus,
}
use seq.BucketManager.{Manager, bucket_index, bucket_pos, propagate_right}
use seq.BucketManager.Bucket.{erase_at}

module _ {A : Type 0} where
  -- `if (size == 0 && d_buckets.size() > 1) remove_front_bucket();`, and the same at the back.
  abbrev pub trim_front : List A → List (List A) → List (List A)
  trim_front b [] = b ∷ []
  trim_front b (c ∷ bs) = if length b == 0 then c ∷ bs else b ∷ c ∷ bs

  abbrev pub trim_back : List (List A) → List A → List (List A)
  trim_back [] b = b ∷ []
  trim_back (c ∷ bs) b = if length b == 0 then c ∷ bs else (c ∷ bs) ++ b ∷ []

  unfoldable pub pop_back : Manager A → Option (Manager A)
  pop_back m = elim (unsnoc m.buckets) [
    | none ↦ none
    | some r ↦ elim (unsnoc r.1) [
      | none ↦ none
      | some q ↦ some (record m { buckets = trim_back r.0 q.0; size = m.size - 1 })
    ]
  ]

  unfoldable pub pop_front : Manager A → Option (Manager A)
  pop_front m = elim m.buckets [
    | [] ↦ none
    | b ∷ bs ↦ elim b [
      | [] ↦ none
      | x ∷ xs ↦ some (record m { buckets = trim_front xs bs; size = m.size - 1 })
    ]
  ]

  -- Each bucket takes the front value of the next one; the last one only loses its own.
  unfoldable pub pull : List A → List (List A) → Option (List (List A))
  pull b [] = some (if length b == 0 then [] else b ∷ [])
  pull b ([] ∷ rest) = none
  pull b ((c ∷ cs) ∷ rest) = elim (pull cs rest) [ none ↦ none | some r ↦ some ((b ++ c ∷ []) ∷ r) ]

  unfoldable pub erase_left : ℕ → ℕ → List (List A) → Option (List (List A))
  erase_left bucket_index index bs = elim (focus bucket_index bs) [
    | none ↦ none
    | some r ↦ elim r.0 [
      | [] ↦ none
      | first ∷ middle ↦ elim (unsnoc first) [
        | none ↦ none
        | some u ↦ elim (propagate_right middle u.1) [
          | none ↦ none
          | some q ↦ some (trim_front u.0 (q.0 ++ (q.1 ∷ erase_at index r.1) ∷ r.2))
        ]
      ]
    ]
  ]

  unfoldable pub erase_right : ℕ → ℕ → List (List A) → Option (List (List A))
  erase_right bucket_index index bs = elim (focus bucket_index bs) [
    | none ↦ none
    | some r ↦ elim r.2 [
      | [] ↦ none
      | c ∷ cs ↦ elim (pull (erase_at index r.1) (c ∷ cs)) [
        | none ↦ none
        | some q ↦ some (r.0 ++ q)
      ]
    ]
  ]

  abbrev pub erase_first : ℕ → List (List A) → Option (List (List A))
  erase_first index [] = none
  erase_first index (b ∷ bs) =
      let kept = erase_at index b in some (if length kept == 0 then bs else kept ∷ bs)

  abbrev pub erase_last : ℕ → List (List A) → Option (List (List A))
  erase_last index bs = elim (unsnoc bs) [
    | none ↦ none
    | some r ↦ some (trim_back r.0 (erase_at index r.1))
  ]

  -- The buckets after a removal that is not at an end.
  unfoldable pub erase_middle : ℕ → Manager A → Option (List (List A))
  erase_middle pos m =
      let i = bucket_index m pos in
      let index = bucket_pos m pos in
      if i == 0
      then erase_first index m.buckets
      else (if i == length m.buckets - 1
          then erase_last index m.buckets
          else (if ltb pos (m.size / 2)
              then erase_left i index m.buckets
              else erase_right i index m.buckets))

  unfoldable pub erase : ℕ → Manager A → Option (Manager A)
  erase pos m =
      if pos == 0
      then pop_front m
      else (if pos == m.size - 1 then pop_back m else elim (erase_middle pos m) [
        | none ↦ none
        | some bs ↦ some (record m { buckets = bs; size = m.size - 1 })
      ])
