-- ===== src/BucketManager.antt =====
-- seq/tiered_vector.hpp: `BucketManager`, on buckets that are each the list of what they contain.
-- This file has the state, the search for a position and the insertions.
pub mod Bucket
pub mod Spine
pub mod Locate
pub mod Propagate
pub mod Insertion
pub mod Ends
pub mod Anywhere
pub mod Erasure
pub mod Bounds
mod Tests
use Prim.Native.Nat.{bit_and}
use seq.Prelude.{
  ℕ, zero, suc, ◌+◌, ◌-◌, ◌/◌, ◌^◌, Option, none, some, ◌==◌, ltb, ◌||◌, if◌then◌else◌, List, [],
  ◌∷◌, ◌++◌, length, unsnoc, focus, get_elem?,
}
use seq.BucketManager.Bucket.{
  emplace_at, insert_pop_back, insert_pop_front, push_front_pop_back, push_back_pop_front,
}

-- The state of a manager.
pub record Manager (A : Type 0) : Type 0 where
  pub buckets : List (List A)
  pub size : ℕ
  pub bucket_size : ℕ
  pub bucket_size1 : ℕ
  pub bucket_size_bits : ℕ

-- The constructor from a bucket size, of which `bits` is the logarithm.
abbrev pub new_manager : {A : Type 0} → ℕ → ℕ → Manager A
new_manager bucket_size bits = record {
  buckets = [];
  size = 0;
  bucket_size = bucket_size;
  bucket_size1 = bucket_size - 1;
  bucket_size_bits = bits;
}

module _ {A : Type 0} where
  -- `d_buckets.front()->size`
  abbrev pub front_size : List (List A) → ℕ
  front_size [] = 0
  front_size (b ∷ bs) = length b

  unfoldable pub bucket_index : Manager A → ℕ → ℕ
  bucket_index m pos = (pos + (m.bucket_size - front_size m.buckets)) / 2 ^ m.bucket_size_bits

  unfoldable pub bucket_pos : Manager A → ℕ → ℕ
  bucket_pos m pos =
      bit_and (pos - (if ltb pos (front_size m.buckets) then 0 else front_size m.buckets))
        m.bucket_size1

  -- Nothing is read where there is no bucket, or no element in it.
  unfoldable pub at : Manager A → ℕ → Option A
  at m pos = elim (focus (bucket_index m pos) m.buckets) [
    | none ↦ none
    | some r ↦ get_elem? r.1 (bucket_pos m pos)
  ]

  unfoldable pub emplace_back : A → Manager A → Manager A
  emplace_back v m = elim (unsnoc m.buckets) [
    | none ↦ record m { buckets = (v ∷ []) ∷ []; size = m.size + 1 }
    | some r ↦ record m {
      buckets =
          if length r.1 == m.bucket_size
          then m.buckets ++ (v ∷ []) ∷ []
          else r.0 ++ (r.1 ++ v ∷ []) ∷ [];
      size = m.size + 1;
    }
  ]

  unfoldable pub emplace_front : A → Manager A → Manager A
  emplace_front v m = elim m.buckets [
    | [] ↦ record m { buckets = (v ∷ []) ∷ []; size = m.size + 1 }
    | b ∷ bs ↦ record m {
      buckets = if length b == m.bucket_size then (v ∷ []) ∷ b ∷ bs else (v ∷ b) ∷ bs;
      size = m.size + 1;
    }
  ]

  -- `while (--bindex > 0) bucket(bindex)->push_back_pop_front(tmp);` over the buckets between the
  -- first one and where the value `tmp` comes from.
  unfoldable pub propagate_left : List (List A) → A → Option (List (List A) × A)
  propagate_left [] tmp = some ([], tmp)
  propagate_left (b ∷ bs) tmp = elim (propagate_left bs tmp) [
    | none ↦ none
    | some r ↦ elim (push_back_pop_front r.1 b) [ none ↦ none | some q ↦ some (q.1 ∷ r.0, q.0) ]
  ]

  -- `while (++bindex < d_buckets.size() - 1) bucket(bindex)->push_front_pop_back(tmp);`
  unfoldable pub propagate_right : List (List A) → A → Option (List (List A) × A)
  propagate_right [] tmp = some ([], tmp)
  propagate_right (b ∷ bs) tmp = elim (push_front_pop_back tmp b) [
    | none ↦ none
    | some q ↦ elim (propagate_right bs q.0) [ none ↦ none | some r ↦ some (q.1 ∷ r.0, r.1) ]
  ]

  unfoldable pub insert_one_bucket : ℕ → ℕ → A → List A → Option (List (List A))
  insert_one_bucket n index v b =
      if length b == n
      then elim (insert_pop_back index v b) [ none ↦ none | some q ↦ some (q.1 ∷ (q.0 ∷ []) ∷ []) ]
      else some (emplace_at index v b ∷ [])

  -- The end of `insert_left`: `tmp` goes to the back of the first bucket.
  abbrev pub settle_first : ℕ → List A → A → List (List A) → Option (List (List A))
  settle_first n first tmp rest =
      if length first == n
      then elim (push_back_pop_front tmp first) [
        | none ↦ none
        | some q ↦ some ((q.0 ∷ []) ∷ q.1 ∷ rest)
      ]
      else some ((first ++ tmp ∷ []) ∷ rest)

  -- `insert_left` at an index that is not 0, in the bucket between `before` and `behind`.
  unfoldable pub insert_left_in :
      ℕ → ℕ → A → List (List A) → List A → List (List A) → Option (List (List A))
  insert_left_in n index v before b behind =
      if ltb (length b) n
      then some (before ++ emplace_at index v b ∷ behind)
      else elim (insert_pop_front index v b) [
        | none ↦ none
        | some q ↦ elim before [
          | [] ↦ some ((q.0 ∷ []) ∷ q.1 ∷ behind)
          | first ∷ middle ↦ elim (propagate_left middle q.0) [
            | none ↦ none
            | some r ↦ settle_first n first r.1 (r.0 ++ q.1 ∷ behind)
          ]
        ]
      ]

  unfoldable pub insert_left : ℕ → ℕ → ℕ → A → List (List A) → Option (List (List A))
  insert_left n bucket_index index v bs =
      elim (focus (if index == 0 then bucket_index - 1 else bucket_index) bs) [
        | none ↦ none
        | some r ↦ insert_left_in n (if index == 0 then length r.1 else index) v r.0 r.1 r.2
      ]

  -- The end of `insert_right`: `tmp` goes to the front of the last bucket.
  abbrev pub settle_last : ℕ → A → List A → Option (List (List A))
  settle_last n tmp last =
      if length last == n
      then elim (push_front_pop_back tmp last) [
        | none ↦ none
        | some q ↦ some (q.1 ∷ (q.0 ∷ []) ∷ [])
      ]
      else some ((tmp ∷ last) ∷ [])

  unfoldable pub insert_right_in :
      ℕ → ℕ → A → List (List A) → List A → List (List A) → Option (List (List A))
  insert_right_in n index v before b behind =
      if ltb (length b) n
      then some (before ++ emplace_at index v b ∷ behind)
      else elim (insert_pop_back index v b) [
        | none ↦ none
        | some q ↦ elim (unsnoc behind) [
          | none ↦ some (before ++ q.1 ∷ (q.0 ∷ []) ∷ [])
          | some u ↦ elim (propagate_right u.0 q.0) [
            | none ↦ none
            | some r ↦ elim (settle_last n r.1 u.1) [
              | none ↦ none
              | some ls ↦ some (before ++ q.1 ∷ (r.0 ++ ls))
            ]
          ]
        ]
      ]

  unfoldable pub insert_right : ℕ → ℕ → ℕ → A → List (List A) → Option (List (List A))
  insert_right n bucket_index index v bs = elim (focus bucket_index bs) [
    | none ↦ none
    | some r ↦ insert_right_in n index v r.0 r.1 r.2
  ]

  -- The buckets after an insertion that is not at an end.
  unfoldable pub insert_middle : ℕ → A → Manager A → Option (List (List A))
  insert_middle pos v m =
      let i = bucket_index m pos in
      let index = bucket_pos m pos in
      if length m.buckets == 1
      then elim m.buckets [ [] ↦ none | b ∷ bs ↦ insert_one_bucket m.bucket_size index v b ]
      else (if ltb pos (m.size / 2)
          then insert_left m.bucket_size i index v m.buckets
          else insert_right m.bucket_size i index v m.buckets)

  unfoldable pub insert : ℕ → A → Manager A → Option (Manager A)
  insert pos v m =
      if pos == 0
      then some (emplace_front v m)
      else (if pos == m.size then some (emplace_back v m) else elim (insert_middle pos v m) [
        | none ↦ none
        | some bs ↦ some (record m { buckets = bs; size = m.size + 1 })
      ])
