-- ===== src/FlatMap.antt =====
-- seq/flat_map.hpp: the searches in the buckets of a `tiered_vector`, and `flat_tree` over them
-- in a container of unique keys whose comparison has only `operator()`; FlatMap/Multi has the
-- branches for keys that may be equal. A tree is the manager of its deque; one without buckets
-- is also the null pointer. `none` is a read outside of a bucket, or of the back of an empty
-- one. Where a bucket's ring starts is `begins`, from the bucket's index.
pub mod Comparison
pub mod Criterion
pub mod Halves
pub mod Backs
pub mod Start
pub mod Search
pub mod Positions
pub mod Order
pub mod Emplace
pub mod Find
pub mod Range
pub mod RoundTrip
pub mod Multi
mod Tests
use Prim.Native.Nat.{bit_and}
use seq.Prelude.{
  ℕ, zero, suc, ◌+◌, ◌-◌, ◌*◌, Option, none, some, ◌==◌, ltb, Bool, true, false, not, ◌&&◌, ◌||◌,
  if◌then◌else◌, List, [], ◌∷◌, length, take, drop, unsnoc, focus, get_elem?,
}
use seq.BucketManager.{Manager, front_size, at}
use seq.TieredVector.{emplace, erase}
use seq.FlatMap.Comparison.{TreeTraits}

module _ {A : Type 0} where
  -- The back values that the manager keeps beside its pointers to buckets. `update` stores the last
  -- element of a bucket there; it is called after every change of a bucket, so it is computed where
  -- it is read. What an empty bucket keeps is not modelled: there is none.
  unfoldable pub backs : List (List A) → Option (List A)
  backs [] = some []
  backs (b ∷ bs) = elim (unsnoc b) [
    | none ↦ none
    | some r ↦ elim (backs bs) [ none ↦ none | some ys ↦ some (r.1 ∷ ys) ]
  ]

  -- `begin` is not 0, the ring runs over the end of the buffer, and the value is not in the half up
  -- to that end.
  unfoldable pub low_half : ℕ → ℕ → ℕ → (A → Bool) → List A → Option Bool
  low_half n n1 begin le b =
      if not (begin == 0) && ltb n (begin + length b)
      then elim (get_elem? b (n1 - begin)) [ none ↦ none | some x ↦ some (le x) ]
      else some false

  -- The position of the first element of a bucket.
  abbrev pub bucket_start : Manager A → ℕ → ℕ
  bucket_start m i = if not (i == 0) then front_size m.buckets + (i - 1) * m.bucket_size else 0

module _ {K : Type 0} {A : Type 0} where
  unfoldable pub search_bucket : TreeTraits K A → ℕ → ℕ → ℕ → (A → Bool) → List A → Option ℕ
  search_bucket t n n1 begin le b = elim (low_half n n1 begin le b) [
    | none ↦ none
    | some low ↦ elim low [
      | true ↦ elim (t.lower_bound le (take (bit_and (begin + length b) n1) (drop (n - begin) b))) [
        | none ↦ none
        | some r ↦ some (r + (n - begin))
      ]
      | false ↦
          t.lower_bound le (take (if ltb (length b) (n - begin) then length b else n - begin) b)
    ]
  ]

  unfoldable pub tvector_lower_bound : TreeTraits K A → (ℕ → ℕ) → (A → Bool) → Manager A → Option ℕ
  tvector_lower_bound t begins le m = elim (backs m.buckets) [
    | none ↦ none
    | some ys ↦ elim (t.lower_bound le ys) [
      | none ↦ none
      | some i ↦ if i == length m.buckets then some m.size else elim (focus i m.buckets) [
        | none ↦ none
        | some r ↦ elim (search_bucket t m.bucket_size m.bucket_size1 (begins i) le r.1) [
          | none ↦ none
          | some k ↦ some (k + bucket_start m i)
        ]
      ]
    ]
  ]

  -- `le(element, key)`, and the test of `tvector_upper_bound`.
  abbrev pub key_below : TreeTraits K A → K → A → Bool
  key_below t k x = t.less (t.key x) k

  abbrev pub key_not_above : TreeTraits K A → K → A → Bool
  key_not_above t k x = not (t.less k (t.key x))

  abbrev pub lower_bound_pos : TreeTraits K A → (ℕ → ℕ) → K → Manager A → Option ℕ
  lower_bound_pos t begins k m = tvector_lower_bound t begins (key_below t k) m

  abbrev pub upper_bound_pos : TreeTraits K A → (ℕ → ℕ) → K → Manager A → Option ℕ
  upper_bound_pos t begins k m = tvector_lower_bound t begins (key_not_above t k) m

  -- `pos != size() && less(key, d[pos])`, where `d[pos]` is read at an element only.
  unfoldable pub above_key : TreeTraits K A → K → ℕ → Manager A → Option Bool
  above_key t k pos m =
      if pos == m.size
      then some false
      else elim (at m pos) [ none ↦ none | some x ↦ some (t.less k (t.key x)) ]

  unfoldable pub tvector_binary_search : TreeTraits K A → (ℕ → ℕ) → K → Manager A → Option ℕ
  tvector_binary_search t begins k m = elim (lower_bound_pos t begins k m) [
    | none ↦ none
    | some pos ↦ elim (above_key t k pos m) [
      | none ↦ none
      | some above ↦ some (if above then m.size else pos)
    ]
  ]

  -- `!(pos != size() && !less(key, d[pos]))`
  unfoldable pub is_new : TreeTraits K A → K → ℕ → Manager A → Option Bool
  is_new t k pos m =
      if pos == m.size
      then some true
      else elim (at m pos) [ none ↦ none | some x ↦ some (not (not (t.less k (t.key x)))) ]

  unfoldable pub emplace_pos :
      TreeTraits K A → (ℕ → ℕ) → A → Manager A → Option (ℕ × Bool × Manager A)
  emplace_pos t begins v m = elim (lower_bound_pos t begins (t.key v) m) [
    | none ↦ none
    | some pos ↦ elim (is_new t (t.key v) pos m) [
      | none ↦ none
      | some new ↦ elim new [
        | true ↦ elim (emplace t.deque pos v (some m)) [
          | none ↦ none
          | some q ↦ some (pos, true, q)
        ]
        | false ↦ some (pos, false, m)
      ]
    ]
  ]

  -- `hint == begin() || less(*(--hint), key)`
  unfoldable pub below_key_before : TreeTraits K A → K → ℕ → Manager A → Option Bool
  below_key_before t k hint m =
      if hint == 0
      then some true
      else elim (at m (hint - 1)) [ none ↦ none | some x ↦ some (t.less (t.key x) k) ]

  unfoldable pub emplace_pos_hint :
      TreeTraits K A → (ℕ → ℕ) → ℕ → A → Manager A → Option (ℕ × Bool × Manager A)
  emplace_pos_hint t begins hint v m = elim (above_key t (t.key v) hint m) [
    | none ↦ none
    | some above ↦ elim above [
      | false ↦ emplace_pos t begins v m
      | true ↦ elim (below_key_before t (t.key v) hint m) [
        | none ↦ none
        | some below ↦ elim below [
          | false ↦ emplace_pos t begins v m
          | true ↦ elim (emplace t.deque hint v (some m)) [
            | none ↦ none
            | some q ↦ some (hint, true, q)
          ]
        ]
      ]
    ]
  ]

  -- The number of elements erased, and the tree.
  unfoldable pub erase_key : TreeTraits K A → (ℕ → ℕ) → K → Manager A → Option (ℕ × Manager A)
  erase_key t begins k m = elim (tvector_binary_search t begins k m) [
    | none ↦ none
    | some pos ↦
        if pos == m.size
        then some (0, m)
        else elim (erase t.deque pos (some m)) [ none ↦ none | some q ↦ some (1, q) ]
  ]

  unfoldable pub contains : TreeTraits K A → (ℕ → ℕ) → K → Manager A → Option Bool
  contains t begins k m = elim (tvector_binary_search t begins k m) [
    | none ↦ none
    | some pos ↦ some (not (pos == m.size))
  ]

  unfoldable pub count : TreeTraits K A → (ℕ → ℕ) → K → Manager A → Option ℕ
  count t begins k m = elim (tvector_binary_search t begins k m) [
    | none ↦ none
    | some pos ↦ some (if pos == m.size then 0 else 1)
  ]

  unfoldable pub equal_range_pos : TreeTraits K A → (ℕ → ℕ) → K → Manager A → Option (ℕ × ℕ)
  equal_range_pos t begins k m = elim (lower_bound_pos t begins k m) [
    | none ↦ none
    | some low ↦ some (low, if low == m.size then low else low + 1)
  ]
