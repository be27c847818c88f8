-- ===== src/FlatMap/Multi.antt =====
-- seq/flat_map.hpp: `flat_tree` in a container that may have elements with the same key.
pub mod Ascending
pub mod Bounds
mod Tests
use seq.Prelude.{ℕ, ◌+◌, ◌-◌, Option, none, some, ◌==◌, Bool, true, false, not, if◌then◌else◌}
use seq.BucketManager.{Manager, at}
use seq.TieredVector.{emplace}
use seq.FlatMap.{lower_bound_pos, upper_bound_pos, above_key}
use seq.FlatMap.Comparison.{TreeTraits}

module _ {K : Type 0} {A : Type 0} where
  -- The element goes behind those with its key.
  unfoldable pub emplace_pos_multi :
      TreeTraits K A → (ℕ → ℕ) → A → Manager A → Option (ℕ × Bool × Manager A)
  emplace_pos_multi t begins v m = elim (upper_bound_pos t begins (t.key v) m) [
    | none ↦ none
    | some pos ↦ elim (emplace t.deque pos v (some m)) [
      | none ↦ none
      | some q ↦ some (pos, true, q)
    ]
  ]

  -- `hint != begin() && !less(key, *(--hint))`
  unfoldable pub not_above_before : TreeTraits K A → K → ℕ → Manager A → Option Bool
  not_above_before t k hint m =
      if hint == 0
      then some false
      else elim (at m (hint - 1)) [ none ↦ none | some x ↦ some (not (t.less k (t.key x))) ]

  unfoldable pub emplace_pos_hint_multi :
      TreeTraits K A → (ℕ → ℕ) → ℕ → A → Manager A → Option (ℕ × Bool × Manager A)
  emplace_pos_hint_multi t begins hint v m = elim (above_key t (t.key v) hint m) [
    | none ↦ none
    | some above ↦ elim above [
      | false ↦ emplace_pos_multi t begins v m
      | true ↦ elim (not_above_before t (t.key v) hint m) [
        | none ↦ none
        | some fits ↦ elim fits [
          | false ↦ emplace_pos_multi t begins v m
          | true ↦ elim (emplace t.deque hint v (some m)) [
            | none ↦ none
            | some q ↦ some (hint, true, q)
          ]
        ]
      ]
    ]
  ]

  unfoldable pub equal_range_multi : TreeTraits K A → (ℕ → ℕ) → K → Manager A → Option (ℕ × ℕ)
  equal_range_multi t begins k m = elim (lower_bound_pos t begins k m) [
    | none ↦ none
    | some low ↦
        if low == m.size
        then some (low, low)
        else elim (upper_bound_pos t begins k m) [ none ↦ none | some up ↦ some (low, up) ]
  ]

  unfoldable pub count_multi : TreeTraits K A → (ℕ → ℕ) → K → Manager A → Option ℕ
  count_multi t begins k m = elim (lower_bound_pos t begins k m) [
    | none ↦ none
    | some low ↦
        if low == m.size
        then some 0
        else elim (upper_bound_pos t begins k m) [ none ↦ none | some up ↦ some (up - low) ]
  ]
