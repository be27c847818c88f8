-- ===== src/BinarySearch.antt =====
-- seq/internal/binary_search.hpp: `lower_bound`, one definition for each branch of its
-- `if constexpr`. The range is a list, `none` is a read outside of it or a loop out of fuel; the
-- test `le(ptr[i], value)` is a predicate on elements, and `le.compare(ptr[i], value)` a function
-- to the sign of its result. The two branches without comparison leave out the `false` that they
-- return beside the index. Each loop takes the fuel that it needs at most, one for each element.
pub mod Bound
pub mod Halving
pub mod Probing
pub mod Comparing
mod Tests
use seq.Prelude.{
  ℕ, zero, suc, ◌+◌, ◌-◌, ◌/◌, ◌%◌, Bool, true, false, Option, none, some, List, length, get_elem?,
  ltb, ◌==◌, if◌then◌else◌,
}

-- The sign of `compare`.
pub data Sign : Type 0 where
  negative null positive : Sign

module _ {A : Type 0} where
  -- The last branch: only `operator()`.
  unfoldable pub halving : ℕ → (A → Bool) → List A → ℕ → ℕ → Option ℕ
  halving zero le xs p count = if count == 0 then some p else none
  halving (suc fuel) le xs p count =
      let half = count / 2 in
      if count == 0 then some p else elim (get_elem? xs (p + half)) [
        | none ↦ none
        | some x ↦ elim (le x) [
          | true ↦ halving fuel le xs (p + half + 1) (count - (half + 1))
          | false ↦ halving fuel le xs p half
        ]
      ]

  abbrev pub lower_bound : (A → Bool) → List A → Option ℕ
  lower_bound le xs = halving (length xs) le xs 0 (length xs)

  -- The branch for arithmetic keys: linear probing at the end.
  unfoldable pub probing : ℕ → (A → Bool) → List A → ℕ → ℕ → Option ℕ
  probing zero le xs low size = if ltb low size then none else some low
  probing (suc fuel) le xs low size =
      if ltb low size
      then elim (get_elem? xs low) [
        | none ↦ none
        | some x ↦ elim (le x) [ true ↦ probing fuel le xs (low + 1) size | false ↦ some low ]
      ]
      else some low

  -- `half = size / 2; low = le(ptr[low + half], value) ? low + size - half : low; size = half;`,
  -- and then `next` with `low` and `size`.
  unfoldable pub halve : (A → Bool) → List A → (ℕ → ℕ → Option ℕ) → ℕ → ℕ → Option ℕ
  halve le xs next low size =
      let half = size / 2 in
      elim (get_elem? xs (low + half)) [
        | none ↦ none
        | some x ↦ elim (le x) [ true ↦ next (low + size - half) half | false ↦ next low half ]
      ]

  -- The loop halves twice, while `size` is greater than `end_of_probe`.
  unfoldable pub halving_twice : ℕ → ℕ → (A → Bool) → List A → ℕ → ℕ → Option ℕ
  halving_twice end_of_probe zero le xs low size =
      if ltb end_of_probe size then none else probing size le xs low (size + low)
  halving_twice end_of_probe (suc fuel) le xs low size =
      if ltb end_of_probe size
      then halve le xs (halve le xs (halving_twice end_of_probe fuel le xs)) low size
      else probing size le xs low (size + low)

  abbrev pub lower_bound_arithmetic : ℕ → (A → Bool) → List A → Option ℕ
  lower_bound_arithmetic end_of_probe le xs =
      halving_twice end_of_probe (length xs) le xs 0 (length xs)

  -- The branch for three-way comparisons in a container without equal keys. `max` is the number of
  -- values of the type in which `s + e` is computed.
  unfoldable pub comparing : ℕ → ℕ → (A → Sign) → List A → ℕ → ℕ → Option (ℕ × Bool)
  comparing max zero compare xs s e = if s == e then some (s, false) else none
  comparing max (suc fuel) compare xs s e =
      let mid = (s + e) % max / 2 in
      if s == e then some (s, false) else elim (get_elem? xs mid) [
        | none ↦ none
        | some x ↦ elim (compare x) [
          | negative ↦ comparing max fuel compare xs (mid + 1) e
          | positive ↦ comparing max fuel compare xs s mid
          | null ↦ some (mid, true)
        ]
      ]

  abbrev pub lower_bound_unique : ℕ → (A → Sign) → List A → Option (ℕ × Bool)
  lower_bound_unique max compare xs = comparing max (length xs) compare xs 0 (length xs)

  -- The branch for three-way comparisons in a container that may have equal keys.
  unfoldable pub comparing_multi : ℕ → ℕ → (A → Sign) → List A → Bool → ℕ → ℕ → Option (ℕ × Bool)
  comparing_multi max zero compare xs exact_match s e =
      if s == e then some (s, exact_match) else none
  comparing_multi max (suc fuel) compare xs exact_match s e =
      let mid = (s + e) % max / 2 in
      if s == e then some (s, exact_match) else elim (get_elem? xs mid) [
        | none ↦ none
        | some x ↦ elim (compare x) [
          | negative ↦ comparing_multi max fuel compare xs exact_match (mid + 1) e
          | positive ↦ comparing_multi max fuel compare xs exact_match s mid
          | null ↦ comparing_multi max fuel compare xs true s mid
        ]
      ]

  abbrev pub lower_bound_multi : ℕ → (A → Sign) → List A → Option (ℕ × Bool)
  lower_bound_multi max compare xs = comparing_multi max (length xs) compare xs false 0 (length xs)
