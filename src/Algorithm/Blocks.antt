-- ===== src/Algorithm/Blocks.antt =====
-- seq/algorithm.hpp: the sort of up to 128 values, for element types that are not relocatable. A
-- function gives the values that it sorted and those behind the iterator that it returns. `random`
-- is whether the iterators have random access; the buffer has it. `none` is a read behind the last
-- value.
pub mod Sorted
use seq.Prelude.{
  Bool, true, false, ◌&&◌, ℕ, zero, suc, ◌-◌, Option, none, some, ◌>>=◌, List, [], ◌∷◌, length,
  take, drop, ltb, leb, ◌==◌, if◌then◌else◌,
}
use seq.Algorithm.{insertion_sort_n, merge_forward}
use seq.Algorithm.Network.{network_sort_8}
use seq.Algorithm.Runs.{merge_sorted_runs_with_buffer}

module _ {A : Type 0} (c : A → A → Bool) (search : (A → Bool) → List A → ℕ) (random : Bool) where
  abbrev pub atom_sort_8 : ℕ → List A → Option (List A × List A)
  atom_sort_8 count xs =
      if random && count == 8
      then (if leb 8 (length xs) then some (network_sort_8 c (take 8 xs), drop 8 xs) else none)
      else insertion_sort_n c count xs

  abbrev pub atom_sort_64 : List A → Option (List A × List A)
  atom_sort_64 first = do
    r0 ← atom_sort_8 8 first
    r1 ← atom_sort_8 8 r0.1
    r2 ← atom_sort_8 8 r1.1
    r3 ← atom_sort_8 8 r2.1
    r4 ← atom_sort_8 8 r3.1
    r5 ← atom_sort_8 8 r4.1
    r6 ← atom_sort_8 8 r5.1
    r7 ← atom_sort_8 8 r6.1
    let o0 = merge_forward c search random r0.0 r1.0
    let o1 = merge_forward c search random r2.0 r3.0
    let o2 = merge_forward c search random r4.0 r5.0
    let o3 = merge_forward c search random r6.0 r7.0
    let d0 = merge_forward c search true o0 o1
    let d1 = merge_forward c search true o2 o3
    some (merge_forward c search random d0 d1, r7.1)

  -- The loop that sorts eight values at a time, on fuel: the runs and what is behind them.
  abbrev pub atom_runs : ℕ → ℕ → List A → Option (List (List A) × List A)
  atom_runs zero rem xs = if rem == 0 then some ([], xs) else none
  atom_runs (suc n) zero xs = some ([], xs)
  atom_runs (suc n) (suc m) xs = do
    p ← atom_sort_8 (if ltb 8 (suc m) then 8 else suc m) xs
    rest ← atom_runs n (suc m - length p.0) p.1
    some (p.0 ∷ rest.0, rest.1)

  abbrev pub sort_128 : ℕ → ℕ → List A → Option (List A × List A)
  sort_128 size count vals =
      if (count == 128) && leb 128 size
      then (do
        a ← atom_sort_64 vals
        b ← atom_sort_64 a.1
        some (merge_forward c search true a.0 b.0, b.1))
      else (do
        r ← atom_runs count count vals
        some (merge_sorted_runs_with_buffer c search random size r.0, r.1))
