-- ===== src/Algorithm/Runs.antt =====
-- seq/algorithm.hpp: the merge of sorted runs that stand one behind the other, for element types
-- that are not relocatable, so that `merge_move_bidirectional` is `merge_forward`. The array of
-- iterators is the list of the runs between them, `size` is that of the buffer, which has random
-- access, and `random` is whether the iterators have it.
pub mod Pairs
pub mod Merged
use seq.Prelude.{
  Bool, true, false, not, ◌&&◌, ℕ, zero, suc, ◌+◌, ◌/◌, List, [], ◌∷◌, ◌++◌, concat, length, take,
  drop, leb, if◌then◌else◌,
}
use seq.Algorithm.{merge_forward}
use seq.Algorithm.Inplace.{last_or, merge_adaptive}

module _ {A : Type 0} (c : A → A → Bool) where
  -- The first element of a run stands before the last one of the run in front of it. No run is
  -- empty.
  abbrev pub out_of_order : List A → List A → Bool
  out_of_order (x ∷ xs) (y ∷ ys) = c y (last_or x xs)
  out_of_order _ _ = false

module _ {A : Type 0} (c : A → A → Bool) (search : (A → Bool) → List A → ℕ) (random : Bool) where
  -- Two runs are merged, or moved if they are in order.
  abbrev pub merge_pair : Bool → List A → List A → List A
  merge_pair access xs ys =
      if out_of_order c xs ys then merge_forward c search access xs ys else xs ++ ys

  abbrev pub merge_inplace : ℕ → List A → List A → List A
  merge_inplace size xs ys = merge_adaptive c search random (length xs + length ys) size xs ys

  abbrev pub ping_pong_merge_4 : ℕ → List A → List A → List A → List A → List A
  ping_pong_merge_4 size r0 r1 r2 r3 =
      if leb (length r0 + length r1 + length r2 + length r3) size
      then (if not (out_of_order c r0 r1)
            && (not (out_of_order c r1 r2) && not (out_of_order c r2 r3))
          then r0 ++ (r1 ++ (r2 ++ r3))
          else merge_pair true (merge_pair random r0 r1) (merge_pair random r2 r3))
      else merge_inplace size (merge_inplace size r0 r1) (merge_inplace size r2 r3)

  abbrev pub ping_pong_merge_3 : ℕ → List A → List A → List A → List A
  ping_pong_merge_3 size r0 r1 r2 =
      if leb (length r0 + length r1) size
      then (if not (out_of_order c r0 r1) && not (out_of_order c r1 r2)
          then r0 ++ (r1 ++ r2)
          else merge_pair random (merge_pair random r0 r1) r2)
      else merge_inplace size (merge_inplace size r0 r1) r2

  -- The recursion, on fuel.
  abbrev pub merge_runs : ℕ → ℕ → List (List A) → List A
  merge_runs zero size runs = concat runs
  merge_runs (suc n) size [] = []
  merge_runs (suc n) size (r0 ∷ []) = r0
  merge_runs (suc n) size (r0 ∷ r1 ∷ []) = merge_inplace size r0 r1
  merge_runs (suc n) size (r0 ∷ r1 ∷ r2 ∷ []) = ping_pong_merge_3 size r0 r1 r2
  merge_runs (suc n) size (r0 ∷ r1 ∷ r2 ∷ r3 ∷ []) = ping_pong_merge_4 size r0 r1 r2 r3
  merge_runs (suc n) size (r0 ∷ r1 ∷ r2 ∷ r3 ∷ r4 ∷ runs) =
      let all = r0 ∷ r1 ∷ r2 ∷ r3 ∷ r4 ∷ runs in
      let quarter = length all / 4 in
      let from_1 = drop quarter all in
      let from_2 = drop quarter from_1 in
      ping_pong_merge_4 size (merge_runs n size (take quarter all))
        (merge_runs n size (take quarter from_1)) (merge_runs n size (take quarter from_2))
        (merge_runs n size (drop quarter from_2))

  abbrev pub merge_sorted_runs_with_buffer : ℕ → List (List A) → List A
  merge_sorted_runs_with_buffer size runs = merge_runs (length runs) size runs
