-- ===== src/Algorithm/Runs/Merged.antt =====
-- seq/algorithm.hpp: the merge of sorted runs is a stable sort of all of them.
use seq.Prelude.{
  ◌≡◌, ap, sym, subst, ◌∙◌, Bool, ℕ, zero, suc, ◌/◌, ◌≤◌, ◌<◌, List, [], ◌∷◌, ◌++◌, concat,
  concat-append, length, take, drop, take-append-drop, length-drop, length-take_le, append-nil,
  arith,
}
use seq.BinarySearch.Bound.{Partitioned, IsBound}
use seq.Algorithm.Stable.{All, WeakOrder, Sorts}
use seq.Algorithm.Merging.Blocks.{All-left, All-right}
use seq.Algorithm.Runs.Pairs.{
  IsRun, Same-append, Sorts-self, Sorts-trans, Sorts-IsRun, merge_inplace-Sorts,
  ping_pong_merge_4-Sorts, ping_pong_merge_3-Sorts,
}
use seq.Algorithm.Runs.{
  merge_inplace, ping_pong_merge_4, ping_pong_merge_3, merge_runs, merge_sorted_runs_with_buffer,
}

module _ {A : Type 0} (c : A → A → Bool) (o : WeakOrder c) (search : (A → Bool) → List A → ℕ)
    (random : Bool)
    (finds : (p : A → Bool) (xs : List A) → Partitioned p xs → IsBound p xs (search p xs)) where
  concat-nonempty :
      (runs : List (List A)) → 0 < length runs → All (IsRun c) runs → 0 < length (concat runs)
  concat-nonempty [] h r = absurd (omega arith)
  concat-nonempty ((x ∷ xs) ∷ runs) h r = omega arith
  concat-nonempty ([] ∷ runs) h r = absurd (omega (arith, r.0.0))

  IsRun-drop : (n : ℕ) (runs : List (List A)) → All (IsRun c) runs → All (IsRun c) (drop n runs)
  IsRun-drop n runs r =
      All-right (IsRun c) (take n runs) (drop n runs)
        (subst (All (IsRun c)) (sym (take-append-drop n runs)) r)

  IsRun-take : (n : ℕ) (runs : List (List A)) → All (IsRun c) runs → All (IsRun c) (take n runs)
  IsRun-take n runs r =
      All-left (IsRun c) (take n runs) (drop n runs)
        (subst (All (IsRun c)) (sym (take-append-drop n runs)) r)

  concat-parts :
      (n : ℕ) (runs : List (List A)) → concat (take n runs) ++ concat (drop n runs) ≡ concat runs
  concat-parts n runs =
      sym (concat-append (take n runs) (drop n runs)) ∙ ap concat (take-append-drop n runs)

  merge_runs-Sorts :
      (n size : ℕ) (runs : List (List A))
      → length runs ≤ n
      → All (IsRun c) runs
      → Sorts c (concat runs) (merge_runs c search random n size runs)
  merge_runs-Sorts zero size [] h r = Sorts-self c o [] tt
  merge_runs-Sorts zero size (r0 ∷ runs) h r = absurd (omega arith)
  merge_runs-Sorts (suc n) size [] h r = Sorts-self c o [] tt
  merge_runs-Sorts (suc n) size (r0 ∷ []) h r =
      subst (λ l. Sorts c l r0) (sym (append-nil r0)) (Sorts-self c o r0 r.0.1)
  merge_runs-Sorts (suc n) size (r0 ∷ r1 ∷ []) h r =
      subst (λ l. Sorts c (r0 ++ l) (merge_inplace c search random size r0 r1))
        (sym (append-nil r1))
        (merge_inplace-Sorts c o search random finds size r0 r1 r0 r1 (Sorts-self c o r0 r.0.1)
          (Sorts-self c o r1 r.1.0.1))
  merge_runs-Sorts (suc n) size (r0 ∷ r1 ∷ r2 ∷ []) h r =
      subst (λ l. Sorts c (r0 ++ (r1 ++ l)) (ping_pong_merge_3 c search random size r0 r1 r2))
        (sym (append-nil r2))
        (ping_pong_merge_3-Sorts c o search random finds size r0 r1 r2 r.0 r.1.0 r.1.1.0)
  merge_runs-Sorts (suc n) size (r0 ∷ r1 ∷ r2 ∷ r3 ∷ []) h r =
      subst
        (λ l.
          Sorts c (r0 ++ (r1 ++ (r2 ++ l))) (ping_pong_merge_4 c search random size r0 r1 r2 r3))
        (sym (append-nil r3))
        (ping_pong_merge_4-Sorts c o search random finds size r0 r1 r2 r3 r.0 r.1.0 r.1.1.0
          r.1.1.1.0)
  merge_runs-Sorts (suc n) size (r0 ∷ r1 ∷ r2 ∷ r3 ∷ r4 ∷ runs) h r =
      let all : List (List A) = r0 ∷ r1 ∷ r2 ∷ r3 ∷ r4 ∷ runs in
      let q = length all / 4 in
      let from_1 = drop q all in
      let from_2 = drop q from_1 in
      let rest = length-drop q from_2 in
      let size_0 = length-take_le q all (omega arith) in
      let size_1 = length-take_le q from_1 (omega (arith, length-drop q all)) in
      let size_2 =
        length-take_le q from_2 (omega (arith, length-drop q all, length-drop q from_1)) in
      let s0 = merge_runs-Sorts n size (take q all) (omega (arith, size_0)) (IsRun-take q all r) in
      let r_1 = IsRun-drop q all r in
      let r_2 = IsRun-drop q from_1 r_1 in
      let s1 =
        merge_runs-Sorts n size (take q from_1) (omega (arith, size_1)) (IsRun-take q from_1 r_1) in
      let s2 =
        merge_runs-Sorts n size (take q from_2) (omega (arith, size_2)) (IsRun-take q from_2 r_2) in
      let s3 =
        merge_runs-Sorts n size (drop q from_2)
          (omega (arith, rest, length-drop q from_1, length-drop q all))
          (IsRun-drop q from_2 r_2) in
      let run_0 =
        Sorts-IsRun c o _ _ (concat-nonempty _ (omega (arith, size_0)) (IsRun-take q all r)) s0 in
      let run_1 =
        Sorts-IsRun c o _ _ (concat-nonempty _ (omega (arith, size_1)) (IsRun-take q from_1 r_1))
          s1 in
      let run_2 =
        Sorts-IsRun c o _ _ (concat-nonempty _ (omega (arith, size_2)) (IsRun-take q from_2 r_2))
          s2 in
      let run_3 =
        Sorts-IsRun c o _ _
          (concat-nonempty _ (omega (arith, rest, length-drop q from_1, length-drop q all))
            (IsRun-drop q from_2 r_2))
          s3 in
      let parts =
        ap (λ l. concat (take q all) ++ (concat (take q from_1) ++ l)) (concat-parts q from_2)
        ∙ ap (λ l. concat (take q all) ++ l) (concat-parts q from_1)
        ∙ concat-parts q all in
      subst (λ l. Sorts c l (merge_runs c search random (suc n) size all)) parts
        (Sorts-trans c o _ _ _
          (Same-append c o _ _ _ _ s0.same
            (Same-append c o _ _ _ _ s1.same (Same-append c o _ _ _ _ s2.same s3.same)))
          (ping_pong_merge_4-Sorts c o search random finds size _ _ _ _ run_0 run_1 run_2 run_3))

  -- For a comparison that is a strict weak order, a search that finds the bound in every
  -- partitioned range, any number of ascending runs that are not empty, iterators with or without
  -- random access, a type that is not relocatable and a buffer of any size,
  -- `merge_sorted_runs_with_buffer` is a stable sort of the runs one behind the other: its result
  -- is ascending, and the elements alike with any given one are the same as before and in the same
  -- order.
  pub merge_sorted_runs_with_buffer-Sorts :
      (size : ℕ) (runs : List (List A))
      → All (IsRun c) runs
      → Sorts c (concat runs) (merge_sorted_runs_with_buffer c search random size runs)
  merge_sorted_runs_with_buffer-Sorts size runs r =
      merge_runs-Sorts (length runs) size runs (omega arith) r
