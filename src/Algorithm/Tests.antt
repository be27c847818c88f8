-- ===== src/Algorithm/Tests.antt =====
-- seq/algorithm.hpp: runs on numbers that are compared by their tens.
use seq.Prelude.{
  ℕ, ◌/◌, ◌≡◌, refl, sym, subst, Bool, true, false, none, some, List, [], ◌∷◌, ◌++◌, concat, length,
  take, drop, ltb, arith,
}
use seq.BinarySearch.{lower_bound, halving}
use seq.BinarySearch.Bound.{Partitioned, IsBound}
use seq.BinarySearch.Halving.{lower_bound-Finds}
use seq.Algorithm.{insertion_sort_n, reverse_sort, merge_forward}
use seq.Algorithm.Stable.{WeakOrder, All, filter, Ascending, Descending, Sorts}
use seq.Algorithm.Insertion.{insertion_sort_n-Sorts}
use seq.Algorithm.Reversal.{reverse_sort-Sorts}
use seq.Algorithm.Merging.Forward.{merge_forward-Sorts}
use seq.Algorithm.Network.{network_sort_8}
use seq.Algorithm.Network.Sorted.{network_sort_8-Ascending}
use seq.Algorithm.Runs.{merge_sorted_runs_with_buffer}
use seq.Algorithm.Runs.Pairs.{IsRun}
use seq.Algorithm.Runs.Merged.{merge_sorted_runs_with_buffer-Sorts}
use seq.Algorithm.Blocks.{sort_128}
use seq.Algorithm.Blocks.Sorted.{sort_128-Sorts}
use seq.Algorithm.Inplace.{inplace_merge}
use seq.Algorithm.Inplace.Merged.{inplace_merge-Sorts}

abbrev tens : ℕ → ℕ → Bool
tens a b = ltb (a / 10) (b / 10)

tens-WeakOrder : WeakOrder tens
tens-WeakOrder = record {
  asymmetric = λ a b h. ground arith;
  cotransitive = λ a b d h k. ground arith;
}

abbrev unsorted : List ℕ
unsorted = 21 ∷ 10 ∷ 22 ∷ 11 ∷ 5 ∷ []

insertion_run : insertion_sort_n tens 4 unsorted ≡ some (10 ∷ 11 ∷ 21 ∷ 22 ∷ [], 5 ∷ [])
insertion_run = refl

insertion_sort_n-Sorts_example :
    (r : List ℕ × List ℕ) × (insertion_sort_n tens 4 unsorted ≡ some r)
    × Sorts tens (take 4 unsorted) r.0
    × (r.1 ≡ drop 4 unsorted)
insertion_sort_n-Sorts_example = insertion_sort_n-Sorts tens tens-WeakOrder 4 unsorted (omega arith)

abbrev falling : List ℕ
falling = 31 ∷ 22 ∷ 21 ∷ 20 ∷ 10 ∷ 11 ∷ []

falling-Descending : Descending tens falling
falling-Descending = (
  (refl, (refl, (refl, (refl, (refl, tt))))),
  (
    (refl, (refl, (refl, (refl, tt)))),
    ((refl, (refl, (refl, tt))), ((refl, (refl, tt)), ((refl, tt), (tt, tt)))),
  ),
)

reverse_run : reverse_sort tens falling ≡ 10 ∷ 11 ∷ 22 ∷ 21 ∷ 20 ∷ 31 ∷ []
reverse_run = refl

reverse_sort-Sorts_example : Sorts tens falling (reverse_sort tens falling)
reverse_sort-Sorts_example = reverse_sort-Sorts tens tens-WeakOrder falling falling-Descending

-- The search by halving, in the place of the standard library's.
abbrev halving_search : (ℕ → Bool) → List ℕ → ℕ
halving_search p xs = elim (lower_bound p xs) [ none ↦ 0 | some r ↦ r ]

halving_search-IsBound :
    (p : ℕ → Bool) (xs : List ℕ) → Partitioned p xs → IsBound p xs (halving_search p xs)
halving_search-IsBound p xs part =
    let found = lower_bound-Finds p xs part in
    subst (λ o. IsBound p xs (elim o [ none ↦ 0 | some r ↦ r ])) (sym found.1) found.2

abbrev left : List ℕ
left = 10 ∷ 11 ∷ 20 ∷ 40 ∷ []

abbrev right : List ℕ
right = 15 ∷ 25 ∷ 26 ∷ 45 ∷ 50 ∷ []

left-Ascending : Ascending tens left
left-Ascending = ((refl, (refl, (refl, tt))), ((refl, (refl, tt)), ((refl, tt), (tt, tt))))

right-Ascending : Ascending tens right
right-Ascending = (
  (refl, (refl, (refl, (refl, tt)))),
  ((refl, (refl, (refl, tt))), ((refl, (refl, tt)), ((refl, tt), (tt, tt)))),
)

merge_run :
    merge_forward tens halving_search true left right
    ≡ 10 ∷ 11 ∷ 15 ∷ 20 ∷ 25 ∷ 26 ∷ 40 ∷ 45 ∷ 50 ∷ []
merge_run = refl

merge_forward-Sorts_example :
    Sorts tens (left ++ right) (merge_forward tens halving_search true left right)
merge_forward-Sorts_example =
    merge_forward-Sorts tens tens-WeakOrder halving_search halving_search-IsBound true left right
      left-Ascending right-Ascending

-- A buffer for one element.
inplace_run :
    inplace_merge tens halving_search true 1 left right
    ≡ 10 ∷ 11 ∷ 15 ∷ 20 ∷ 25 ∷ 26 ∷ 40 ∷ 45 ∷ 50 ∷ []
unfolding halving
inplace_run = refl

inplace_merge-Sorts_example :
    Sorts tens (left ++ right) (inplace_merge tens halving_search true 1 left right)
inplace_merge-Sorts_example =
    inplace_merge-Sorts tens tens-WeakOrder halving_search true halving_search-IsBound 1 left right
      left-Ascending right-Ascending

abbrev eight : List ℕ
eight = 10 ∷ 11 ∷ 12 ∷ 13 ∷ 14 ∷ 25 ∷ 15 ∷ 16 ∷ []

-- The elements 15 and 16, which are alike, are exchanged: the network is not stable.
network_exchanges : network_sort_8 tens eight ≡ 10 ∷ 11 ∷ 12 ∷ 13 ∷ 14 ∷ 16 ∷ 15 ∷ 25 ∷ []
network_exchanges = refl

network_sort_8-Ascending_example :
    Ascending tens (network_sort_8 tens eight)
    × ((p : ℕ → Bool) → length (filter p (network_sort_8 tens eight)) ≡ length (filter p eight))
network_sort_8-Ascending_example = network_sort_8-Ascending tens tens-WeakOrder eight refl

abbrev runs : List (List ℕ)
runs = (10 ∷ 30 ∷ []) ∷ (20 ∷ []) ∷ (15 ∷ 25 ∷ []) ∷ (11 ∷ []) ∷ (12 ∷ 40 ∷ []) ∷ []

runs-IsRun : All (IsRun tens) runs
runs-IsRun = (
  (omega arith, ((refl, tt), (tt, tt))),
  (
    (omega arith, (tt, tt)),
    (
      (omega arith, ((refl, tt), (tt, tt))),
      ((omega arith, (tt, tt)), ((omega arith, ((refl, tt), (tt, tt))), tt)),
    ),
  ),
)

merge_runs_run :
    merge_sorted_runs_with_buffer tens halving_search true 4 runs
    ≡ 10 ∷ 15 ∷ 11 ∷ 12 ∷ 20 ∷ 25 ∷ 30 ∷ 40 ∷ []
unfolding halving
merge_runs_run = refl

merge_sorted_runs_with_buffer-Sorts_example :
    Sorts tens (concat runs) (merge_sorted_runs_with_buffer tens halving_search true 4 runs)
merge_sorted_runs_with_buffer-Sorts_example =
    merge_sorted_runs_with_buffer-Sorts tens tens-WeakOrder halving_search true
      halving_search-IsBound 4 runs runs-IsRun

abbrev mixed : List ℕ
mixed = 50 ∷ 10 ∷ 40 ∷ 11 ∷ 20 ∷ 12 ∷ 41 ∷ 13 ∷ 51 ∷ 14 ∷ 42 ∷ 5 ∷ []

-- Eight values and three more; the last one stays.
sort_run :
    sort_128 tens halving_search false 16 11 mixed
    ≡ some (10 ∷ 11 ∷ 12 ∷ 13 ∷ 14 ∷ 20 ∷ 40 ∷ 41 ∷ 42 ∷ 50 ∷ 51 ∷ [], 5 ∷ [])
unfolding halving
sort_run = refl

sort_128-Sorts_example :
    (r : List ℕ × List ℕ) × (sort_128 tens halving_search false 16 11 mixed ≡ some r)
    × Sorts tens (take 11 mixed) r.0
    × (r.1 ≡ drop 11 mixed)
sort_128-Sorts_example =
    sort_128-Sorts tens tens-WeakOrder halving_search halving_search-IsBound 16 11 mixed
      (omega arith) (omega arith)
