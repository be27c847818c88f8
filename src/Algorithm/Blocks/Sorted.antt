-- ===== src/Algorithm/Blocks/Sorted.antt =====
-- seq/algorithm.hpp: `sort_128` behind iterators without random access is a stable sort.
use mathlib.Core.List.{reverse, reverse_aux}
use seq.Prelude.{
  ◌≡◌, refl, ap, sym, subst, ◌∙◌, inl, inr, Bool, true, false, ◌&&◌, Bool-cases, ℕ, zero, suc, ◌+◌,
  ◌-◌, ◌≤◌, ◌<◌, Option, some, List, [], ◌∷◌, ◌++◌, concat, length, take, drop, length-drop,
  length-take_le, ltb, leb, ◌==◌, if◌then◌else◌, arith,
}
use seq.BinarySearch.Bound.{Partitioned, IsBound}
use seq.Algorithm.{sift, merge_forward}
use seq.Algorithm.Stable.{All, WeakOrder, Sorts}
use seq.Algorithm.Insertion.{inserted, insertion_sort_n_lem, sorted-Sorts, insertion_sort_n-Sorts}
use seq.Algorithm.Merging.{merge}
use seq.Algorithm.Merging.Forward.{merge_forward-merge}
use seq.Algorithm.Runs.Pairs.{IsRun, Same, Same-append, Sorts-trans, merge-Sorts}
use seq.Algorithm.Runs.Merged.{merge_sorted_runs_with_buffer-Sorts}
use seq.Algorithm.Blocks.{atom_sort_8, atom_sort_64, atom_runs, sort_128}

module _ {A : Type 0} where
  take-nil : (n : ℕ) → take {A = A} n [] ≡ []
  take-nil zero = refl
  take-nil (suc n) = refl

  drop-nil : (n : ℕ) → drop {A = A} n [] ≡ []
  drop-nil zero = refl
  drop-nil (suc n) = refl

  take-add : (m n : ℕ) (xs : List A) → take m xs ++ take n (drop m xs) ≡ take (m + n) xs
  take-add zero n xs = ap (λ k. take k xs) (omega arith)
  take-add (suc m) n [] = take-nil n ∙ sym (take-nil (suc m + n))
  take-add (suc m) n (x ∷ xs) =
      ap (λ l. x ∷ l) (take-add m n xs)
      ∙ ap (λ k. take k (x ∷ xs)) (let k : suc (m + n) ≡ suc m + n = omega arith in k)

  drop-add : (m n : ℕ) (xs : List A) → drop n (drop m xs) ≡ drop (m + n) xs
  drop-add zero n xs = ap (λ k. drop k xs) (omega arith)
  drop-add (suc m) n [] = drop-nil n ∙ sym (drop-nil (suc m + n))
  drop-add (suc m) n (x ∷ xs) =
      drop-add m n xs
      ∙ ap (λ k. drop k (x ∷ xs)) (let k : suc (m + n) ≡ suc m + n = omega arith in k)

  length-reverse_aux : (xs acc : List A) → length (reverse_aux xs acc) ≡ length xs + length acc
  length-reverse_aux [] acc = omega arith
  length-reverse_aux (x ∷ xs) acc = omega (arith, length-reverse_aux xs (x ∷ acc))

module _ {A : Type 0} (c : A → A → Bool) where
  length-sift : (x : A) (xs : List A) → length (sift c x xs) ≡ suc (length xs)
  length-sift x [] = refl
  length-sift x (y ∷ xs) = elim (Bool-cases (c x y)) [
    | inl e ↦ rw e (ap suc (length-sift x xs))
    | inr e ↦ rw e refl
  ]

  length-inserted : (sorted xs : List A) → length (inserted c sorted xs) ≡ length sorted + length xs
  length-inserted sorted [] = omega arith
  length-inserted sorted (x ∷ xs) =
      omega (arith, length-inserted (sift c x sorted) xs, length-sift x sorted)

  -- The first `n` elements are sorted, and the others stay.
  abbrev pub IsSortedFirst : ℕ → List A → List A × List A → Type 0
  IsSortedFirst n xs r = Sorts c (take n xs) r.0 × (r.1 ≡ drop n xs)

  abbrev pub SortsFirst : ℕ → List A → Option (List A × List A) → Type 0
  SortsFirst n xs o = (r : List A × List A) × (o ≡ some r) × IsSortedFirst n xs r

  behind :
      (n m : ℕ) (xs : List A) (r : List A × List A)
      → IsSortedFirst n xs r
      → n + m ≤ length xs
      → m ≤ length r.1
  behind n m xs r f h = omega (arith, ap length f.1, length-drop n xs)

  module _ (o : WeakOrder c) (search : (A → Bool) → List A → ℕ)
      (finds : (p : A → Bool) (xs : List A) → Partitioned p xs → IsBound p xs (search p xs)) where
    merge-first :
        (random : Bool) (m n : ℕ) (xs : List A) (r s : List A × List A)
        → IsSortedFirst m xs r
        → IsSortedFirst n r.1 s
        → IsSortedFirst (m + n) xs (merge_forward c search random r.0 s.0, s.1)
    merge-first random m n xs r s f g =
        let g0 = subst (λ l. Sorts c (take n l) s.0) f.1 g.0 in
        (
          subst (Sorts c (take (m + n) xs))
              (sym (merge_forward-merge c o search finds random r.0 s.0 f.0.ascending g0.ascending))
              (subst (λ l. Sorts c l (merge c r.0 s.0)) (take-add m n xs)
                (merge-Sorts c o (take m xs) (take n (drop m xs)) r.0 s.0 f.0 g0)),
          g.1 ∙ ap (drop n) f.1 ∙ drop-add m n xs,
        )

    -- Eight values, without random access, with `m` more behind them.
    first_8 :
        (m : ℕ) (xs : List A)
        → 8 + m ≤ length xs
        → (r : List A × List A) × (atom_sort_8 c search false 8 xs ≡ some r)
          × IsSortedFirst 8 xs r
          × (m ≤ length r.1)
    first_8 m xs h =
        let f = insertion_sort_n-Sorts c o 8 xs (omega arith) in
        (f.0, f.1, (f.2, f.3), behind 8 m xs f.0 (f.2, f.3) h)

    first_64 : (xs : List A) → 64 ≤ length xs → SortsFirst 64 xs (atom_sort_64 c search false xs)
    first_64 xs h =
        let a0 = first_8 56 xs h in
        let a1 = first_8 48 ((a0.0).1) a0.3 in
        let a2 = first_8 40 ((a1.0).1) a1.3 in
        let a3 = first_8 32 ((a2.0).1) a2.3 in
        let a4 = first_8 24 ((a3.0).1) a3.3 in
        let a5 = first_8 16 ((a4.0).1) a4.3 in
        let a6 = first_8 8 ((a5.0).1) a5.3 in
        let a7 = first_8 0 ((a6.0).1) a6.3 in
        (
          _,
          rw (a0.1, a1.1, a2.1, a3.1, a4.1, a5.1, a6.1, a7.1) refl,
          merge-first false 32 32 xs _ _
              (merge-first true 16 16 xs _ _ (merge-first false 8 8 xs a0.0 a1.0 a0.2 a1.2)
                (merge-first false 8 8 _ a2.0 a3.0 a2.2 a3.2))
              (merge-first true 16 16 _ _ _ (merge-first false 8 8 _ a4.0 a5.0 a4.2 a5.2)
                (merge-first false 8 8 _ a6.0 a7.0 a6.2 a7.2)),
        )

    -- The runs are what is sorted, and what is behind them stays.
    abbrev Cuts : ℕ → List A → Option (List (List A) × List A) → Type 0
    Cuts rem xs t =
        (r : List (List A) × List A) × (t ≡ some r)
        × All (IsRun c) r.0
        × Same c o (take rem xs) (concat r.0)
        × (r.1 ≡ drop rem xs)

    length-sorted :
        (j : ℕ) (xs : List A) → j ≤ length xs → length (reverse (inserted c [] (take j xs))) ≡ j
    length-sorted j xs h = omega (
      arith,
      length-reverse_aux (inserted c [] (take j xs)) [],
      length-inserted [] (take j xs),
      length-take_le j xs h,
    )

    atom_runs-Cuts :
        (n rem : ℕ) (xs : List A)
        → rem ≤ n
        → rem ≤ length xs
        → Cuts rem xs (atom_runs c search false n rem xs)
    atom_runs-Cuts zero zero xs h k = (_, refl, tt, (λ a. refl), refl)
    atom_runs-Cuts zero (suc m) xs h k = absurd (omega arith)
    atom_runs-Cuts (suc n) zero xs h k = (_, refl, tt, (λ a. refl), refl)
    atom_runs-Cuts (suc n) (suc m) xs h k =
        let j = if ltb 8 (suc m) then 8 else suc m in
        let positive : 0 < j = ground arith in
        let fits : j ≤ suc m = ground arith in
        let enough : j ≤ length xs = omega (arith, fits) in
        let run = reverse (inserted c [] (take j xs)) in
        let size = length-sorted j xs enough in
        let left : suc m - length run ≡ suc m - j = omega (arith, size) in
        let whole : j + (suc m - j) ≡ suc m = omega (arith, fits) in
        let sorted = sorted-Sorts c o (take j xs) in
        let f =
          atom_runs-Cuts n (suc m - length run) (drop j xs) (omega (arith, size, positive))
            (omega (arith, size, fits, length-drop j xs)) in
        (
          (run ∷ (f.0).0, (f.0).1),
          rw (insertion_sort_n_lem c j xs enough, f.1) refl,
          (((omega (arith, size, positive, fits)), sorted.ascending), f.2),
          subst (λ l. Same c o l (run ++ concat ((f.0).0)))
              (ap (λ a. take j xs ++ take a (drop j xs)) left
                ∙ take-add j (suc m - j) xs
                ∙ ap (λ a. take a xs) whole)
              (Same-append c o (take j xs) (take (suc m - length run) (drop j xs)) run
                (concat ((f.0).0)) sorted.same f.3),
          f.4
              ∙ ap (λ a. drop a (drop j xs)) left
              ∙ drop-add j (suc m - j) xs
              ∙ ap (λ a. drop a xs) whole,
        )

    -- For a comparison that is a strict weak order, a search that finds the bound in every
    -- partitioned range, iterators without random access, a type that is not relocatable, a buffer
    -- of any size and a `count` that is at most 128 and at most the number of values, `sort_128`
    -- reads no value behind the last one, and is a stable sort of the first `count` values: they
    -- become ascending, and those alike with any given one are the same as before and in the same
    -- order. The values behind them stay.
    pub sort_128-Sorts :
        (size count : ℕ) (xs : List A)
        → count ≤ 128
        → count ≤ length xs
        → (r : List A × List A) × (sort_128 c search false size count xs ≡ some r)
          × Sorts c (take count xs) r.0
          × (r.1 ≡ drop count xs)
    sort_128-Sorts size count xs small h = elim (Bool-cases ((count == 128) && leb 128 size)) [
      | inl e ↦
          let full : count ≡ 128 = ground arith in
          let a = first_64 xs (omega arith) in
          let b = first_64 ((a.0).1) (behind 64 64 xs a.0 a.2 (omega arith)) in
          let r : List A × List A = (merge_forward c search true ((a.0).0) ((b.0).0), (b.0).1) in
          let f =
            subst (λ n. IsSortedFirst n xs r) (sym full)
              (merge-first true 64 64 xs a.0 b.0 a.2 b.2) in
          (r, rw (e, a.1, b.1) refl, f.0, f.1)
      | inr e ↦
          let r = atom_runs-Cuts count count xs (omega arith) h in
          (
            _,
            rw (e, r.1) refl,
            Sorts-trans c o _ _ _ r.3
                (merge_sorted_runs_with_buffer-Sorts c o search false finds size _ r.2),
            r.4,
          )
    ]
