-- ===== src/Algorithm/Insertion.antt =====
-- `insertion_sort_n` of seq/algorithm.hpp: the sorted elements, last first, are descending.
use mathlib.Core.List.{reverse, reverse_aux, reverse-reverse}
use seq.Prelude.{
  ◌≡◌, refl, ap, ◌∙◌, inl, inr, Bool, false, Bool-cases, ℕ, zero, suc, ◌≤◌, some, ◌>>=◌, List, [],
  ◌∷◌, length, take, drop, if◌then◌else◌, arith,
}
use seq.Algorithm.{sift, insertion_loop, insertion_sort_n}
use seq.Algorithm.Stable.{
  filter, All, All-map, WeakOrder, alike, Ascending, Descending, Sorts, le_trans, filter-swap,
}

module _ {A : Type 0} where
  filter-reverse_aux :
      (p : A → Bool) (xs acc : List A)
      → filter p (reverse_aux xs acc) ≡ reverse_aux (filter p xs) (filter p acc)
  filter-reverse_aux p [] acc = refl
  filter-reverse_aux p (x ∷ xs) acc = elim (Bool-cases (p x)) [
    | inl e ↦ filter-reverse_aux p xs (x ∷ acc) ∙ rw e refl
    | inr e ↦ filter-reverse_aux p xs (x ∷ acc) ∙ rw e refl
  ]

module _ {A : Type 0} (c : A → A → Bool) where
  -- What the loop makes of sorted elements and those that it inserts.
  abbrev pub inserted : List A → List A → List A
  inserted sorted [] = sorted
  inserted sorted (x ∷ xs) = inserted (sift c x sorted) xs

  insertion_loop_lem :
      (n : ℕ) (sorted xs : List A)
      → n ≤ length xs
      → insertion_loop c n sorted xs ≡ some (inserted sorted (take n xs), drop n xs)
  insertion_loop_lem zero sorted xs h = refl
  insertion_loop_lem (suc n) sorted [] h = absurd (omega arith)
  insertion_loop_lem (suc n) sorted (x ∷ xs) h =
      insertion_loop_lem n (sift c x sorted) xs (omega arith)

  pub insertion_sort_n_lem :
      (n : ℕ) (xs : List A)
      → n ≤ length xs
      → insertion_sort_n c n xs ≡ some (reverse (inserted [] (take n xs)), drop n xs)
  insertion_sort_n_lem zero xs h = refl
  insertion_sort_n_lem (suc n) [] h = absurd (omega arith)
  insertion_sort_n_lem (suc n) (x ∷ xs) h =
      ap (λ o. o >>= λ r. some (reverse r.0, r.1)) (insertion_loop_lem n (x ∷ []) xs (omega arith))

  -- What is put in front of elements that it is not before.
  Above : List A → List A → Type 0
  Above acc ps = All (λ p. All (λ a. c a p ≡ false) acc) ps

  Above-cons :
      (p : A) (acc ps : List A) → All (λ q. c p q ≡ false) ps → Above acc ps → Above (p ∷ acc) ps
  unfolding Above
  Above-cons p acc [] h k = h
  Above-cons p acc (q ∷ ps) h k = ((h.0, k.0), Above-cons p acc ps h.1 k.1)

  Above-nil : (ps : List A) → Above [] ps
  unfolding Above
  Above-nil [] = tt
  Above-nil (p ∷ ps) = (tt, Above-nil ps)

  reverse_aux-Ascending :
      (ps acc : List A)
      → Descending c ps
      → Ascending c acc
      → Above acc ps
      → Ascending c (reverse_aux ps acc)
  unfolding Above
  reverse_aux-Ascending [] acc d a k = a
  reverse_aux-Ascending (p ∷ ps) acc d a k =
      reverse_aux-Ascending ps (p ∷ acc) d.1 (k.0, a) (Above-cons p acc ps d.0 k.1)

  pub reverse-Ascending : (xs : List A) → Descending c xs → Ascending c (reverse xs)
  reverse-Ascending xs d = reverse_aux-Ascending xs [] d tt (Above-nil xs)

  module _ (o : WeakOrder c) where
    sift-All : (P : A → Type 0) (x : A) (ps : List A) → P x → All P ps → All P (sift c x ps)
    sift-All P x [] h k = (h, k)
    sift-All P x (p ∷ ps) h k = elim (Bool-cases (c x p)) [
      | inl e ↦ rw e (k.0, sift-All P x ps h k.1)
      | inr e ↦ rw e (h, k)
    ]

    sift-Descending : (x : A) (ps : List A) → Descending c ps → Descending c (sift c x ps)
    sift-Descending x [] d = (tt, tt)
    sift-Descending x (p ∷ ps) d = elim (Bool-cases (c x p)) [
      | inl e ↦
          rw e
            (sift-All (λ q. c p q ≡ false) x ps (o.asymmetric x p e) d.0, sift-Descending x ps d.1)
      | inr e ↦ rw e ((e, All-map _ _ ps (λ q f. le_trans c o q p x f e) d.0), d)
    ]

    filter-sift :
        (k x : A) (ps : List A) → filter (alike c k) (sift c x ps) ≡ filter (alike c k) (x ∷ ps)
    filter-sift k x [] = refl
    filter-sift k x (p ∷ ps) = elim (Bool-cases (c x p)) [
      | inl e ↦ rw e (
          ap (λ l. if alike c k p then p ∷ l else l) (filter-sift k x ps)
          ∙ filter-swap c o k x p ps e)
      | inr e ↦ rw e refl
    ]

    inserted-Descending : (ps xs : List A) → Descending c ps → Descending c (inserted ps xs)
    inserted-Descending ps [] d = d
    inserted-Descending ps (x ∷ xs) d =
        inserted-Descending (sift c x ps) xs (sift-Descending x ps d)

    filter-inserted :
        (k : A) (ps xs : List A)
        → filter (alike c k) (inserted ps xs)
          ≡ reverse_aux (filter (alike c k) xs) (filter (alike c k) ps)
    filter-inserted k ps [] = refl
    filter-inserted k ps (x ∷ xs) =
        filter-inserted k (sift c x ps) xs
        ∙ ap (reverse_aux (filter (alike c k) xs)) (filter-sift k x ps)
        ∙ elim (Bool-cases (alike c k x)) [ inl e ↦ rw e refl | inr e ↦ rw e refl ]

    pub sorted-Sorts : (xs : List A) → Sorts c xs (reverse (inserted [] xs))
    sorted-Sorts xs = record {
      ascending = reverse-Ascending _ (inserted-Descending [] xs tt);
      same = λ k.
          filter-reverse_aux (alike c k) (inserted [] xs) []
          ∙ ap reverse (filter-inserted k [] xs)
          ∙ reverse-reverse (filter (alike c k) xs);
    }

    -- For a comparison that is a strict weak order and a `count` that is at most the number of
    -- elements, `insertion_sort_n` reads no element behind the last one, and is a stable sort of
    -- the first `count` elements: they become ascending, and those alike with any given one are the
    -- same as before and in the same order. The elements behind them stay.
    pub insertion_sort_n-Sorts :
        (count : ℕ) (xs : List A)
        → count ≤ length xs
        → (r : List A × List A) × (insertion_sort_n c count xs ≡ some r)
          × Sorts c (take count xs) r.0
          × (r.1 ≡ drop count xs)
    insertion_sort_n-Sorts count xs h =
        (_, insertion_sort_n_lem count xs h, sorted-Sorts (take count xs), refl)
