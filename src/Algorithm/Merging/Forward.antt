-- ===== src/Algorithm/Merging/Forward.antt =====
-- `merge_forward` of seq/algorithm.hpp: a stable merge, whichever way the sizes choose.
use seq.Prelude.{
  ◌≡◌, refl, ap, ap₂, sym, subst, ◌∙◌, inl, inr, Bool, true, false, not, ◌&&◌, Bool-cases, ℕ, zero,
  suc, ◌*◌, ◌≤◌, List, [], ◌∷◌, ◌++◌, length, take, drop, append-nil, ltb, if◌then◌else◌, arith,
}
use seq.BinarySearch.Bound.{Partitioned, IsBound}
use seq.Algorithm.{span, merge_small_left, merge_small_right, merge_forward}
use seq.Algorithm.Stable.{
  filter, All, All-map, filter-move, WeakOrder, alike, Ascending, Sorts, le_trans, lt-le_trans,
}
use seq.Algorithm.Merging.{
  merge, merge-nil, merge-take, merge-keep, merge-span_left, merge-span_right, merge-next,
  merge-next_right, length-span, list-cases, merge_loop-merge,
}
use seq.Algorithm.Merging.Bound.{
  IsBound-span, drop-Ascending, before-Partitioned, behind-Partitioned,
}

module _ {A : Type 0} (c : A → A → Bool) (o : WeakOrder c) where
  merge-All : (P : A → Type 0) (xs ys : List A) → All P xs → All P ys → All P (merge c xs ys)
  merge-All P [] ys h k = k
  merge-All P (x ∷ xs) [] h k = h
  merge-All P (x ∷ xs) (y ∷ ys) h k = elim (Bool-cases (c y x)) [
    | inl e ↦ rw (merge, e) (k.0, merge-All P (x ∷ xs) ys h k.1)
    | inr e ↦ rw (merge, e) (h.0, merge-All P xs (y ∷ ys) h.1 k)
  ]

  under_first :
      (y x : A) (xs : List A)
      → c y x ≡ true
      → All (λ z. c z x ≡ false) xs
      → All (λ z. c y z ≡ true) (x ∷ xs)
  under_first y x xs e a = (e, All-map _ _ xs (λ z f. lt-le_trans c o y x z e f) a)

  pub merge-Ascending :
      (xs ys : List A) → Ascending c xs → Ascending c ys → Ascending c (merge c xs ys)
  merge-Ascending [] ys a b = b
  merge-Ascending (x ∷ xs) [] a b = a
  merge-Ascending (x ∷ xs) (y ∷ ys) a b = elim (Bool-cases (c y x)) [
    | inl e ↦
        rw (merge, e)
          (
            merge-All _ (x ∷ xs) ys
                (All-map _ _ (x ∷ xs) (λ z f. o.asymmetric y z f) (under_first y x xs e a.0)) b.0,
            merge-Ascending (x ∷ xs) ys a b.1,
          )
    | inr e ↦
        rw (merge, e)
          (
            merge-All _ xs (y ∷ ys) a.0 (e, All-map _ _ ys (λ z f. le_trans c o x y z e f) b.0),
            merge-Ascending xs (y ∷ ys) a.1 b,
          )
  ]

  pub filter-merge :
      (k : A) (xs ys : List A)
      → Ascending c xs
      → filter (alike c k) (merge c xs ys) ≡ filter (alike c k) (xs ++ ys)
  filter-merge k [] ys a = refl
  filter-merge k (x ∷ xs) [] a = ap (filter (alike c k)) (sym (append-nil (x ∷ xs)))
  filter-merge k (x ∷ xs) (y ∷ ys) a = elim (Bool-cases (c y x)) [
    | inl e ↦
        ap (filter (alike c k)) (merge-take c x y xs ys e)
        ∙ ap (λ l. if alike c k y then y ∷ l else l) (filter-merge k (x ∷ xs) ys a)
        ∙ sym (filter-move c o k y (x ∷ xs) ys (under_first y x xs e a.0))
    | inr e ↦
        ap (filter (alike c k)) (merge-keep c x y xs ys e)
        ∙ ap (λ l. if alike c k x then x ∷ l else l) (filter-merge k xs (y ∷ ys) a.1)
  ]

  module _ (search : (A → Bool) → List A → ℕ)
      (finds : (p : A → Bool) (xs : List A) → Partitioned p xs → IsBound p xs (search p xs)) where
    merge_small_left-merge :
        (n : ℕ) (xs ys : List A)
        → length xs ≤ n
        → Ascending c ys
        → merge_small_left c search n xs ys ≡ merge c xs ys
    merge_small_left-merge zero [] ys h b = refl
    merge_small_left-merge zero (x ∷ xs) ys h b = absurd (omega arith)
    merge_small_left-merge (suc n) [] ys h b = refl
    merge_small_left-merge (suc n) (x ∷ xs) [] h b =
        ap (λ l. x ∷ l) (merge_small_left-merge n xs [] (omega arith) b ∙ merge-nil c xs)
    merge_small_left-merge (suc n) (x ∷ xs) (y ∷ ys) h b =
        let s = span (λ z. not (c y z)) (x ∷ xs) in
        elim (list-cases s.1) [
          | inl ended ↦
              rw (merge_small_left, ended)
                (sym (merge-span_left c y (x ∷ xs) ys ∙ ap (λ l. s.0 ++ merge c l (y ∷ ys)) ended))
          | inr next ↦
              let before : A → Bool = λ z. c z next.0 in
              let found = search before (y ∷ ys) in
              let parts =
                IsBound-span before (y ∷ ys) found
                  (finds before (y ∷ ys) (before-Partitioned c o (y ∷ ys) b next.0)) in
              let shorter = length-span (λ z. not (c y z)) (x ∷ xs) in
              let size = ap length next.2 in
              rw (merge_small_left, next.2)
                (ap (λ l. s.0 ++ (take found (y ∷ ys) ++ next.0 ∷ l))
                    (merge_small_left-merge n next.1 (drop found (y ∷ ys))
                      (omega (arith, shorter, size)) (drop-Ascending c found (y ∷ ys) b))
                  ∙ ap₂ (λ l m. s.0 ++ (l ++ next.0 ∷ merge c next.1 m)) parts.0 parts.1
                  ∙ sym (
                      merge-span_left c y (x ∷ xs) ys
                      ∙ ap (λ l. s.0 ++ merge c l (y ∷ ys)) next.2
                      ∙ ap (λ l. s.0 ++ l) (merge-next c next.0 next.1 (y ∷ ys))))
        ]

    merge_small_right-merge :
        (n : ℕ) (xs ys : List A)
        → length ys ≤ n
        → Ascending c xs
        → merge_small_right c search n xs ys ≡ merge c xs ys
    merge_small_right-merge zero xs [] h a = append-nil xs ∙ sym (merge-nil c xs)
    merge_small_right-merge zero xs (y ∷ ys) h a = absurd (omega arith)
    merge_small_right-merge (suc n) xs [] h a = sym (merge-nil c xs)
    merge_small_right-merge (suc n) [] (y ∷ ys) h a =
        ap (λ l. y ∷ l) (merge_small_right-merge n [] ys (omega arith) a)
    merge_small_right-merge (suc n) (x ∷ xs) (y ∷ ys) h a =
        let s = span (λ z. c z x) (y ∷ ys) in
        elim (list-cases s.1) [
          | inl ended ↦
              rw (merge_small_right, ended)
                (sym (
                  merge-next c x xs (y ∷ ys)
                  ∙ ap (λ l. s.0 ++ x ∷ merge c xs l) ended
                  ∙ ap (λ l. s.0 ++ x ∷ l) (merge-nil c xs)))
          | inr next ↦
              let behind : A → Bool = λ z. not (c next.0 z) in
              let found = search behind (x ∷ xs) in
              let parts =
                IsBound-span behind (x ∷ xs) found
                  (finds behind (x ∷ xs) (behind-Partitioned c o (x ∷ xs) a next.0)) in
              let shorter = length-span (λ z. c z x) (y ∷ ys) in
              let size = ap length next.2 in
              rw (merge_small_right, next.2)
                (ap (λ l. s.0 ++ (take found (x ∷ xs) ++ next.0 ∷ l))
                    (merge_small_right-merge n (drop found (x ∷ xs)) next.1
                      (omega (arith, shorter, size)) (drop-Ascending c found (x ∷ xs) a))
                  ∙ ap₂ (λ l m. s.0 ++ (l ++ next.0 ∷ merge c m next.1)) parts.0 parts.1
                  ∙ sym (
                      merge-span_right c x xs (y ∷ ys)
                      ∙ ap (λ l. s.0 ++ merge c (x ∷ xs) l) next.2
                      ∙ ap (λ l. s.0 ++ l) (merge-next_right c next.0 (x ∷ xs) next.1)))
        ]

    pub merge_forward-merge :
        (random : Bool) (xs ys : List A)
        → Ascending c xs
        → Ascending c ys
        → merge_forward c search random xs ys ≡ merge c xs ys
    merge_forward-merge random xs ys a b =
        elim (Bool-cases (random && ltb (length xs * 32) (length ys))) [
          | inl e ↦ rw e (merge_small_left-merge (length xs) xs ys (omega arith) b)
          | inr e ↦ elim (Bool-cases (random && ltb (length ys * 32) (length xs))) [
            | inl f ↦ rw (e, f) (merge_small_right-merge (length ys) xs ys (omega arith) a)
            | inr f ↦ rw (e, f) (merge_loop-merge c (length ys) xs ys (omega arith))
          ]
        ]

    -- For a comparison that is a strict weak order, a search that finds the bound in every
    -- partitioned range, and two ascending ranges of any sizes, with random access or without,
    -- `merge_forward` is a stable merge: its result is ascending, and the elements alike with any
    -- given one are those of the first range and then those of the second, in their order.
    pub merge_forward-Sorts :
        (random : Bool) (xs ys : List A)
        → Ascending c xs
        → Ascending c ys
        → Sorts c (xs ++ ys) (merge_forward c search random xs ys)
    merge_forward-Sorts random xs ys a b =
        subst (Sorts c (xs ++ ys)) (sym (merge_forward-merge random xs ys a b))
          (record { ascending = merge-Ascending xs ys a b; same = λ k. filter-merge k xs ys a })
