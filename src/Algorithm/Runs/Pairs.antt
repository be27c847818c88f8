-- ===== src/Algorithm/Runs/Pairs.antt =====
-- seq/algorithm.hpp: the merges of two, three and four sorted runs.
use seq.Prelude.{
  ◌≡◌, refl, ap₂, sym, subst, ◌∙◌, inl, inr, Bool, true, false, not, ◌&&◌, Bool-cases, ℕ, ◌+◌, ◌<◌,
  List, [], ◌∷◌, ◌++◌, length, append-nil, append_assoc, leb, arith,
}
use seq.BinarySearch.Bound.{Partitioned, IsBound}
use seq.Algorithm.Stable.{filter, filter-append, WeakOrder, alike, Ascending, Sorts, irreflexive}
use seq.Algorithm.Merging.{merge}
use seq.Algorithm.Merging.Forward.{merge_forward-merge, merge-Ascending, filter-merge}
use seq.Algorithm.Inplace.Checks.{merge-in_order}
use seq.Algorithm.Inplace.Merged.{merge_adaptive-merge}
use seq.Algorithm.Runs.{
  out_of_order, merge_pair, merge_inplace, ping_pong_merge_4, ping_pong_merge_3,
}

all_not :
    (a b d : Bool) → (not a && (not b && not d)) ≡ true → (a ≡ false) × (b ≡ false) × (d ≡ false)
all_not false false false e = (refl, refl, refl)
all_not false false true e = absurd cc
all_not false true d e = absurd cc
all_not true b d e = absurd cc

both_not : (a b : Bool) → (not a && not b) ≡ true → (a ≡ false) × (b ≡ false)
both_not false false e = (refl, refl)
both_not false true e = absurd cc
both_not true b e = absurd cc

module _ {A : Type 0} (c : A → A → Bool) where
  -- A sorted run that is not empty.
  abbrev pub IsRun : List A → Type 0
  IsRun xs = (0 < length xs) × Ascending c xs

module _ {A : Type 0} (c : A → A → Bool) (o : WeakOrder c) where
  -- The elements alike with any given one are the same, in the same order.
  abbrev pub Same : List A → List A → Type 0
  Same xs us = (k : A) → filter (alike c k) us ≡ filter (alike c k) xs

  pub Same-append : (xs ys us vs : List A) → Same xs us → Same ys vs → Same (xs ++ ys) (us ++ vs)
  Same-append xs ys us vs s t k =
      filter-append (alike c k) us vs
      ∙ ap₂ (λ l m. l ++ m) (s k) (t k)
      ∙ sym (filter-append (alike c k) xs ys)

  pub merge-Sorts :
      (xs ys us vs : List A) → Sorts c xs us → Sorts c ys vs → Sorts c (xs ++ ys) (merge c us vs)
  merge-Sorts xs ys us vs s t = record {
    ascending = merge-Ascending c o us vs s.ascending t.ascending;
    same = λ k. filter-merge c o k us vs s.ascending ∙ Same-append xs ys us vs s.same t.same k;
  }

  pub Sorts-self : (xs : List A) → Ascending c xs → Sorts c xs xs
  Sorts-self xs a = record { ascending = a; same = λ k. refl }

  -- A list that is sorted again.
  pub Sorts-trans : (xs ys zs : List A) → Same xs ys → Sorts c ys zs → Sorts c xs zs
  Sorts-trans xs ys zs h t = record { ascending = t.ascending; same = λ k. t.same k ∙ h k }

  in_order-Ascending :
      (xs ys : List A)
      → Ascending c xs
      → Ascending c ys
      → out_of_order c xs ys ≡ false
      → merge c xs ys ≡ xs ++ ys
  in_order-Ascending [] ys a b e = refl
  in_order-Ascending (x ∷ xs) [] a b e = sym (append-nil (x ∷ xs))
  in_order-Ascending (x ∷ xs) (y ∷ ys) a b e = merge-in_order c o x xs y ys a b e

  pub Sorts-IsRun : (xs zs : List A) → 0 < length xs → Sorts c xs zs → IsRun c zs
  Sorts-IsRun [] zs h s = absurd (omega arith)
  Sorts-IsRun (x ∷ xs) (z ∷ zs) h s = (omega arith, s.ascending)
  Sorts-IsRun (x ∷ xs) [] h s =
      let none_left = s.same x in
      let never = irreflexive c o x in
      let head : filter (alike c x) (x ∷ xs) ≡ x ∷ filter (alike c x) xs = rw never refl in
      absurd cc

  chain :
      (xs ys zs : List A)
      → IsRun c xs
      → IsRun c ys
      → out_of_order c xs ys ≡ false
      → Ascending c (ys ++ zs)
      → Ascending c (xs ++ (ys ++ zs))
  chain xs [] zs r s e a = absurd (omega (arith, s.0))
  chain [] (y ∷ ys) zs r s e a = a
  chain (x ∷ xs) (y ∷ ys) zs r s e a =
      subst (Ascending c) (merge-in_order c o x xs y (ys ++ zs) r.1 a e)
        (merge-Ascending c o (x ∷ xs) (y ∷ (ys ++ zs)) r.1 a)

  module _ (search : (A → Bool) → List A → ℕ) (random : Bool)
      (finds : (p : A → Bool) (xs : List A) → Partitioned p xs → IsBound p xs (search p xs)) where
    merge_pair-Sorts :
        (access : Bool) (xs ys us vs : List A)
        → Sorts c xs us
        → Sorts c ys vs
        → Sorts c (xs ++ ys) (merge_pair c search random access us vs)
    merge_pair-Sorts access xs ys us vs s t = elim (Bool-cases (out_of_order c us vs)) [
      | inl e ↦ rw e (
          subst (Sorts c (xs ++ ys))
            (sym (merge_forward-merge c o search finds access us vs s.ascending t.ascending))
            (merge-Sorts xs ys us vs s t))
      | inr e ↦ rw e (
          subst (Sorts c (xs ++ ys)) (in_order-Ascending us vs s.ascending t.ascending e)
            (merge-Sorts xs ys us vs s t))
    ]

    pub merge_inplace-Sorts :
        (size : ℕ) (xs ys us vs : List A)
        → Sorts c xs us
        → Sorts c ys vs
        → Sorts c (xs ++ ys) (merge_inplace c search random size us vs)
    merge_inplace-Sorts size xs ys us vs s t =
        subst (Sorts c (xs ++ ys))
          (sym (
            merge_adaptive-merge c o search random finds (length us + length vs) size us vs
              s.ascending t.ascending (omega arith)))
          (merge-Sorts xs ys us vs s t)

    -- A function that merges what is sorted.
    abbrev Merges : (List A → List A → List A) → Type 0
    Merges merge_two =
        (xs ys us vs : List A)
        → Sorts c xs us
        → Sorts c ys vs
        → Sorts c (xs ++ ys) (merge_two us vs)

    pair_of_pairs :
        (merge_all merge_two : List A → List A → List A)
        → Merges merge_all
        → Merges merge_two
        → (r0 r1 r2 r3 : List A) → IsRun c r0
        → IsRun c r1
        → IsRun c r2
        → IsRun c r3
        → Sorts c (r0 ++ (r1 ++ (r2 ++ r3))) (merge_all (merge_two r0 r1) (merge_two r2 r3))
    pair_of_pairs merge_all merge_two g f r0 r1 r2 r3 h0 h1 h2 h3 =
        subst (λ l. Sorts c l (merge_all (merge_two r0 r1) (merge_two r2 r3)))
          (append_assoc r0 r1 (r2 ++ r3))
          (g (r0 ++ r1) (r2 ++ r3) _ _ (f r0 r1 r0 r1 (Sorts-self r0 h0.1) (Sorts-self r1 h1.1))
            (f r2 r3 r2 r3 (Sorts-self r2 h2.1) (Sorts-self r3 h3.1)))

    pair_and_third :
        (merge_all merge_two : List A → List A → List A)
        → Merges merge_all
        → Merges merge_two
        → (r0 r1 r2 : List A) → IsRun c r0
        → IsRun c r1
        → IsRun c r2
        → Sorts c (r0 ++ (r1 ++ r2)) (merge_all (merge_two r0 r1) r2)
    pair_and_third merge_all merge_two g f r0 r1 r2 h0 h1 h2 =
        subst (λ l. Sorts c l (merge_all (merge_two r0 r1) r2)) (append_assoc r0 r1 r2)
          (g (r0 ++ r1) r2 _ _ (f r0 r1 r0 r1 (Sorts-self r0 h0.1) (Sorts-self r1 h1.1))
            (Sorts-self r2 h2.1))

    in_order-two :
        (r0 r1 : List A)
        → IsRun c r0
        → IsRun c r1
        → out_of_order c r0 r1 ≡ false
        → Ascending c (r0 ++ r1)
    in_order-two r0 r1 h0 h1 e =
        subst (Ascending c) (in_order-Ascending r0 r1 h0.1 h1.1 e)
          (merge-Ascending c o r0 r1 h0.1 h1.1)

    pub ping_pong_merge_4-Sorts :
        (size : ℕ) (r0 r1 r2 r3 : List A)
        → IsRun c r0
        → IsRun c r1
        → IsRun c r2
        → IsRun c r3
        → Sorts c (r0 ++ (r1 ++ (r2 ++ r3))) (ping_pong_merge_4 c search random size r0 r1 r2 r3)
    ping_pong_merge_4-Sorts size r0 r1 r2 r3 h0 h1 h2 h3 =
        elim (Bool-cases (leb (length r0 + length r1 + length r2 + length r3) size)) [
          | inr e ↦ rw e (
              pair_of_pairs (merge_inplace c search random size)
                (merge_inplace c search random size) (merge_inplace-Sorts size)
                (merge_inplace-Sorts size) r0 r1 r2 r3 h0 h1 h2 h3)
          | inl e ↦
              elim (Bool-cases (
                not (out_of_order c r0 r1)
                && (not (out_of_order c r1 r2) && not (out_of_order c r2 r3)))) [
                  | inr f ↦
                      rw (e, f)
                        (pair_of_pairs (merge_pair c search random true)
                          (merge_pair c search random random) (merge_pair-Sorts true)
                          (merge_pair-Sorts random) r0 r1 r2 r3 h0 h1 h2 h3)
                  | inl f ↦
                      let g = all_not _ _ _ f in
                      rw (e, f)
                        (Sorts-self _ (
                          chain r0 r1 (r2 ++ r3) h0 h1 g.0
                            (chain r1 r2 r3 h1 h2 g.1 (in_order-two r2 r3 h2 h3 g.2))))
                ]
        ]

    pub ping_pong_merge_3-Sorts :
        (size : ℕ) (r0 r1 r2 : List A)
        → IsRun c r0
        → IsRun c r1
        → IsRun c r2
        → Sorts c (r0 ++ (r1 ++ r2)) (ping_pong_merge_3 c search random size r0 r1 r2)
    ping_pong_merge_3-Sorts size r0 r1 r2 h0 h1 h2 =
        elim (Bool-cases (leb (length r0 + length r1) size)) [
          | inr e ↦ rw e (
              pair_and_third (merge_inplace c search random size)
                (merge_inplace c search random size) (merge_inplace-Sorts size)
                (merge_inplace-Sorts size) r0 r1 r2 h0 h1 h2)
          | inl e ↦ elim (Bool-cases (not (out_of_order c r0 r1) && not (out_of_order c r1 r2))) [
            | inr f ↦
                rw (e, f)
                  (pair_and_third (merge_pair c search random random)
                    (merge_pair c search random random) (merge_pair-Sorts random)
                    (merge_pair-Sorts random) r0 r1 r2 h0 h1 h2)
            | inl f ↦
                let g = both_not _ _ f in
                rw (e, f) (Sorts-self _ (chain r0 r1 r2 h0 h1 g.0 (in_order-two r1 r2 h1 h2 g.1)))
          ]
        ]
