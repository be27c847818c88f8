-- ===== src/Algorithm/Reversal.antt =====
-- `reverse_sort` of seq/algorithm.hpp: what stands in front of `begin` is, nearest first, sorted.
use seq.Prelude.{
  ◌≡◌, refl, ap, sym, subst, ◌∙◌, inl, inr, Bool, true, false, Bool-cases, List, [], ◌∷◌, ◌++◌,
  append-nil, append_assoc,
}
use seq.Algorithm.{descend, level, reverse_sort}
use seq.Algorithm.Stable.{
  filter, All, All-map, All-append, filter-append, filter-move, WeakOrder, alike, Ascending,
  Descending, Sorts, irreflexive, le_trans, lt-le_trans, le-lt_trans,
}

module _ {A : Type 0} (c : A → A → Bool) (o : WeakOrder c) where
  -- Neither of the two elements stands before the other.
  abbrev Level : A → A → Type 0
  Level start z = (c z start ≡ false) × (c start z ≡ false)

  -- What a list is sorted to, in front of the elements to come.
  abbrev Gives : List A → List A → List A → Type 0
  Gives zs ps xs =
      Ascending c zs
      × ((k : A) → filter (alike c k) zs ≡ filter (alike c k) ps ++ filter (alike c k) xs)

  strict-Ascending :
      (x : A) (ps : List A) → All (λ q. c x q ≡ true) ps → Ascending c ps → Ascending c (x ∷ ps)
  strict-Ascending x ps h a = (All-map _ _ ps (λ q e. o.asymmetric x q e) h, a)

  -- A lesser element may go in front.
  filter-behind :
      (k x : A) (ps xs : List A)
      → All (λ q. c x q ≡ true) ps
      → filter (alike c k) (x ∷ ps) ++ filter (alike c k) xs
        ≡ filter (alike c k) ps ++ filter (alike c k) (x ∷ xs)
  filter-behind k x ps xs h =
      sym (filter-append (alike c k) (x ∷ ps) xs)
      ∙ sym (filter-move c o k x ps xs h)
      ∙ filter-append (alike c k) ps (x ∷ xs)

  -- Equal elements in front of greater ones.
  Level-Ascending :
      (start : A) (run before : List A)
      → All (Level start) run
      → All (λ q. c start q ≡ true) before
      → Ascending c before
      → Ascending c (run ++ before)
  Level-Ascending start [] before r h a = a
  Level-Ascending start (z ∷ run) before r h a = (
    All-append _ run before (All-map _ _ run (λ y l. le_trans c o z start y r.0.1 l.0) r.1)
        (All-map _ _ before (λ q e. o.asymmetric z q (le-lt_trans c o z start q r.0.1 e)) h),
    Level-Ascending start run before r.1 h a,
  )

  -- An element that goes behind equal ones, and in front of greater ones.
  extend :
      (k : A) (run : List A) (x : A) (before xs : List A)
      → All (λ q. c x q ≡ true) before
      → filter (alike c k) (run ++ x ∷ before) ++ filter (alike c k) xs
        ≡ filter (alike c k) (run ++ before) ++ filter (alike c k) (x ∷ xs)
  extend k run x before xs h =
      ap (λ l. l ++ filter (alike c k) xs) (filter-append (alike c k) run (x ∷ before))
      ∙ append_assoc (filter (alike c k) run) _ _
      ∙ ap (λ l. filter (alike c k) run ++ l) (filter-behind k x before xs h)
      ∙ sym (append_assoc (filter (alike c k) run) _ _)
      ∙ ap (λ l. l ++ filter (alike c k) (x ∷ xs)) (sym (filter-append (alike c k) run before))

  -- What `start` stands before, an element that is not greater stands before too.
  under :
      (start x : A) (before : List A)
      → c start x ≡ false
      → All (λ q. c start q ≡ true) before
      → All (λ q. c x q ≡ true) before
  under start x before b h = All-map _ _ before (λ q l. le-lt_trans c o x start q b l) h

  run-Ascending :
      (start : A) (between : List A) (prev : A) (before : List A)
      → All (Level start) between
      → Level start prev
      → All (λ q. c start q ≡ true) before
      → Ascending c before
      → Ascending c (start ∷ (between ++ prev ∷ before))
  run-Ascending start between prev before rb rp h a =
      subst (λ l. Ascending c (start ∷ l)) (append_assoc between (prev ∷ []) before)
        (Level-Ascending start (start ∷ (between ++ prev ∷ [])) before
          (
            (irreflexive c o start, irreflexive c o start),
            All-append _ between (prev ∷ []) rb (rp, tt),
          )
          h a)

  mutual
    descend-Gives :
        (prev : A) (before xs : List A)
        → All (λ q. c prev q ≡ true) before
        → Ascending c before
        → All (λ x. c prev x ≡ false) xs
        → Descending c xs
        → Gives (descend c prev before xs) (prev ∷ before) xs
    descend-Gives prev before [] h a b d =
        (strict-Ascending prev before h a, λ k. sym (append-nil _))
    descend-Gives prev before (x ∷ xs) h a b d = elim (Bool-cases (c x prev)) [
      | inl e ↦
          let s : All (λ q. c x q ≡ true) (prev ∷ before) = (e, under prev x before b.0 h) in
          let r = descend-Gives x (prev ∷ before) xs s (strict-Ascending prev before h a) d.0 d.1 in
          rw e (r.0, λ k. r.1 k ∙ filter-behind k x (prev ∷ before) xs s)
      | inr e ↦
          let r = level-Gives prev [] x before xs tt (e, b.0) h a b.1 d.1 in
          rw e (r.0, λ k. r.1 k ∙ extend k (prev ∷ []) x before xs (under prev x before b.0 h))
    ]

    level-Gives :
        (start : A) (between : List A) (prev : A) (before xs : List A)
        → All (Level start) between
        → Level start prev
        → All (λ q. c start q ≡ true) before
        → Ascending c before
        → All (λ x. c start x ≡ false) xs
        → Descending c xs
        → Gives (level c start between prev before xs) (start ∷ (between ++ prev ∷ before)) xs
    level-Gives start between prev before [] rb rp h a b d =
        (run-Ascending start between prev before rb rp h a, λ k. sym (append-nil _))
    level-Gives start between prev before (x ∷ xs) rb rp h a b d = elim (Bool-cases (c x prev)) [
      | inl e ↦
          let f = lt-le_trans c o x prev start e rp.1 in
          let s : All (λ q. c x q ≡ true) (start ∷ (between ++ prev ∷ before)) = (
            f,
            All-append _ between (prev ∷ before)
                (All-map _ _ between (λ z l. lt-le_trans c o x start z f l.0) rb)
                (e, under start x before b.0 h),
          ) in
          let r =
            descend-Gives x (start ∷ (between ++ prev ∷ before)) xs s
              (run-Ascending start between prev before rb rp h a) d.0 d.1 in
          rw (e, f) (r.0, λ k. r.1 k ∙ filter-behind k x (start ∷ (between ++ prev ∷ before)) xs s)
      | inr e ↦
          let r =
            level-Gives start (between ++ prev ∷ []) x before xs
              (All-append _ between (prev ∷ []) rb (rp, tt)) (le_trans c o start prev x rp.0 e, b.0)
              h a b.1 d.1 in
          rw e (
            r.0,
            λ k.
                r.1 k
                ∙ extend k (start ∷ (between ++ prev ∷ [])) x before xs (under start x before b.0 h)
                ∙ ap (λ l. filter (alike c k) (start ∷ l) ++ filter (alike c k) (x ∷ xs))
                    (append_assoc between (prev ∷ []) before),
          )
    ]

  -- For a comparison that is a strict weak order and a descending range, which may hold equal
  -- elements, `reverse_sort` is a stable sort: the range becomes ascending, and the elements alike
  -- with any given one are the same as before and in the same order.
  pub reverse_sort-Sorts : (xs : List A) → Descending c xs → Sorts c xs (reverse_sort c xs)
  reverse_sort-Sorts [] d = record { ascending = tt; same = λ k. refl }
  reverse_sort-Sorts (x ∷ xs) d =
      let r = descend-Gives x [] xs tt tt d.0 d.1 in
      record { ascending = r.0; same = λ k. r.1 k ∙ sym (filter-append (alike c k) (x ∷ []) xs) }
