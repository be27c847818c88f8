-- ===== src/BucketManager/Insertion/Right.antt =====
-- The insertion on the right side, which hands values to the buckets behind.
use seq.Prelude.{
  ℕ, ◌+◌, ◌<◌, ◌≡◌, refl, ap, ap₂, sym, ◌∙◌, inl, inr, false, Bool-cases, ltb, ◌==◌, arith, subst,
  List, [], ◌∷◌, ◌++◌, append_assoc, append-nil, some, length, length-append, concat, concat-append,
  unsnoc,
}
use seq.BucketManager.{settle_last, insert_right_in}
use seq.BucketManager.Bucket.{emplace_at}
use seq.BucketManager.Spine.{Spine, Spine-grow, Spine-back, Spine-behind, Spine-within}
use seq.BucketManager.Locate.{sizes}
use seq.BucketManager.Propagate.{propagate_right_lem, unsnoc-Ends}
use seq.BucketManager.Insertion.{
  sizes-append, Yields, after, grow-Yields, length-emplace_at, emplace_at-right,
}

module _ {A : Type 0} (n : ℕ) (positive : 0 < n) where
  settle_last-Yields :
      (ls : List ℕ) (last : List A) (t : A)
      → Spine n (ls ++ length last ∷ [])
      → (r : List (List A)) × (settle_last n t last ≡ some r)
        × Spine n (ls ++ sizes r)
        × (concat r ≡ t ∷ last)
  settle_last-Yields ls last t spine = elim (Bool-cases (length last == n)) [
    | inl full ↦
        let e : length last ≡ n = ground arith in
        let u = unsnoc-Ends last (omega (arith, e)) in
        (
          (t ∷ u.0) ∷ (u.1 ∷ []) ∷ [],
          rw (full, u.2) refl,
          subst (λ l. Spine n (ls ++ l ∷ 1 ∷ []))
              (ap length u.3 ∙ length-append u.0 (u.1 ∷ []) ∙ omega arith)
              (Spine-back n ls (length last) positive e spine),
          ap (λ l. t ∷ l) (sym u.3),
        )
    | inr other ↦ (
      (t ∷ last) ∷ [],
      rw other refl,
      subst (λ l. Spine n (ls ++ l ∷ [])) {x = length last + 1} (omega arith)
          (Spine-grow n ls (length last) []
            (let w = Spine-within n ls (length last) [] spine in ground (arith, w)) spine),
      ap (λ l. t ∷ l) (append-nil last),
    )
  ]

  module _ (before : List (List A)) (b : List A) (i : ℕ) (v : A) (inside : i < length b)
      (full : length b ≡ n) where
    -- What stays in the full bucket, and the element that goes on.
    popped :
        (ys : List A) × (y : A) × (unsnoc b ≡ some (ys, y))
        × (emplace_at i v ys ++ y ∷ [] ≡ emplace_at i v b)
        × (length b ≡ length (emplace_at i v ys))
    popped =
        let u = unsnoc-Ends b (omega arith) in
        let count : length b ≡ length u.0 + 1 = ap length u.3 ∙ length-append u.0 (u.1 ∷ []) in
        (
          u.0,
          u.1,
          u.2,
          sym (
              ap (emplace_at i v) u.3 ∙ emplace_at-right u.0 i v (u.1 ∷ []) (omega (arith, count))),
          omega (arith, count, length-emplace_at i v u.0),
        )

    not_less : ltb (length b) n ≡ false
    not_less = ground (arith, full)

    full_last-Yields :
        Spine n (sizes before ++ length b ∷ [])
        → Yields n (insert_right_in n i v before b []) (after before b [] i v)
    unfolding insert_right_in
    full_last-Yields spine =
        let p = popped in
        (
          before ++ emplace_at i v p.0 ∷ (p.1 ∷ []) ∷ [],
          rw (insert_right_in, not_less, p.2) refl,
          subst (Spine n)
              (ap (λ l. sizes before ++ l ∷ 1 ∷ []) p.4
                ∙ sym (sizes-append before (emplace_at i v p.0 ∷ (p.1 ∷ []) ∷ [])))
              (Spine-back n (sizes before) (length b) positive full spine),
          concat-append before (emplace_at i v p.0 ∷ (p.1 ∷ []) ∷ [])
              ∙ ap (λ l. concat before ++ l) (p.3 ∙ sym (append-nil (emplace_at i v b))),
        )

    full_right-Yields :
        (behind middle : List (List A)) (last : List A)
        → behind ≡ middle ++ last ∷ []
        → unsnoc behind ≡ some (middle, last)
        → Spine n (sizes before ++ length b ∷ sizes behind)
        → Yields n (insert_right_in n i v before b behind) (after before b behind i v)
    unfolding insert_right_in
    full_right-Yields behind middle last split ends spine =
        let p = popped in
        let stay = emplace_at i v p.0 in
        let lengths : sizes behind ≡ sizes middle ++ length last ∷ [] =
          ap sizes split ∙ sizes-append middle (last ∷ []) in
        let spine' = subst (λ l. Spine n (sizes before ++ length b ∷ l)) lengths spine in
        let e =
          propagate_right_lem n positive (length last) [] middle p.1
            (Spine-behind n (sizes before) (length b) (sizes middle) (length last) [] spine') in
        let ls = sizes before ++ length b ∷ sizes middle in
        let s = settle_last-Yields ls last e.0.1 (
          subst (Spine n)
            (sym (append_assoc (sizes before) (length b ∷ sizes middle) (length last ∷ [])))
            spine') in
        let shape : ls ++ sizes s.0 ≡ sizes (before ++ stay ∷ (e.0.0 ++ s.0)) =
          append_assoc (sizes before) (length b ∷ sizes middle) (sizes s.0)
          ∙ ap₂ (λ l k. sizes before ++ l ∷ k) p.4
              (ap (λ l. l ++ sizes s.0) (sym e.2) ∙ sym (sizes-append e.0.0 s.0))
          ∙ sym (sizes-append before (stay ∷ (e.0.0 ++ s.0))) in
        let tail : concat (e.0.0 ++ s.0) ≡ p.1 ∷ concat behind =
          concat-append e.0.0 s.0
          ∙ ap (λ l. concat e.0.0 ++ l) s.3
          ∙ sym (append_assoc (concat e.0.0) (e.0.1 ∷ []) last)
          ∙ ap (λ l. l ++ last) e.3
          ∙ ap (λ l. p.1 ∷ l)
              (ap (λ l. concat middle ++ l) (sym (append-nil last))
                ∙ sym (concat-append middle (last ∷ []))
                ∙ ap concat (sym split)) in
        let all : stay ++ concat (e.0.0 ++ s.0) ≡ emplace_at i v b ++ concat behind =
          ap (λ l. stay ++ l) tail
          ∙ sym (append_assoc stay (p.1 ∷ []) (concat behind))
          ∙ ap (λ l. l ++ concat behind) p.3 in
        (
          before ++ stay ∷ (e.0.0 ++ s.0),
          rw (insert_right_in, not_less, p.2, ends, e.1, s.1) refl,
          subst (Spine n) shape s.2,
          concat-append before (stay ∷ (e.0.0 ++ s.0)) ∙ ap (λ l. concat before ++ l) all,
        )

  pub insert_right_in-Yields :
      (before : List (List A)) (b : List A) (behind : List (List A)) (i : ℕ) (v : A)
      → Spine n (sizes before ++ length b ∷ sizes behind)
      → i < length b
      → Yields n (insert_right_in n i v before b behind) (after before b behind i v)
  unfolding insert_right_in
  insert_right_in-Yields before b behind i v spine inside = elim (Bool-cases (ltb (length b) n)) [
    | inl room ↦
        let g = grow-Yields n before b behind i v spine (omega arith) (ground arith) in
        (g.0, rw (insert_right_in, room) g.1, g.2, g.3)
    | inr full ↦
        filled behind spine (
          let w = Spine-within n (sizes before) (length b) (sizes behind) spine in
          ground (arith, w))
  ]
    where
      filled :
          (cs : List (List A))
          → Spine n (sizes before ++ length b ∷ sizes cs)
          → length b ≡ n
          → Yields n (insert_right_in n i v before b cs) (after before b cs i v)
      filled [] s e = full_last-Yields before b i v inside e s
      filled (c ∷ cs) s e =
          let u = unsnoc-Ends (c ∷ cs) (omega arith) in
          full_right-Yields before b i v inside e (c ∷ cs) u.0 u.1 u.3 u.2 s
