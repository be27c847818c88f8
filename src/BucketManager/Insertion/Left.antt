-- ===== src/BucketManager/Insertion/Left.antt =====
-- The insertion on the left side, which hands values to the buckets before.
use seq.Prelude.{
  ℕ, suc, ◌-◌, ◌≤◌, ◌<◌, ◌≡◌, refl, ap, ap₂, sym, ◌∙◌, inl, inr, true, false, Bool-cases, ltb, ◌==◌,
  arith, subst, List, [], ◌∷◌, ◌++◌, append_assoc, length, length-append, concat, concat-append,
}
use seq.BucketManager.{settle_first, insert_left_in}
use seq.BucketManager.Bucket.{emplace_at}
use seq.BucketManager.Spine.{Spine, Spine-grow, Spine-front, Spine-Tail, Spine-within}
use seq.BucketManager.Locate.{sizes}
use seq.BucketManager.Propagate.{propagate_left_lem}
use seq.BucketManager.Insertion.{
  sizes-append, Yields, after, grow-Yields, length-emplace_at, emplace_at-cons,
}

module _ {A : Type 0} (n : ℕ) (positive : 0 < n) where
  settle_first-Yields :
      (first : List A) (t : A) (rest : List (List A))
      → Spine n (length first ∷ sizes rest)
      → Yields n (settle_first n first t rest) (first ++ t ∷ concat rest)
  settle_first-Yields first t rest spine = elim (Bool-cases (length first == n)) [
    | inl full ↦ around first (ground arith) spine
    | inr other ↦ (
      (first ++ t ∷ []) ∷ rest,
      rw other refl,
      subst (λ l. Spine n (l ∷ sizes rest)) (sym (length-append first (t ∷ [])))
          (Spine-grow n [] (length first) (sizes rest)
            (let w = Spine-within n [] (length first) (sizes rest) spine in ground (arith, w))
            spine),
      append_assoc first (t ∷ []) (concat rest),
    )
  ]
    where
      around :
          (f : List A)
          → length f ≡ n
          → Spine n (length f ∷ sizes rest)
          → Yields n (settle_first n f t rest) (f ++ t ∷ concat rest)
      around [] e s = absurd (omega arith)
      around (y ∷ ys) e s = (
        (y ∷ []) ∷ (ys ++ t ∷ []) ∷ rest,
        (let full : (suc (length ys) == n) ≡ true = ground (arith, e) in rw full refl),
        subst (λ l. Spine n (1 ∷ l ∷ sizes rest)) (omega (arith, length-append ys (t ∷ [])))
            (Spine-front n (length (y ∷ ys)) (sizes rest) positive e s),
        ap (λ l. y ∷ l) (append_assoc ys (t ∷ []) (concat rest)),
      )

  -- Into a full bucket, whose first element goes on.
  full_left-Yields :
      (before : List (List A)) (x : A) (xs : List A) (behind : List (List A)) (i : ℕ) (v : A)
      → Spine n (sizes before ++ length (x ∷ xs) ∷ sizes behind)
      → 0 < i
      → i ≤ length (x ∷ xs)
      → length (x ∷ xs) ≡ n
      → Yields n (insert_left_in n i v before (x ∷ xs) behind) (after before (x ∷ xs) behind i v)
  unfolding insert_left_in
  full_left-Yields [] x xs behind i v spine low high full =
      let not_less : ltb (length (x ∷ xs)) n ≡ false = ground (arith, full) in
      let new = emplace_at (i - 1) v xs in
      let count : length (x ∷ xs) ≡ length new = omega (arith, length-emplace_at (i - 1) v xs) in
      (
        (x ∷ []) ∷ new ∷ behind,
        rw (insert_left_in, not_less) refl,
        subst (λ l. Spine n (1 ∷ l ∷ sizes behind)) count
            (Spine-front n (length (x ∷ xs)) (sizes behind) positive full spine),
        ap (λ l. l ++ concat behind) (emplace_at-cons i v x xs low),
      )
  full_left-Yields (first ∷ middle) x xs behind i v spine low high full =
      let not_less : ltb (length (x ∷ xs)) n ≡ false = ground (arith, full) in
      let new = emplace_at (i - 1) v xs in
      let count : length (x ∷ xs) ≡ length new = omega (arith, length-emplace_at (i - 1) v xs) in
      let parts =
        Spine-Tail n (length first) (sizes middle) (length (x ∷ xs)) (sizes behind) spine in
      let e = propagate_left_lem n positive (length (x ∷ xs)) (sizes behind) middle x parts.2 in
      let rest = e.0.0 ++ new ∷ behind in
      let shape : sizes middle ++ length (x ∷ xs) ∷ sizes behind ≡ sizes rest =
        ap₂ (λ ls l. ls ++ l ∷ sizes behind) (sym e.2) count
        ∙ sym (sizes-append e.0.0 (new ∷ behind)) in
      let end =
        settle_first-Yields first e.0.1 rest
          (subst (λ ls. Spine n (length first ∷ ls)) shape spine) in
      let moved : e.0.1 ∷ concat rest
          ≡ concat middle ++ (emplace_at i v (x ∷ xs) ++ concat behind) =
        ap (λ l. e.0.1 ∷ l) (concat-append e.0.0 (new ∷ behind))
        ∙ ap (λ l. l ++ (new ++ concat behind)) e.3
        ∙ append_assoc (concat middle) (x ∷ []) (new ++ concat behind)
        ∙ ap (λ l. concat middle ++ (l ++ concat behind)) (emplace_at-cons i v x xs low) in
      (
        end.0,
        rw (insert_left_in, not_less, e.1) end.1,
        end.2,
        end.3
            ∙ ap (λ l. first ++ l) moved
            ∙ sym (append_assoc first (concat middle) (emplace_at i v (x ∷ xs) ++ concat behind)),
      )

  pub insert_left_in-Yields :
      (before : List (List A)) (b : List A) (behind : List (List A)) (i : ℕ) (v : A)
      → Spine n (sizes before ++ length b ∷ sizes behind)
      → 0 < i
      → i ≤ length b
      → Yields n (insert_left_in n i v before b behind) (after before b behind i v)
  unfolding insert_left_in
  insert_left_in-Yields before b behind i v spine low high = elim (Bool-cases (ltb (length b) n)) [
    | inl room ↦
        let g = grow-Yields n before b behind i v spine high (ground arith) in
        (g.0, rw (insert_left_in, room) g.1, g.2, g.3)
    | inr full ↦
        filled b spine high (
          let w = Spine-within n (sizes before) (length b) (sizes behind) spine in
          ground (arith, w))
  ]
    where
      filled :
          (c : List A)
          → Spine n (sizes before ++ length c ∷ sizes behind)
          → i ≤ length c
          → length c ≡ n
          → Yields n (insert_left_in n i v before c behind) (after before c behind i v)
      filled [] s h e = absurd (omega arith)
      filled (x ∷ xs) s h e = full_left-Yields before x xs behind i v s low h e
