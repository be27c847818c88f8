-- ===== src/BucketManager/Insertion/Sides.antt =====
-- The insertions into one bucket, on the left side and on the right side, at a position.
use seq.Prelude.{
  ℕ, ◌+◌, ◌-◌, ◌≤◌, ◌<◌, ◌≡◌, refl, ap, ap₂, sym, ◌∙◌, inl, inr, true, false, Bool-cases, ltb, ◌==◌,
  arith, subst, List, [], ◌∷◌, ◌++◌, append_assoc, some, length, length-append, concat,
  concat-append, focus, focus-append,
}
use seq.BucketManager.{insert_one_bucket, insert_left, insert_right, insert_right_in}
use seq.BucketManager.Bucket.{emplace_at}
use seq.BucketManager.Spine.{Spine, Spine-positive}
use seq.BucketManager.Locate.{sizes, Located}
use seq.BucketManager.Propagate.{unsnoc-Ends}
use seq.BucketManager.Insertion.{sizes-append, Yields, after, emplace_at-left, emplace_at-right}
use seq.BucketManager.Insertion.Left.{insert_left_in-Yields}
use seq.BucketManager.Insertion.Right.{insert_right_in-Yields}

module _ {A : Type 0} where
  -- An insertion into the bucket at a position is one into the list.
  emplace_at-after :
      (before : List (List A)) (b : List A) (behind : List (List A)) (i pos : ℕ) (v : A)
      (bs : List (List A))
      → bs ≡ before ++ b ∷ behind
      → pos ≡ length (concat before) + i
      → i ≤ length b
      → after before b behind i v ≡ emplace_at pos v (concat bs)
  emplace_at-after before b behind i pos v bs split position within = sym (
      ap₂ (λ k l. emplace_at k v l) position (ap concat split ∙ concat-append before (b ∷ behind))
      ∙ emplace_at-left (concat before) i v (b ++ concat behind)
      ∙ ap (λ l. concat before ++ l) (emplace_at-right b i v (concat behind) within))

  -- The only bucket.
  insert_one_bucket-right :
      (n index : ℕ) (v : A) (b : List A)
      → length b ≤ n
      → insert_one_bucket n index v b ≡ insert_right_in n index v [] b []
  unfolding insert_one_bucket insert_right_in
  insert_one_bucket-right n index v b h = elim (Bool-cases (length b == n)) [
    | inl full ↦
        let less : ltb (length b) n ≡ false = ground arith in
        rw (insert_one_bucket, insert_right_in, full, less) refl
    | inr other ↦
        let less : ltb (length b) n ≡ true = ground arith in
        rw (insert_one_bucket, insert_right_in, other, less) refl
  ]

  module _ (n : ℕ) (positive : 0 < n) (bs : List (List A)) (spine : Spine n (sizes bs))
      (pos index inside : ℕ) (v : A) (l : Located bs pos index inside) where
    found : focus index bs ≡ some (l.before, l.bucket, l.behind)
    found = ap₂ focus (sym l.found) l.split ∙ focus-append l.before l.bucket l.behind

    shape : Spine n (sizes l.before ++ length l.bucket ∷ sizes l.behind)
    shape = subst (Spine n) (ap sizes l.split ∙ sizes-append l.before (l.bucket ∷ l.behind)) spine

    target : after l.before l.bucket l.behind inside v ≡ emplace_at pos v (concat bs)
    target =
        emplace_at-after l.before l.bucket l.behind inside pos v bs l.split l.position
          (omega (arith, l.within))

    pub insert_right-Yields :
        Yields n (insert_right n index inside v bs) (emplace_at pos v (concat bs))
    unfolding insert_right
    insert_right-Yields =
        let y =
          insert_right_in-Yields n positive l.before l.bucket l.behind inside v shape l.within in
        (y.0, rw (insert_right, found) y.1, y.2, y.3 ∙ target)

    insert_left_here :
        0 < inside → Yields n (insert_left n index inside v bs) (emplace_at pos v (concat bs))
    unfolding insert_left
    insert_left_here low =
        let y =
          insert_left_in-Yields n positive l.before l.bucket l.behind inside v shape low
            (omega (arith, l.within)) in
        let other : (inside == 0) ≡ false = ground arith in
        (y.0, rw (insert_left, other, found, other) y.1, y.2, y.3 ∙ target)

    -- At the front of a bucket, the value goes to the back of the one before.
    insert_left_before :
        0 < pos
        → inside ≡ 0
        → Yields n (insert_left n index inside v bs) (emplace_at pos v (concat bs))
    unfolding insert_left
    insert_left_before far start =
        let some_before : 0 < length l.before = occupied l.before (omega (arith, l.position)) in
        let u = unsnoc-Ends l.before some_before in
        let count : length l.before ≡ length u.0 + 1 =
          ap length u.3 ∙ length-append u.0 (u.1 ∷ []) in
        let split : bs ≡ u.0 ++ u.1 ∷ l.bucket ∷ l.behind =
          l.split
          ∙ ap (λ k. k ++ l.bucket ∷ l.behind) u.3
          ∙ append_assoc u.0 (u.1 ∷ []) (l.bucket ∷ l.behind) in
        let there : focus (index - 1) bs ≡ some (u.0, u.1, l.bucket ∷ l.behind) =
          ap₂ focus (omega (arith, l.found, count)) split
          ∙ focus-append u.0 u.1 (l.bucket ∷ l.behind) in
        let held =
          subst (Spine n) (ap sizes split ∙ sizes-append u.0 (u.1 ∷ l.bucket ∷ l.behind)) spine in
        let position : pos ≡ length (concat u.0) + length u.1 =
          l.position
          ∙ omega (
            arith,
            start,
            ap (λ k. length (concat k)) u.3,
            ap length (concat-append u.0 (u.1 ∷ [])),
            length-append (concat u.0) (u.1 ++ []),
            length-append u.1 [],
          ) in
        let y =
          insert_left_in-Yields n positive u.0 u.1 (l.bucket ∷ l.behind) (length u.1) v held
            (Spine-positive n (sizes u.0) (length u.1) (length l.bucket) (sizes l.behind) positive
              held)
            (omega arith) in
        let zero_index : (inside == 0) ≡ true = ground (arith, start) in
        (
          y.0,
          rw (insert_left, zero_index, there, zero_index) y.1,
          y.2,
          y.3
              ∙ emplace_at-after u.0 u.1 (l.bucket ∷ l.behind) (length u.1) pos v bs split position
                  (omega arith),
        )
      where
        occupied : (bs : List (List A)) → 0 < length (concat bs) → 0 < length bs
        occupied [] h = absurd (omega arith)
        occupied (b ∷ bs) h = omega arith

    pub insert_left-Yields :
        0 < pos → Yields n (insert_left n index inside v bs) (emplace_at pos v (concat bs))
    insert_left-Yields far = elim (Bool-cases (inside == 0)) [
      | inl start ↦ insert_left_before far (ground arith)
      | inr later ↦ insert_left_here (ground arith)
    ]

  -- With one bucket, the position is the index.
  pub insert_one-Yields :
      (n : ℕ) (positive : 0 < n) (b : List A) (spine : length b ≤ n) (pos index inside : ℕ) (v : A)
      → Located (b ∷ []) pos index inside
      → Yields n (insert_one_bucket n inside v b) (emplace_at pos v (concat (b ∷ [])))
  insert_one-Yields n positive b spine pos index inside v l =
      let count : length l.before + 1 + length l.behind ≡ 1 =
        omega (arith, ap length l.split, length-append l.before (l.bucket ∷ l.behind)) in
      let same : pos ≡ inside =
        l.position ∙ ap (λ k. k + inside) (none_before l.before (omega arith)) ∙ omega arith in
      let within : pos < length b = omega (
        arith,
        same,
        l.within,
        ap (λ k. length (concat k)) l.split,
        length-append b [],
        ap length (concat-append l.before (l.bucket ∷ l.behind)),
        length-append (concat l.before) (l.bucket ++ concat l.behind),
        length-append l.bucket (concat l.behind),
      ) in
      let y = insert_right_in-Yields n positive [] b [] inside v spine (omega (arith, same)) in
      (
        y.0,
        insert_one_bucket-right n inside v b spine ∙ y.1,
        y.2,
        y.3
            ∙ emplace_at-after [] b [] inside pos v (b ∷ []) refl (omega (arith, same))
                (omega (arith, same)),
      )
    where
      none_before : (bs : List (List A)) → length bs ≡ 0 → length (concat bs) ≡ 0
      none_before [] h = refl
      none_before (b ∷ bs) h = absurd (omega arith)
