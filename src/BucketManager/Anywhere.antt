-- ===== src/BucketManager/Anywhere.antt =====
-- The insertion at any position, as an insertion into a list.
use seq.Prelude.{
  ℕ, ◌+◌, ◌/◌, ◌≤◌, ◌<◌, ◌≡◌, refl, ap, ap₂, sym, ◌∙◌, inl, inr, false, Bool-cases, ltb, ◌==◌,
  if◌then◌else◌, arith, subst, List, [], ◌∷◌, ◌++◌, append-nil, some, none, Option, length,
  length-append, concat,
}
use seq.BucketManager.{
  Manager, bucket_index, bucket_pos, emplace_back, emplace_front, insert_one_bucket, insert_left,
  insert_right, insert_middle, insert,
}
use seq.BucketManager.Bucket.{emplace_at}
use seq.BucketManager.Spine.{Spine}
use seq.BucketManager.Locate.{sizes, Represents, Located, Represents-Located}
use seq.BucketManager.Insertion.{Yields, emplace_at-left, length-emplace_at}
use seq.BucketManager.Ends.{
  Represents-positive, extended, emplace_front-Represents, emplace_back-Represents,
}
use seq.BucketManager.Insertion.Sides.{insert_one-Yields, insert_left-Yields, insert_right-Yields}

module _ {A : Type 0} where
  module _ (m : Manager A) (xs : List A) (holds : Represents m xs) (pos : ℕ) (v : A) where
    abbrev n : ℕ
    n = m.bucket_size

    abbrev middle_of : List (List A) → Option (List (List A))
    middle_of bs =
        if length bs == 1
        then elim bs [ [] ↦ none | b ∷ cs ↦ insert_one_bucket n (bucket_pos m pos) v b ]
        else (if ltb pos (m.size / 2)
            then insert_left n (bucket_index m pos) (bucket_pos m pos) v bs
            else insert_right n (bucket_index m pos) (bucket_pos m pos) v bs)

    middle_by :
        (bs : List (List A))
        → Spine n (sizes bs)
        → 0 < pos
        → Located bs pos (bucket_index m pos) (bucket_pos m pos)
        → Yields n (middle_of bs) (emplace_at pos v (concat bs))
    middle_by [] spine far l =
        absurd (omega (arith, ap length l.split, length-append l.before (l.bucket ∷ l.behind)))
    middle_by (b ∷ []) spine far l =
        insert_one-Yields n (Represents-positive m xs holds) b spine pos _ _ v l
    middle_by (b ∷ c ∷ bs) spine far l =
        let several : (length (b ∷ c ∷ bs) == 1) ≡ false = ground arith in
        elim (Bool-cases (ltb pos (m.size / 2))) [
          | inl left ↦
              rw (several, left)
                (insert_left-Yields n (Represents-positive m xs holds) (b ∷ c ∷ bs) spine pos _ _ v
                  l far)
          | inr right ↦
              rw (several, right)
                (insert_right-Yields n (Represents-positive m xs holds) (b ∷ c ∷ bs) spine pos _ _ v
                  l)
        ]

    middle-Yields :
        0 < pos → pos < length xs → Yields n (insert_middle pos v m) (emplace_at pos v xs)
    unfolding insert_middle
    middle-Yields far inside =
        let y = middle_by m.buckets holds.spine far (Represents-Located m xs holds pos inside) in
        (y.0, y.1, y.2, y.3 ∙ ap (emplace_at pos v) holds.elements)

    -- On a manager that represents `xs`, `insert` of `v` at a position that is at most the length
    -- of `xs` succeeds, and leaves a manager that represents `xs` with `v` inserted at the
    -- position, all buckets full but the first and the last.
    pub insert-Represents :
        pos ≤ length xs
        → (r : Manager A) × (insert pos v m ≡ some r) × Represents r (emplace_at pos v xs)
    unfolding insert
    insert-Represents h = elim (Bool-cases (pos == 0)) [
      | inl first ↦
          let e : pos ≡ 0 = ground arith in
          (
            emplace_front v m,
            rw (insert, first) refl,
            subst (λ k. Represents (emplace_front v m) (emplace_at k v xs)) (sym e)
                (emplace_front-Represents m xs v holds),
          )
      | inr later ↦ elim (Bool-cases (pos == m.size)) [
        | inl last ↦
            let e : length xs ≡ pos = ground (arith, holds.count) in
            let ends : xs ++ v ∷ [] ≡ emplace_at pos v xs = sym (
              ap₂ (λ k l. emplace_at k v l) (let k : pos ≡ length xs + 0 = omega (arith, e) in k)
                (sym (append-nil xs))
              ∙ emplace_at-left xs 0 v []) in
            (
              emplace_back v m,
              rw (insert, later, last) refl,
              subst (Represents (emplace_back v m)) ends (emplace_back-Represents m xs v holds),
            )
        | inr between ↦
            let y = middle-Yields (ground arith) (ground (arith, holds.count)) in
            (
              record m { buckets = y.0; size = m.size + 1 },
              rw (insert, later, between, y.1) refl,
              extended m xs y.0 (emplace_at pos v xs) holds y.2 y.3 (length-emplace_at pos v xs h),
            )
      ]
    ]
