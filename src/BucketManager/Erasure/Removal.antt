-- ===== src/BucketManager/Erasure/Removal.antt =====
-- The removals of a manager that represents a list.
use seq.Prelude.{
  ℕ, suc, ◌+◌, ◌-◌, ◌/◌, ◌<◌, ◌≡◌, refl, ap, ap₂, sym, ◌∙◌, inl, inr, Bool-cases, ltb, ◌==◌, arith,
  subst, List, [], ◌∷◌, ◌++◌, append_assoc, append-nil, some, length, length-append, concat,
  concat-append, drop,
}
use seq.BucketManager.{Manager, bucket_index, bucket_pos}
use seq.BucketManager.Bucket.{erase_at}
use seq.BucketManager.Spine.{Spine, Tail-positive, Spine-Tail}
use seq.BucketManager.Locate.{sizes, Represents, Represents-Located}
use seq.BucketManager.Propagate.{unsnoc-Ends}
use seq.BucketManager.Insertion.{sizes-append, Yields}
use seq.BucketManager.Ends.{Represents-positive}
use seq.BucketManager.Erasure.{trim_front, trim_back, pop_back, pop_front, erase_middle, erase}
use seq.BucketManager.Erasure.Parts.{
  length-erase_at, erase_at-left, trim_front-concat, trim_back-concat, trim_front-Spine,
  trim_back-Spine,
}
use seq.BucketManager.Erasure.Effect.{erase_left-Yields, erase_right-Yields}
use seq.BucketManager.Erasure.Outer.{erase_first-Yields, erase_last-Yields}

module _ {A : Type 0} where
  -- The same manager with one element less.
  shortened :
      (m : Manager A) (xs : List A) (bs : List (List A)) (ys : List A)
      → Represents m xs
      → Spine m.bucket_size (sizes bs)
      → concat bs ≡ ys
      → length ys + 1 ≡ length xs
      → Represents (record m { buckets = bs; size = m.size - 1 }) ys
  shortened m xs bs ys holds spine e count = record {
    power = holds.power;
    mask = holds.mask;
    spine = spine;
    elements = e;
    count = omega (arith, holds.count, count);
  }

  occupied : (bs : List (List A)) → 0 < length (concat bs) → 0 < length bs
  occupied [] h = absurd (omega arith)
  occupied (b ∷ bs) h = omega arith

  -- The last bucket is not empty if there is an element.
  last_occupied :
      (n : ℕ) (positive : 0 < n) (bs : List (List A)) (b : List A)
      → Spine n (sizes bs ++ length b ∷ [])
      → 0 < length (concat (bs ++ b ∷ []))
      → 0 < length b
  last_occupied n positive [] b s h = omega (arith, length-append b [])
  last_occupied n positive (c ∷ bs) b s h =
      Tail-positive n (sizes bs) (length b) [] positive
        (Spine-Tail n (length c) (sizes bs) (length b) [] s).2

  module _ (m : Manager A) (xs : List A) (holds : Represents m xs) (some_held : 0 < length xs) where
    abbrev n : ℕ
    n = m.bucket_size

    positive : 0 < n
    positive = Represents-positive m xs holds

    pub pop_back-Represents :
        (r : Manager A) × (pop_back m ≡ some r) × Represents r (erase_at (length xs - 1) xs)
    unfolding pop_back
    pop_back-Represents =
        let u =
          unsnoc-Ends m.buckets (occupied m.buckets (omega (arith, ap length holds.elements))) in
        let s = subst (Spine n) (ap sizes u.3 ∙ sizes-append u.0 (u.1 ∷ [])) holds.spine in
        let q = unsnoc-Ends u.1 (
          last_occupied n positive u.0 u.1 s
            (omega (arith, ap length holds.elements, ap (λ k. length (concat k)) u.3))) in
        let zs = concat u.0 ++ q.0 in
        let all : xs ≡ zs ++ q.1 ∷ [] =
          sym holds.elements
          ∙ ap concat u.3
          ∙ concat-append u.0 (u.1 ∷ [])
          ∙ ap (λ k. concat u.0 ++ k) (append-nil u.1 ∙ q.3)
          ∙ sym (append_assoc (concat u.0) q.0 (q.1 ∷ [])) in
        let total : length xs ≡ length zs + 1 = ap length all ∙ length-append zs (q.1 ∷ []) in
        let left : zs ≡ erase_at (length xs - 1) xs = sym (
          ap₂ (λ k l. erase_at k l)
            (let k : length xs - 1 ≡ length zs + 0 = omega (arith, total) in k) all
          ∙ erase_at-left zs 0 (q.1 ∷ [])
          ∙ append-nil zs) in
        let count : length u.1 ≡ length q.0 + 1 = ap length q.3 ∙ length-append q.0 (q.1 ∷ []) in
        (
          record m { buckets = trim_back u.0 q.0; size = m.size - 1 },
          rw (pop_back, u.2, q.2) refl,
          shortened m xs (trim_back u.0 q.0) (erase_at (length xs - 1) xs) holds
              (trim_back-Spine n positive u.0 q.0
                (subst (λ k. Spine n (sizes u.0 ++ k ∷ [])) count s))
              (trim_back-concat u.0 q.0 ∙ left) (omega (arith, total, ap length left)),
        )

    front_by :
        (bs : List (List A))
        → Represents (record m { buckets = bs }) xs
        → (r : Manager A) × (pop_front (record m { buckets = bs }) ≡ some r)
          × Represents r (erase_at 0 xs)
    unfolding pop_front
    front_by [] h = absurd (omega (arith, ap length h.elements))
    front_by ([] ∷ []) h = absurd (omega (arith, ap length h.elements))
    front_by ([] ∷ c ∷ bs) h = absurd (omega (arith, h.spine.0))
    front_by ((x ∷ b) ∷ bs) h =
        let m' = record m { buckets = (x ∷ b) ∷ bs } in
        let less : concat (trim_front b bs) ≡ erase_at 0 xs =
          trim_front-concat b bs ∙ ap (drop 1) h.elements in
        (
          record m { buckets = trim_front b bs; size = m.size - 1 },
          refl,
          shortened m' xs (trim_front b bs) (erase_at 0 xs) h
              (trim_front-Spine n positive b bs (
                subst (λ k. Spine n (k ∷ sizes bs))
                  (let k : suc (length b) ≡ length b + 1 = omega arith in k) h.spine))
              less (length-erase_at 0 xs some_held),
        )

    pub pop_front-Represents :
        (r : Manager A) × (pop_front m ≡ some r) × Represents r (erase_at 0 xs)
    pop_front-Represents = front_by m.buckets holds

    middle-Yields :
        (pos : ℕ) → 0 < pos → pos < length xs → Yields n (erase_middle pos m) (erase_at pos xs)
    unfolding erase_middle
    middle-Yields pos far inside =
        let l = Represents-Located m xs holds pos inside in
        let i = bucket_index m pos in
        let within : i < length m.buckets =
          omega (arith, l.found, ap length l.split, length-append l.before (l.bucket ∷ l.behind)) in
        subst (λ ys. Yields n (erase_middle pos m) (erase_at pos ys)) holds.elements
          elim (Bool-cases (i == 0)) [
            | inl first ↦
                rw (erase_middle, first)
                  (erase_first-Yields n positive m.buckets holds.spine pos i (bucket_pos m pos) l
                    (ground arith) far)
            | inr later ↦ elim (Bool-cases (i == length m.buckets - 1)) [
              | inl last ↦
                  rw (erase_middle, later, last)
                    (erase_last-Yields n positive m.buckets holds.spine pos i (bucket_pos m pos) l
                      (ground arith))
              | inr between ↦ elim (Bool-cases (ltb pos (m.size / 2))) [
                | inl left ↦
                    rw (erase_middle, later, between, left)
                      (erase_left-Yields n positive m.buckets holds.spine pos i (bucket_pos m pos) l
                        (ground arith))
                | inr right ↦
                    rw (erase_middle, later, between, right)
                      (erase_right-Yields n positive m.buckets holds.spine pos i (bucket_pos m pos)
                        l (ground arith) (ground arith))
              ]
            ]
          ]

    -- On a manager that represents `xs`, `erase` of a position less than the length of `xs`
    -- succeeds, and leaves a manager that represents `xs` without the element at the position, all
    -- buckets full but the first and the last.
    pub erase-Represents :
        (pos : ℕ)
        → pos < length xs
        → (r : Manager A) × (erase pos m ≡ some r) × Represents r (erase_at pos xs)
    unfolding erase
    erase-Represents pos h = elim (Bool-cases (pos == 0)) [
      | inl first ↦
          let p = pop_front-Represents in
          (
            p.0,
            rw (erase, first) p.1,
            subst (λ k. Represents p.0 (erase_at k xs)) (let k : 0 ≡ pos = ground arith in k) p.2,
          )
      | inr later ↦ elim (Bool-cases (pos == m.size - 1)) [
        | inl last ↦
            let p = pop_back-Represents in
            (
              p.0,
              rw (erase, later, last) p.1,
              subst (λ k. Represents p.0 (erase_at k xs))
                  (let k : length xs - 1 ≡ pos = ground (arith, holds.count) in k) p.2,
            )
        | inr between ↦
            let y = middle-Yields pos (ground arith) h in
            (
              record m { buckets = y.0; size = m.size - 1 },
              rw (erase, later, between, y.1) refl,
              shortened m xs y.0 (erase_at pos xs) holds y.2 y.3 (length-erase_at pos xs h),
            )
      ]
    ]
