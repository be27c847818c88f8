-- ===== src/BucketManager/Ends.antt =====
-- The insertions at both ends of the buckets.
use seq.Prelude.{
  ◌+◌, ◌<◌, ◌≡◌, ap, sym, ◌∙◌, inl, inr, Bool-cases, ◌==◌, arith, subst, List, [], ◌∷◌, ◌++◌,
  append_assoc, append-nil, length, length-append, concat, concat-append,
}
use seq.CircularBuffer.Masks.{two_pow-pos}
use seq.BucketManager.{Manager, emplace_back, emplace_front}
use seq.BucketManager.Spine.{Spine, Spine-grow, Spine-front, Spine-back, Spine-within}
use seq.BucketManager.Locate.{sizes, Represents}
use seq.BucketManager.Propagate.{unsnoc-Ends}
use seq.BucketManager.Insertion.{sizes-append}

module _ {A : Type 0} where
  pub Represents-positive : (m : Manager A) (xs : List A) → Represents m xs → 0 < m.bucket_size
  Represents-positive m xs holds =
      subst (λ k. 0 < k) (sym holds.power) (two_pow-pos m.bucket_size_bits)

  -- The same manager with one element more.
  pub extended :
      (m : Manager A) (xs : List A) (bs : List (List A)) (ys : List A)
      → Represents m xs
      → Spine m.bucket_size (sizes bs)
      → concat bs ≡ ys
      → length ys ≡ length xs + 1
      → Represents (record m { buckets = bs; size = m.size + 1 }) ys
  extended m xs bs ys holds spine e count = record {
    power = holds.power;
    mask = holds.mask;
    spine = spine;
    elements = e;
    count = omega (arith, holds.count, count);
  }

  module _ (m : Manager A) (xs : List A) (v : A) where
    front_by :
        (bs : List (List A))
        → Represents (record m { buckets = bs }) xs
        → Represents (emplace_front v (record m { buckets = bs })) (v ∷ xs)
    unfolding emplace_front
    front_by [] holds =
        extended (record m { buckets = [] }) xs ((v ∷ []) ∷ []) (v ∷ xs) holds
          (omega (arith, Represents-positive (record m { buckets = [] }) xs holds))
          (ap (λ l. v ∷ l) holds.elements) (omega arith)
    front_by (b ∷ bs) holds =
        extended (record m { buckets = b ∷ bs }) xs _ (v ∷ xs) holds
          (elim (Bool-cases (length b == m.bucket_size)) [
            | inl full ↦ rw full (
                Spine-front m.bucket_size (length b) (sizes bs)
                  (Represents-positive (record m { buckets = b ∷ bs }) xs holds) (ground arith)
                  holds.spine)
            | inr other ↦ rw other (
                subst (λ l. Spine m.bucket_size (l ∷ sizes bs)) {x = length b + 1} (omega arith)
                  (Spine-grow m.bucket_size [] (length b) (sizes bs)
                    (let w = Spine-within m.bucket_size [] (length b) (sizes bs) holds.spine in
                      ground (arith, w))
                    holds.spine))
          ])
          (elim (Bool-cases (length b == m.bucket_size)) [
            | inl full ↦ rw full (ap (λ l. v ∷ l) holds.elements)
            | inr other ↦ rw other (ap (λ l. v ∷ l) holds.elements)
          ])
          (omega arith)

    back_by :
        (bs : List (List A))
        → Represents (record m { buckets = bs }) xs
        → Represents (emplace_back v (record m { buckets = bs })) (xs ++ v ∷ [])
    unfolding emplace_back
    back_by [] holds =
        extended (record m { buckets = [] }) xs ((v ∷ []) ∷ []) (xs ++ v ∷ []) holds
          (omega (arith, Represents-positive (record m { buckets = [] }) xs holds))
          (ap (λ l. l ++ v ∷ []) holds.elements) (length-append xs (v ∷ []))
    back_by (b ∷ bs) holds =
        let n = m.bucket_size in
        let u = unsnoc-Ends (b ∷ bs) (omega arith) in
        let shape = subst (Spine n) (ap sizes u.3 ∙ sizes-append u.0 (u.1 ∷ [])) holds.spine in
        let parts : concat u.0 ++ u.1 ≡ xs =
          ap (λ l. concat u.0 ++ l) (sym (append-nil u.1))
          ∙ sym (concat-append u.0 (u.1 ∷ []))
          ∙ sym (ap concat u.3)
          ∙ holds.elements in
        rw (emplace_back, u.2)
          (extended (record m { buckets = b ∷ bs }) xs _ (xs ++ v ∷ []) holds
            (elim (Bool-cases (length u.1 == n)) [
              | inl full ↦ rw full (
                  subst (Spine n)
                    (sym (append_assoc (sizes u.0) (length u.1 ∷ []) (1 ∷ []))
                      ∙ ap (λ l. l ++ 1 ∷ []) (sym (ap sizes u.3 ∙ sizes-append u.0 (u.1 ∷ [])))
                      ∙ sym (sizes-append (b ∷ bs) ((v ∷ []) ∷ [])))
                    (Spine-back n (sizes u.0) (length u.1)
                      (Represents-positive (record m { buckets = b ∷ bs }) xs holds) (ground arith)
                      shape))
              | inr other ↦ rw other (
                  subst (Spine n)
                    (ap (λ l. sizes u.0 ++ l ∷ []) (sym (length-append u.1 (v ∷ [])))
                      ∙ sym (sizes-append u.0 ((u.1 ++ v ∷ []) ∷ [])))
                    (Spine-grow n (sizes u.0) (length u.1) []
                      (let w = Spine-within n (sizes u.0) (length u.1) [] shape in
                        ground (arith, w))
                      shape))
            ])
            (elim (Bool-cases (length u.1 == n)) [
              | inl full ↦
                  rw full
                    (concat-append (b ∷ bs) ((v ∷ []) ∷ []) ∙ ap (λ l. l ++ v ∷ []) holds.elements)
              | inr other ↦ rw other (
                  concat-append u.0 ((u.1 ++ v ∷ []) ∷ [])
                  ∙ ap (λ l. concat u.0 ++ l) (append-nil (u.1 ++ v ∷ []))
                  ∙ sym (append_assoc (concat u.0) u.1 (v ∷ []))
                  ∙ ap (λ l. l ++ v ∷ []) parts)
            ])
            (length-append xs (v ∷ [])))

    pub emplace_front-Represents : Represents m xs → Represents (emplace_front v m) (v ∷ xs)
    emplace_front-Represents holds = front_by m.buckets holds

    pub emplace_back-Represents : Represents m xs → Represents (emplace_back v m) (xs ++ v ∷ [])
    emplace_back-Represents holds = back_by m.buckets holds
