-- ===== src/FlatMap/Start.antt =====
-- The bucket at an index, and where it starts.
use seq.Prelude.{
  ℕ, zero, suc, ◌+◌, ◌-◌, ◌*◌, ◌<◌, ◌≡◌, refl, ap, ◌∙◌, subst, ◌⊎◌, inl, inr, false, List, [], ◌∷◌,
  ◌++◌, length, length-append, concat, arith, ◌==◌,
}
use seq.BucketManager.{Manager, front_size}
use seq.BucketManager.Spine.{Tail, Spine, Tail-head, Spine-Tail}
use seq.BucketManager.Locate.{sizes}
use seq.BucketManager.Insertion.{sizes-append}
use seq.FlatMap.{bucket_start}
use seq.FlatMap.Backs.{Filled}

module _ {A : Type 0} where
  -- The bucket at an index.
  pub split-lt :
      (bs : List (List A)) (i : ℕ)
      → i < length bs
      → (before : List (List A)) × (c : List A) × (behind : List (List A)) × (bs
          ≡ before ++ c ∷ behind)
        × (length before ≡ i)
  split-lt [] i h = absurd (omega arith)
  split-lt (b ∷ bs) zero h = ([], b, bs, refl, refl)
  split-lt (b ∷ bs) (suc i) h =
      let r = split-lt bs i (omega arith) in (b ∷ r.0, r.1, r.2, ap (λ l. b ∷ l) r.3, ap suc r.4)

  Tail-Filled : (n : ℕ) (bs : List (List A)) → 0 < n → Tail n (sizes bs) → Filled bs
  Tail-Filled n [] z h = omega arith
  Tail-Filled n (b ∷ []) z h = (h.0, omega arith)
  Tail-Filled n (b ∷ c ∷ bs) z h = (omega (arith, h.0), Tail-Filled n (c ∷ bs) z h.1)

  -- Without a bucket or with an element, every bucket has one.
  pub Spine-Filled :
      (n : ℕ) (bs : List (List A))
      → 0 < n
      → Spine n (sizes bs)
      → (bs ≡ []) ⊎ (0 < length (concat bs))
      → Filled bs
  Spine-Filled n [] z s h = omega arith
  Spine-Filled n (b ∷ []) z s (inl e) = absurd cc
  Spine-Filled n (b ∷ []) z s (inr h) = (omega (arith, length-append b []), omega arith)
  Spine-Filled n (b ∷ c ∷ bs) z s h = (s.0, Tail-Filled n (c ∷ bs) z s.2)

  Tail-start :
      (n : ℕ) (before : List (List A)) (c : List A) (behind : List (List A))
      → Tail n (sizes before ++ length c ∷ sizes behind)
      → length (concat before) ≡ length before * n
  Tail-start n [] c behind h = omega arith
  Tail-start n (b ∷ before) c behind h =
      let u = Tail-head n (length b) (sizes before) (length c) (sizes behind) h in
      let rest = Tail-start n before c behind u.1 in
      let e : suc (length before) * n ≡ n + length before * n = omega arith in
      omega (arith, rest, e, u.0, length-append b (concat before))

  -- The start that is computed from an index is where the bucket starts.
  pub bucket_start-concat :
      (m : Manager A) (before : List (List A)) (c : List A) (behind : List (List A))
      → m.buckets ≡ before ++ c ∷ behind
      → Spine m.bucket_size (sizes m.buckets)
      → bucket_start m (length before) ≡ length (concat before)
  bucket_start-concat m [] c behind e s = refl
  bucket_start-concat m (b ∷ before) c behind e s =
      let n = m.bucket_size in
      let spread : sizes m.buckets ≡ length b ∷ (sizes before ++ length c ∷ sizes behind) =
        ap sizes e ∙ ap (λ l. length b ∷ l) (sizes-append before (c ∷ behind)) in
      let u =
        Spine-Tail n (length b) (sizes before) (length c) (sizes behind)
          (subst (Spine n) spread s) in
      let rest = Tail-start n before c behind u.2 in
      let front : front_size m.buckets ≡ length b = ap front_size e in
      let more : (suc (length before) == 0) ≡ false = ground arith in
      let pred : suc (length before) - 1 ≡ length before = omega arith in
      rw (more, front, pred) (omega (arith, rest, length-append b (concat before)))

  pub Filled-at :
      (before : List (List A)) (c : List A) (behind : List (List A))
      → Filled (before ++ c ∷ behind)
      → 0 < length c
  Filled-at [] c behind h = h.0
  Filled-at (b ∷ before) c behind h = Filled-at before c behind h.1

  pub concat-length : (bs : List (List A)) → 0 < length (concat bs) → 0 < length bs
  concat-length [] h = absurd (omega arith)
  concat-length (b ∷ bs) h = omega arith
