-- ===== src/BucketManager/Erasure/Parts.antt =====
-- The removals at the ends, and inside of the buckets.
use seq.Prelude.{
  ℕ, zero, suc, ◌+◌, ◌-◌, ◌<◌, ◌≡◌, refl, ap, ap₂, sym, ◌∙◌, inl, inr, false, Bool-cases, ◌==◌,
  if◌then◌else◌, arith, subst, List, [], ◌∷◌, ◌++◌, append_assoc, append-nil, some, length,
  length-append, concat, concat-append, take, drop,
}
use seq.BucketManager.Bucket.{erase_at}
use seq.BucketManager.Spine.{Tail, Spine, Tail-positive}
use seq.BucketManager.Locate.{sizes}
use seq.BucketManager.Insertion.{sizes-append}
use seq.BucketManager.Erasure.{trim_front, trim_back, pull}
use seq.BucketManager.Erasure.Shrink.{Spine-shrink_back, Spine-shrink_front, shrunk}

module _ {A : Type 0} where
  pub erase_at-suc : (i : ℕ) (x : A) (xs : List A) → erase_at (suc i) (x ∷ xs) ≡ x ∷ erase_at i xs
  erase_at-suc i x xs =
      ap (λ k. x ∷ (take i xs ++ drop k (x ∷ xs)))
        (let e : suc i + 1 ≡ suc (i + 1) = omega arith in e)

  pub length-erase_at :
      (i : ℕ) (xs : List A) → i < length xs → length (erase_at i xs) + 1 ≡ length xs
  length-erase_at i [] h = absurd (omega arith)
  length-erase_at zero (x ∷ xs) h = omega arith
  length-erase_at (suc i) (x ∷ xs) h =
      omega (arith, ap length (erase_at-suc i x xs), length-erase_at i xs)

  pub erase_at-left :
      (xs : List A) (i : ℕ) (ys : List A)
      → erase_at (length xs + i) (xs ++ ys) ≡ xs ++ erase_at i ys
  erase_at-left [] i ys = ap (λ k. erase_at k ys) (let k : 0 + i ≡ i = omega arith in k)
  erase_at-left (x ∷ xs) i ys =
      ap (λ k. erase_at k (x ∷ (xs ++ ys)))
        (let k : suc (length xs) + i ≡ suc (length xs + i) = omega arith in k)
      ∙ erase_at-suc (length xs + i) x (xs ++ ys)
      ∙ ap (λ l. x ∷ l) (erase_at-left xs i ys)

  pub erase_at-right :
      (xs : List A) (i : ℕ) (ys : List A)
      → i < length xs
      → erase_at i (xs ++ ys) ≡ erase_at i xs ++ ys
  erase_at-right [] i ys h = absurd (omega arith)
  erase_at-right (x ∷ xs) zero ys h = refl
  erase_at-right (x ∷ xs) (suc i) ys h =
      erase_at-suc i x (xs ++ ys)
      ∙ ap (λ l. x ∷ l) (erase_at-right xs i ys (omega arith))
      ∙ ap (λ l. l ++ ys) (sym (erase_at-suc i x xs))

  pub trim_front-concat :
      (b : List A) (bs : List (List A)) → concat (trim_front b bs) ≡ b ++ concat bs
  trim_front-concat b [] = refl
  trim_front-concat [] (c ∷ bs) = refl
  trim_front-concat (x ∷ b) (c ∷ bs) =
      let e : (length (x ∷ b) == 0) ≡ false = ground arith in rw e refl

  pub trim_back-concat :
      (bs : List (List A)) (b : List A) → concat (trim_back bs b) ≡ concat bs ++ b
  trim_back-concat [] b = append-nil b
  trim_back-concat (c ∷ bs) [] = sym (append-nil (concat (c ∷ bs)))
  trim_back-concat (c ∷ bs) (x ∷ b) =
      let e : (length (x ∷ b) == 0) ≡ false = ground arith in
      rw e (
        concat-append (c ∷ bs) ((x ∷ b) ∷ []) ∙ ap (λ l. concat (c ∷ bs) ++ l) (append-nil (x ∷ b)))

  module _ (n : ℕ) (positive : 0 < n) where
    pub trim_front-Spine :
        (b : List A) (bs : List (List A))
        → Spine n ((length b + 1) ∷ sizes bs)
        → Spine n (sizes (trim_front b bs))
    trim_front-Spine b [] t = omega (arith, t)
    trim_front-Spine b (c ∷ bs) t =
        let commuted : (if length b == 0
              then length c ∷ sizes bs
              else length b ∷ length c ∷ sizes bs)
            ≡ sizes (trim_front b (c ∷ bs)) =
          elim (Bool-cases (length b == 0)) [ inl e ↦ rw e refl | inr e ↦ rw e refl ] in
        subst (Spine n) commuted (Spine-shrink_front n positive (length b) (length c) (sizes bs) t)

    pub trim_back-Spine :
        (bs : List (List A)) (b : List A)
        → Spine n (sizes bs ++ (length b + 1) ∷ [])
        → Spine n (sizes (trim_back bs b))
    trim_back-Spine [] b t = omega (arith, t)
    trim_back-Spine (c ∷ bs) b t =
        let commuted : sizes (c ∷ bs) ++ (if length b == 0 then [] else length b ∷ [])
            ≡ sizes (trim_back (c ∷ bs) b) =
          elim (Bool-cases (length b == 0)) [
            | inl e ↦ rw e (append-nil (sizes (c ∷ bs)))
            | inr e ↦ rw e (sym (sizes-append (c ∷ bs) (b ∷ [])))
          ] in
        subst (Spine n) commuted (Spine-shrink_back n positive (length c) (sizes bs) (length b) t)

    pub pull_lem :
        (b : List A) (cs : List (List A)) (j : ℕ)
        → Tail n (j ∷ sizes cs)
        → (r : List (List A)) × (pull b cs ≡ some r)
          × (sizes r ≡ shrunk n positive (length b) (sizes cs))
          × (concat r ≡ b ++ concat cs)
    unfolding pull
    pull_lem b [] j t = elim (Bool-cases (length b == 0)) [
      | inl e ↦ ([], rw (pull, e) refl, rw e refl, empty b (ground arith))
      | inr e ↦ (b ∷ [], rw (pull, e) refl, rw e refl, refl)
    ]
      where
        empty : (b : List A) → length b ≡ 0 → [] ≡ b ++ []
        empty [] h = refl
        empty (x ∷ b) h = absurd (omega arith)
    pull_lem b ([] ∷ cs) j t = absurd (omega (arith, Tail-positive n [] 0 (sizes cs) positive t.1))
    pull_lem b ((c ∷ d) ∷ cs) j t =
        let e = pull_lem d cs (length (c ∷ d)) t.1 in
        (
          (b ++ c ∷ []) ∷ e.0,
          rw (pull, e.1) refl,
          ap₂ (λ l ls. l ∷ ls) (length-append b (c ∷ []))
              (e.2
                ∙ ap (λ l. shrunk n positive l (sizes cs))
                    (let k : length d ≡ length (c ∷ d) - 1 = omega arith in k)),
          append_assoc b (c ∷ []) (concat e.0) ∙ ap (λ l. b ++ c ∷ l) e.3,
        )
