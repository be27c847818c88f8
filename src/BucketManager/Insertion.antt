-- ===== src/BucketManager/Insertion.antt =====
-- An insertion into one of the buckets, and what an insertion into a list makes of its parts.
pub mod Left
pub mod Right
pub mod Sides
use seq.Prelude.{
  ℕ, zero, suc, ◌+◌, ◌-◌, ◌≤◌, ◌<◌, ◌≡◌, refl, ap, ap₂, sym, ◌∙◌, arith, subst, List, [], ◌∷◌, ◌++◌,
  append_assoc, Option, some, none, length, length-append, concat, concat-append, take, drop,
}
use seq.BucketManager.Bucket.{emplace_at}
use seq.BucketManager.Spine.{Spine, Spine-grow}
use seq.BucketManager.Locate.{sizes}

module _ {A : Type 0} where
  pub sizes-append : (bs cs : List (List A)) → sizes (bs ++ cs) ≡ sizes bs ++ sizes cs
  sizes-append [] cs = refl
  sizes-append (b ∷ bs) cs = ap (λ l. length b ∷ l) (sizes-append bs cs)

  -- The buckets that a run gives have the shape, and contain `zs`.
  abbrev pub Yields : ℕ → Option (List (List A)) → List A → Type 0
  Yields n o zs = (r : List (List A)) × (o ≡ some r) × Spine n (sizes r) × (concat r ≡ zs)

  pub length-emplace_at :
      (i : ℕ) (v : A) (xs : List A) → i ≤ length xs → length (emplace_at i v xs) ≡ length xs + 1
  length-emplace_at zero v xs h = omega arith
  length-emplace_at (suc i) v [] h = absurd (omega arith)
  length-emplace_at (suc i) v (x ∷ xs) h = omega (arith, length-emplace_at i v xs)

  pub emplace_at-left :
      (xs : List A) (i : ℕ) (v : A) (ys : List A)
      → emplace_at (length xs + i) v (xs ++ ys) ≡ xs ++ emplace_at i v ys
  emplace_at-left [] i v ys = ap (λ k. emplace_at k v ys) {x = 0 + i} (omega arith)
  emplace_at-left (x ∷ xs) i v ys =
      ap (λ k. emplace_at k v (x ∷ (xs ++ ys)))
        (let k : suc (length xs) + i ≡ suc (length xs + i) = omega arith in k)
      ∙ ap (λ l. x ∷ l) (emplace_at-left xs i v ys)

  pub emplace_at-right :
      (xs : List A) (i : ℕ) (v : A) (ys : List A)
      → i ≤ length xs
      → emplace_at i v (xs ++ ys) ≡ emplace_at i v xs ++ ys
  emplace_at-right xs zero v ys h = refl
  emplace_at-right [] (suc i) v ys h = absurd (omega arith)
  emplace_at-right (x ∷ xs) (suc i) v ys h =
      ap (λ l. x ∷ l) (emplace_at-right xs i v ys (omega arith))

  pub emplace_at-cons :
      (i : ℕ) (v x : A) (xs : List A)
      → 0 < i
      → x ∷ emplace_at (i - 1) v xs ≡ emplace_at i v (x ∷ xs)
  emplace_at-cons zero v x xs h = absurd (omega arith)
  emplace_at-cons (suc i) v x xs h =
      ap (λ k. x ∷ emplace_at k v xs) (let k : suc i - 1 ≡ i = omega arith in k)

  -- The elements, with one in a bucket.
  abbrev pub after : List (List A) → List A → List (List A) → ℕ → A → List A
  after before b behind i v = concat before ++ (emplace_at i v b ++ concat behind)

  module _ (n : ℕ) (before : List (List A)) (b : List A) (behind : List (List A)) (i : ℕ) (v : A)
      (spine : Spine n (sizes before ++ length b ∷ sizes behind)) (within : i ≤ length b) where
    -- A bucket that is not full.
    pub grow-Yields :
        length b < n
        → Yields n (some (before ++ emplace_at i v b ∷ behind)) (after before b behind i v)
    grow-Yields room = (
      before ++ emplace_at i v b ∷ behind,
      refl,
      subst (Spine n)
          (ap (λ l. sizes before ++ l ∷ sizes behind) (sym (length-emplace_at i v b within))
            ∙ sym (sizes-append before (emplace_at i v b ∷ behind)))
          (Spine-grow n (sizes before) (length b) (sizes behind) room spine),
      concat-append before (emplace_at i v b ∷ behind),
    )
