-- ===== src/TieredVector/ForEach/Visited.antt =====
-- What `for_each_bucket` reads, and what it leaves of the old buckets.
use mathlib.Core.Option.{some-injective}
use seq.Prelude.{
  ℕ, zero, suc, ◌+◌, ◌-◌, ◌≤◌, ◌<◌, ◌≡◌, refl, ap, ◌∙◌, Option, none, some, List, [], ◌∷◌, length,
  length-append, map, concat, get_elem?, get_elem?-append_left, get_elem?-append_right, arith,
}
use seq.TieredVector.ForEach.{Old, bucket_at, destroy_bucket, destroy_before}

module _ {A : Type 0} where
  -- The position of the first value of a bucket.
  abbrev pub offset : ℕ → List (List A) → ℕ
  offset zero bs = 0
  offset (suc i) [] = 0
  offset (suc i) (b ∷ bs) = length b + offset i bs

  pub get_elem?-offset :
      (j : ℕ) (bs : List (List A)) (b : List A) (p : ℕ)
      → get_elem? bs j ≡ some b
      → p < length b
      → get_elem? (concat bs) (offset j bs + p) ≡ get_elem? b p
  get_elem?-offset j [] b p e h = absurd cc
  get_elem?-offset zero (c ∷ bs) b p e h =
      let same = some-injective c b e in
      ap (get_elem? (concat (c ∷ bs))) (let z : 0 + p ≡ p = omega arith in z)
      ∙ get_elem?-append_left c (concat bs) p (omega (arith, ap length same))
      ∙ ap (λ l. get_elem? l p) same
  get_elem?-offset (suc j) (c ∷ bs) b p e h =
      ap (get_elem? (concat (c ∷ bs)))
        (let z : length c + offset j bs + p ≡ length c + (offset j bs + p) = omega arith in z)
      ∙ get_elem?-append_right c (concat bs) (offset j bs + p)
      ∙ get_elem?-offset j bs b p e h

  pub offset-suc :
      (j : ℕ) (bs : List (List A)) (b : List A)
      → get_elem? bs j ≡ some b
      → offset (suc j) bs ≡ offset j bs + length b
  offset-suc j [] b e = absurd cc
  offset-suc zero (c ∷ bs) b e = omega (arith, ap length (some-injective c b e))
  offset-suc (suc j) (c ∷ bs) b e = omega (arith, offset-suc j bs b e)

  -- A position in a bucket is at the offset of an earlier one or of the same one.
  pub offset-le :
      (i j : ℕ) (bs : List (List A)) (b : List A) (pos : ℕ)
      → offset i bs ≤ pos
      → pos < offset j bs + length b
      → get_elem? bs j ≡ some b
      → i ≤ j
  offset-le zero j bs b pos low high e = omega arith
  offset-le (suc i) j [] b pos low high e = absurd cc
  offset-le (suc i) zero (c ∷ bs) b pos low high e =
      absurd (omega (arith, ap length (some-injective c b e)))
  offset-le (suc i) (suc j) (c ∷ bs) b pos low high e =
      omega (arith, offset-le i j bs b (pos - length c) (omega arith) (omega arith) e)

  -- There is a bucket at a position that is less than the number of values.
  pub offset-lt :
      (j : ℕ) (bs : List (List A))
      → offset j bs < length (concat bs)
      → j ≤ length bs
      → (b : List A) × (get_elem? bs j ≡ some b)
  offset-lt zero [] h k = absurd (omega arith)
  offset-lt zero (b ∷ bs) h k = (b, refl)
  offset-lt (suc j) [] h k = absurd (omega arith)
  offset-lt (suc j) (b ∷ bs) h k =
      offset-lt j bs (omega (arith, length-append b (concat bs))) (omega arith)

  -- The buckets from one on are those of `bs`.
  abbrev pub Alive : List (List A) → Old A → Type 0
  Alive bs old = (k : ℕ) → old.bindex ≤ k → bucket_at k old.slots ≡ get_elem? bs k

  pub destroy_bucket-bucket_at :
      (i : ℕ) (slots : List (Option (List A))) (b : List A)
      → bucket_at i slots ≡ some b
      → (s : List (Option (List A))) × (destroy_bucket i slots ≡ some s)
        × ((k : ℕ) → i < k → bucket_at k s ≡ bucket_at k slots)
  destroy_bucket-bucket_at i [] b e = absurd cc
  destroy_bucket-bucket_at zero (none ∷ slots) b e = absurd cc
  destroy_bucket-bucket_at zero (some c ∷ slots) b e = (none ∷ slots, refl, later)
    where
      later : (k : ℕ) → 0 < k → bucket_at k (none ∷ slots) ≡ bucket_at k (some c ∷ slots)
      later zero h = absurd (omega arith)
      later (suc k) h = refl
  destroy_bucket-bucket_at (suc i) (o ∷ slots) b e =
      let r = destroy_bucket-bucket_at i slots b e in (o ∷ r.0, rw r.1 refl, later r.0 r.2)
    where
      later :
          (s : List (Option (List A)))
          → ((k : ℕ) → i < k → bucket_at k s ≡ bucket_at k slots)
          → (k : ℕ) → suc i < k
          → bucket_at k (o ∷ s) ≡ bucket_at k (o ∷ slots)
      later s f zero h = absurd (omega arith)
      later s f (suc k) h = f k (omega arith)

  bucket_at-some : (k : ℕ) (bs : List (List A)) → bucket_at k (map some bs) ≡ get_elem? bs k
  bucket_at-some k [] = refl
  bucket_at-some zero (b ∷ bs) = refl
  bucket_at-some (suc k) (b ∷ bs) = bucket_at-some k bs

  pub destroy_before-bucket_at :
      (n : ℕ) (bs : List (List A))
      → n ≤ length bs
      → (s : List (Option (List A))) × (destroy_before n (map some bs) ≡ some s)
        × ((k : ℕ) → n ≤ k → bucket_at k s ≡ get_elem? bs k)
  destroy_before-bucket_at zero bs h = (map some bs, refl, λ k l. bucket_at-some k bs)
  destroy_before-bucket_at (suc n) [] h = absurd (omega arith)
  destroy_before-bucket_at (suc n) (b ∷ bs) h =
      let r = destroy_before-bucket_at n bs (omega arith) in
      (none ∷ r.0, rw r.1 refl, later r.0 r.2)
    where
      later :
          (s : List (Option (List A)))
          → ((k : ℕ) → n ≤ k → bucket_at k s ≡ get_elem? bs k)
          → (k : ℕ) → suc n ≤ k
          → bucket_at k (none ∷ s) ≡ get_elem? (b ∷ bs) k
      later s f zero h = absurd (omega arith)
      later s f (suc k) h = f k (omega arith)
