-- ===== src/TieredVector/BucketSize.antt =====
-- The bucket size that is chosen for a size.
pub mod Powers
pub mod Near
use seq.Prelude.{
  ℕ, ◌%◌, ◌^◌, ◌≤◌, ◌≡◌, refl, subst, ◌⊎◌, inl, inr, Bool, true, false, Bool-cases, arith, ltb,
  if◌then◌else◌,
}
use seq.TieredVector.{Config, as_int, small_bucket_size, large_bucket_size, clamp, find_bucket_size}
use seq.TieredVector.BucketSize.Powers.{short_pow, long_pow}

abbrev pub IsPower : ℕ → Type 0
IsPower n = (k : ℕ) × (n ≡ 2 ^ k)

-- What the assertions on the template arguments say, and what the compiler's function computes.
pub record IsValid (c : Config) : Type 0 where
  pub least : IsPower c.min_block_size
  pub greatest : IsPower c.max_block_size
  pub order : c.min_block_size ≤ c.max_block_size
  pub scan : (k : ℕ) → c.bit_scan_reverse (2 ^ k) ≡ k

if-IsPower : (b : Bool) (x y : ℕ) → IsPower x → IsPower y → IsPower (if b then x else y)
if-IsPower true x y p q = p
if-IsPower false x y p q = q

pub small_bucket_size-IsPower : (size : ℕ) → IsPower (small_bucket_size size)
unfolding small_bucket_size
small_bucket_size-IsPower size =
    if-IsPower (ltb size 8) _ _ (1, refl)
      (if-IsPower (ltb size 32) _ _ (2, refl)
        (if-IsPower (ltb size 128) _ _ (3, refl)
          (if-IsPower (ltb size 512) _ _ (4, refl)
            (if-IsPower (ltb size 1024) _ _ (5, refl)
              (if-IsPower (ltb size 2048) _ _ (6, refl) (7, refl))))))

shifted : (bits : ℕ) → IsPower (as_int (2 ^ bits % 2 ^ 32)) ⊎ (as_int (2 ^ bits % 2 ^ 32) ≡ 0)
shifted bits = elim (Bool-cases (ltb bits 32)) [
  | inl short ↦
      let e = short_pow bits 32 (ground arith) in
      elim (Bool-cases (ltb (2 ^ bits) (2 ^ 31))) [
        | inl fits ↦ inl (bits, rw (e, fits) refl)
        | inr negative ↦ inr (rw (e, negative) refl)
      ]
  | inr long ↦ inr (rw (long_pow bits 32 (ground arith)) refl)
]

large_bucket_size-IsPower :
    (c : Config) (size : ℕ) → IsPower (large_bucket_size c size) ⊎ (large_bucket_size c size ≡ 0)
unfolding large_bucket_size
large_bucket_size-IsPower c size = shifted _

clamp-IsPower :
    (low high res : ℕ)
    → IsPower low
    → IsPower high
    → IsPower res ⊎ (res ≡ 0)
    → IsPower (clamp low high res)
unfolding clamp
clamp-IsPower low high res p q (inl r) = if-IsPower _ _ _ (if-IsPower (ltb res high) res high r q) p
clamp-IsPower low high res p q (inr zero_res) =
    elim (Bool-cases (ltb low (if ltb res high then res else high))) [
      | inl e ↦
          let h : high ≡ (if ltb res high then res else high) = ground arith in
          rw e (subst IsPower h q)
      | inr e ↦ rw e p
    ]

chosen :
    (c : Config) (size : ℕ) (b : Bool)
    → IsPower (if b then small_bucket_size size else large_bucket_size c size)
      ⊎ ((if b then small_bucket_size size else large_bucket_size c size) ≡ 0)
chosen c size true = inl (small_bucket_size-IsPower size)
chosen c size false = large_bucket_size-IsPower c size

clamp-within :
    (low high res : ℕ) → low ≤ high → (low ≤ clamp low high res) × (clamp low high res ≤ high)
unfolding clamp
clamp-within low high res h = (ground arith, ground arith)

pub find_bucket_size-IsPower :
    (c : Config) (size : ℕ)
    → IsValid c
    → IsPower (find_bucket_size c size)
      × (c.min_block_size ≤ find_bucket_size c size)
      × (find_bucket_size c size ≤ c.max_block_size)
unfolding find_bucket_size
find_bucket_size-IsPower c size valid = elim (Bool-cases (ltb size c.min_block_size)) [
  | inl few ↦ rw (find_bucket_size, few) (valid.least, omega arith, valid.order)
  | inr many ↦
      let res = if ltb size 4096 then small_bucket_size size else large_bucket_size c size in
      let within = clamp-within c.min_block_size c.max_block_size res valid.order in
      rw (find_bucket_size, many)
        (
          clamp-IsPower c.min_block_size c.max_block_size res valid.least valid.greatest
              (chosen c size (ltb size 4096)),
          within.0,
          within.1,
        )
]
