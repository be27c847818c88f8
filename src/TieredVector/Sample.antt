-- ===== src/TieredVector/Sample.antt =====
-- Configurations and a vector for the tests.
use native.Mathlib.Nat.{pow-suc}
use seq.Prelude.{
  ℕ, zero, suc, ◌+◌, ◌*◌, ◌/◌, ◌^◌, ◌≤◌, ◌<◌, ◌≡◌, refl, ap, ◌∙◌, inl, inr, Bool-cases, arith, ltb,
  leb, leb→le, ltb-false, false, if◌then◌else◌, List, [], ◌∷◌,
}
use seq.CircularBuffer.Masks.{two_pow-pos}
use seq.BucketManager.{Manager}
use seq.BucketManager.Locate.{Represents}
use seq.TieredVector.{Config}
use seq.TieredVector.BucketSize.{IsValid}
use seq.TieredVector.BucketSize.Near.{Documented}

-- The index of the highest bit, by halving.
unfoldable pub log2 : ℕ → ℕ → ℕ
log2 zero x = 0
log2 (suc fuel) x = let rest = log2 fuel (x / 2) in if ltb x 2 then 0 else rest + 1

log2-pow : (fuel k : ℕ) → k ≤ fuel → log2 fuel (2 ^ k) ≡ k
unfolding log2
log2-pow zero k h = omega arith
log2-pow (suc fuel) zero h = refl
log2-pow (suc fuel) (suc k) h =
    let double : 2 ^ suc k / 2 ≡ 2 ^ k = omega arith in
    let many : ltb (2 ^ suc k) 2 ≡ false = ltb-false (2 ^ suc k) 2 (omega (arith, two_pow-pos k)) in
    rw (log2, many, double, log2-pow fuel k (omega arith)) (omega arith)

pow-le : (k : ℕ) → k ≤ 2 ^ k
pow-le zero = omega arith
pow-le (suc k) = omega (arith, pow-le k, two_pow-pos k)

abbrev pub highest_bit : ℕ → ℕ
highest_bit x = log2 x x

pub highest_bit-pow : (k : ℕ) → highest_bit (2 ^ k) ≡ k
highest_bit-pow k = log2-pow (2 ^ k) k (pow-le k)

-- Buckets of two or four values.
abbrev pub small : Config
small = record {
  min_block_size = 2;
  max_block_size = 4;
  value_size = 8;
  bit_scan_reverse = highest_bit;
  sqrt = λ x. x;
}

pub small-IsValid : IsValid small
small-IsValid = record {
  least = (1, refl);
  greatest = (2, refl);
  order = omega arith;
  scan = highest_bit-pow;
}

log2-near : (fuel x : ℕ) → 0 < x → x ≤ fuel → (2 ^ log2 fuel x ≤ x) × (x < 2 * 2 ^ log2 fuel x)
unfolding log2
log2-near zero x some_left h = absurd (omega arith)
log2-near (suc fuel) x some_left h = elim (Bool-cases (ltb x 2)) [
  | inl e ↦ rw (log2, e) (ground arith, ground arith)
  | inr e ↦
      let many : 2 ≤ x = ground arith in
      let rest = log2-near fuel (x / 2) (omega arith) (omega arith) in
      let double = pow-suc 2 (log2 fuel (x / 2)) in
      let next : 2 ^ (log2 fuel (x / 2) + 1) ≡ 2 ^ log2 fuel (x / 2) * 2 =
        ap (λ e. 2 ^ e) (let e : log2 fuel (x / 2) + 1 ≡ suc (log2 fuel (x / 2)) = omega arith in e)
        ∙ double in
      rw (log2, e) (omega (arith, rest.0, next), omega (arith, rest.1, next))
]

-- The square root, rounded down.
unfoldable pub root : ℕ → ℕ
root zero = 0
root (suc n) = let r = root n in if leb ((r + 1) * (r + 1)) (suc n) then r + 1 else r

root-near : (n : ℕ) → (root n * root n ≤ n) × (n < (root n + 1) * (root n + 1))
unfolding root
root-near zero = (omega arith, omega arith)
root-near (suc n) =
    let r = root n in
    let before = root-near n in
    let square : (r + 1 + 1) * (r + 1 + 1) ≡ (r + 1) * (r + 1) + 2 * r + 3 = grind arith in
    elim (Bool-cases (leb ((r + 1) * (r + 1)) (suc n))) [
      | inl e ↦
          let le = leb→le ((r + 1) * (r + 1)) (suc n) e in
          rw (root, e) (le, omega (arith, before.1, square))
      | inr e ↦ rw (root, e) (omega (arith, before.0), ground arith)
    ]

-- Buckets of 2 up to 1024 values.
abbrev pub wide : Config
wide = record {
  min_block_size = 2;
  max_block_size = 1024;
  value_size = 8;
  bit_scan_reverse = highest_bit;
  sqrt = root;
}

pub wide-IsValid : IsValid wide
wide-IsValid = record {
  least = (1, refl);
  greatest = (10, refl);
  order = omega arith;
  scan = highest_bit-pow;
}

pub wide-Documented : Documented wide
wide-Documented = record {
  highest = λ x some_left. log2-near x x some_left (omega arith);
  root = λ n small. root-near n;
}

abbrev pub evens : List ℕ
evens = 4 ∷ 6 ∷ 8 ∷ 10 ∷ 12 ∷ []

abbrev pub pairs : Manager ℕ
pairs = record {
  buckets = (4 ∷ []) ∷ (6 ∷ 8 ∷ []) ∷ (10 ∷ 12 ∷ []) ∷ [];
  size = 5;
  bucket_size = 2;
  bucket_size1 = 1;
  bucket_size_bits = 1;
}

pub pairs-Represents : Represents pairs evens
pairs-Represents = record {
  power = refl;
  mask = refl;
  spine = (omega arith, omega arith, (refl, (omega arith, omega arith)));
  elements = refl;
  count = refl;
}
