-- ===== src/TieredVector/BucketSize/Powers.antt =====
-- Powers of two, and what a shift in a machine word leaves of them.
use native.Mathlib.Nat.{pow-suc, pow-le-pow_right, mul_assoc, mul_comm, mul-mod_right, mul-le-mul}
use seq.Prelude.{
  ℕ, zero, suc, ◌+◌, ◌-◌, ◌*◌, ◌%◌, ◌^◌, ◌≤◌, ◌<◌, ◌≡◌, ap, sym, subst, ◌∙◌, arith, mod-eq_of_lt,
}
use seq.CircularBuffer.Masks.{two_pow-pos}

pub pow-add : (j k : ℕ) → 2 ^ (j + k) ≡ 2 ^ j * 2 ^ k
pow-add zero k =
    let same : zero + k ≡ k = omega arith in
    let one : 1 * 2 ^ k ≡ 2 ^ k = omega arith in ap (λ e. 2 ^ e) same ∙ sym one
pow-add (suc j) k =
    let same : suc j + k ≡ suc (j + k) = omega arith in
    ap (λ e. 2 ^ e) same
    ∙ pow-suc 2 (j + k)
    ∙ ap (λ e. e * 2) (pow-add j k)
    ∙ mul_assoc (2 ^ j) (2 ^ k) 2
    ∙ ap (λ e. 2 ^ j * e) (mul_comm (2 ^ k) 2)
    ∙ sym (mul_assoc (2 ^ j) 2 (2 ^ k))
    ∙ ap (λ e. e * 2 ^ k) (sym (pow-suc 2 j))

-- A smaller power of two is not cut off, a greater one is as a whole.
pub short_pow : (bits k : ℕ) → bits < k → 2 ^ bits % 2 ^ k ≡ 2 ^ bits
short_pow bits k h =
    let le : 2 ^ suc bits ≤ 2 ^ k = pow-le-pow_right (omega arith) (omega arith) in
    mod-eq_of_lt (omega (arith, le, pow-suc 2 bits, two_pow-pos bits))

pub long_pow : (bits k : ℕ) → k ≤ bits → 2 ^ bits % 2 ^ k ≡ 0
long_pow bits k h =
    let whole : k + (bits - k) ≡ bits = omega arith in
    subst (λ b. 2 ^ b % 2 ^ k ≡ 0) whole
      (ap (λ x. x % 2 ^ k) (pow-add k (bits - k)) ∙ mul-mod_right (2 ^ k) (2 ^ (bits - k)))

-- `f` times a number within a factor of 2 of the square root of `size`.
pub scaled :
    (f p s size : ℕ)
    → 0 < f
    → p ≤ s
    → s < 2 * p
    → s * s ≤ size
    → size < (s + 1) * (s + 1)
    → (f * f * size < 4 * (f * p * (f * p))) × (f * p * (f * p) ≤ f * f * size)
scaled f p s size positive low high square next =
    let below : p * p ≤ s * s = mul-le-mul low low in
    let up : s + 1 ≤ 2 * p = omega arith in
    let above : (s + 1) * (s + 1) ≤ 2 * p * (2 * p) = mul-le-mul up up in
    let ff : 0 < f * f = grind arith in
    let low_size : f * f * (p * p) ≤ f * f * size = mul-le-mul (omega arith) (omega arith) in
    let high_size : f * f * (size + 1) ≤ f * f * (2 * p * (2 * p)) =
      mul-le-mul (omega arith) (omega arith) in
    let a : f * p * (f * p) ≡ f * f * (p * p) = grind arith in
    let b : f * f * (2 * p * (2 * p)) ≡ 4 * (f * f * (p * p)) = grind arith in
    let c : f * f * (size + 1) ≡ f * f * size + f * f = grind arith in (omega arith, omega arith)
