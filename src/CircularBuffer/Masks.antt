-- ===== src/CircularBuffer/Masks.antt =====
-- `x & (2^k - 1)` is a remainder, and wraps an index once around.
use Prim.Native.Nat.{min, bit_and, digits, bit_and-bitwise}
use native.Mathlib.Nat.{
  pow-suc, add-mul, mul_assoc, div-add-mod', mod-lt, div-eq_of_lt-le, mod-eq-sub-div-mul,
}
use seq.Prelude.{
  ap, ℕ, zero, suc, ◌+◌, ◌-◌, ◌*◌, ◌/◌, ◌%◌, ◌^◌, ◌≤◌, ◌<◌, ◌≡◌, refl, sym, ◌∙◌, arith, ltb,
  if◌then◌else◌,
}

-- The law for the lowest digit.
abbrev and_digits : ℕ → ℕ → ℕ → ℕ
and_digits n a b = digits (λ b. zero) min n a b

and_digits-fuel : (n m a b : ℕ) → a ≤ n → a ≤ m → and_digits n a b ≡ and_digits m a b
and_digits-fuel zero zero a b p q = refl
and_digits-fuel zero (suc m) zero b p q = refl
and_digits-fuel zero (suc m) (suc a) b p q = absurd (omega arith)
and_digits-fuel (suc n) zero zero b p q = refl
and_digits-fuel (suc n) zero (suc a) b p q = absurd (omega arith)
and_digits-fuel (suc n) (suc m) zero b p q = refl
and_digits-fuel (suc n) (suc m) (suc a) b p q =
    omega (arith, and_digits-fuel n m (suc a / 2) (b / 2) (omega arith) (omega arith))

zero-bit_and : (b : ℕ) → bit_and 0 b ≡ 0
zero-bit_and b = bit_and-bitwise 0 b

pub bit_and_halves : (a b : ℕ) → bit_and a b ≡ bit_and (a / 2) (b / 2) * 2 + min (a % 2) (b % 2)
bit_and_halves zero b = omega (arith, zero-bit_and b, zero-bit_and (b / 2))
bit_and_halves (suc a) b = omega (
  arith,
  bit_and-bitwise (suc a) b,
  bit_and-bitwise (suc a / 2) (b / 2),
  and_digits-fuel a (suc a / 2) (suc a / 2) (b / 2) (omega arith) (omega arith),
)

bit_and-zero_below : (n a : ℕ) → a ≤ n → bit_and a 0 ≡ 0
bit_and-zero_below n zero h = refl
bit_and-zero_below zero (suc a) h = absurd (omega arith)
bit_and-zero_below (suc n) (suc a) h =
    omega (arith, bit_and_halves (suc a) 0, bit_and-zero_below n (suc a / 2) (omega arith))

-- A mask of ones keeps a number below it, and takes one turn from a number above it.
bit_and-lt : (k m x : ℕ) → m + 1 ≡ 2 ^ k → x < 2 ^ k → bit_and x m ≡ x
bit_and-lt zero m x e h =
    let mask : m ≡ 0 = omega arith in
    ap (bit_and x) mask ∙ bit_and-zero_below x x (omega arith) ∙ omega arith
bit_and-lt (suc k) m x e h = omega (
  arith,
  pow-suc 2 k,
  bit_and_halves x m,
  bit_and-lt k (m / 2) (x / 2) (omega (arith, pow-suc 2 k)) (omega (arith, pow-suc 2 k)),
)

bit_and-le : (k m x : ℕ) → m + 1 ≡ 2 ^ k → 2 ^ k ≤ x → x < 2 ^ k + 2 ^ k → bit_and x m ≡ x - 2 ^ k
bit_and-le zero m x e h l =
    let mask : m ≡ 0 = omega arith in
    ap (bit_and x) mask ∙ bit_and-zero_below x x (omega arith) ∙ omega arith
bit_and-le (suc k) m x e h l = omega (
  arith,
  pow-suc 2 k,
  bit_and_halves x m,
  bit_and-le k (m / 2) (x / 2) (omega (arith, pow-suc 2 k)) (omega (arith, pow-suc 2 k))
      (omega (arith, pow-suc 2 k)),
)

-- An index at most once around.
pub wrap :
    (k m x : ℕ)
    → m + 1 ≡ 2 ^ k
    → x < 2 ^ k + 2 ^ k
    → bit_and x m ≡ (if ltb x (2 ^ k) then x else x - 2 ^ k)
wrap k m x e h = ground (arith, bit_and-lt k m x, bit_and-le k m x)

pub remainder : (n q r x : ℕ) → x ≡ q * n + r → r < n → x % n ≡ r
remainder n q r x e h =
    let quotient : x / n ≡ q =
      div-eq_of_lt-le n (omega (arith, e)) (omega (arith, e, add-mul q 1 n)) in
    mod-eq-sub-div-mul x n ∙ ap (λ k. x - k * n) quotient ∙ omega (arith, e)

pub two_pow-pos : (k : ℕ) → 0 < 2 ^ k
two_pow-pos zero = omega arith
two_pow-pos (suc k) = omega (arith, two_pow-pos k, pow-suc 2 k)

-- The mask of any number.
pub mask-mod : (k m x : ℕ) → m + 1 ≡ 2 ^ k → bit_and x m ≡ x % 2 ^ k
mask-mod zero m x e =
    let mask : m ≡ 0 = omega arith in
    ap (bit_and x) mask
    ∙ bit_and-zero_below x x (omega arith)
    ∙ sym (remainder 1 x 0 x (omega arith) (omega arith))
mask-mod (suc k) m x e =
    let rest : bit_and (x / 2) (m / 2) ≡ (x / 2) % 2 ^ k =
      mask-mod k (m / 2) (x / 2) (omega (arith, pow-suc 2 k)) in
    let half : x / 2 ≡ (x / 2) / 2 ^ k * 2 ^ k + (x / 2) % 2 ^ k =
      sym (div-add-mod' (x / 2) (2 ^ k)) in
    let below : (x / 2) % 2 ^ k < 2 ^ k = mod-lt (x / 2) (two_pow-pos k) in
    let whole : (x / 2) / 2 ^ k * 2 ^ suc k ≡ (x / 2) / 2 ^ k * 2 ^ k * 2 =
      ap (λ p. (x / 2) / 2 ^ k * p) (pow-suc 2 k) ∙ sym (mul_assoc ((x / 2) / 2 ^ k) (2 ^ k) 2) in
    sym (
      remainder (2 ^ suc k) ((x / 2) / 2 ^ k) (bit_and x m) x
        (omega (arith, bit_and_halves x m, rest, half, whole, pow-suc 2 k))
        (omega (arith, bit_and_halves x m, rest, below, pow-suc 2 k)))
