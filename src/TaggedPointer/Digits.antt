-- ===== src/TaggedPointer/Digits.antt =====
-- The binary digits of a number above and below a power of two.
use Prim.Native.Nat.{max, bit_and, bit_or, digits, bit_or-bitwise}
use native.Mathlib.Nat.{pow-suc, mul_assoc, mod-eq_of_lt}
use seq.Prelude.{
  ap, ℕ, zero, suc, ◌+◌, ◌-◌, ◌*◌, ◌/◌, ◌%◌, ◌^◌, ◌≤◌, ◌<◌, ◌≡◌, refl, sym, ◌∙◌, arith,
}
use seq.CircularBuffer.Masks.{bit_and_halves, two_pow-pos, mask-mod}

abbrev or_digits : ℕ → ℕ → ℕ → ℕ
or_digits n a b = digits (λ b. b) max n a b

or_digits-fuel : (n m a b : ℕ) → a ≤ n → a ≤ m → or_digits n a b ≡ or_digits m a b
or_digits-fuel zero zero a b p q = refl
or_digits-fuel zero (suc m) zero b p q = refl
or_digits-fuel zero (suc m) (suc a) b p q = absurd (omega arith)
or_digits-fuel (suc n) zero zero b p q = refl
or_digits-fuel (suc n) zero (suc a) b p q = absurd (omega arith)
or_digits-fuel (suc n) (suc m) zero b p q = refl
or_digits-fuel (suc n) (suc m) (suc a) b p q =
    omega (arith, or_digits-fuel n m (suc a / 2) (b / 2) (omega arith) (omega arith))

zero-bit_or : (b : ℕ) → bit_or 0 b ≡ b
zero-bit_or b = bit_or-bitwise 0 b

bit_or_halves : (a b : ℕ) → bit_or a b ≡ bit_or (a / 2) (b / 2) * 2 + max (a % 2) (b % 2)
bit_or_halves zero b = omega (arith, zero-bit_or b, zero-bit_or (b / 2))
bit_or_halves (suc a) b = omega (
  arith,
  bit_or-bitwise (suc a) b,
  bit_or-bitwise (suc a / 2) (b / 2),
  or_digits-fuel a (suc a / 2) (suc a / 2) (b / 2) (omega arith) (omega arith),
)

pub bit_or-zero_below : (n a : ℕ) → a ≤ n → bit_or a 0 ≡ a
bit_or-zero_below n zero h = refl
bit_or-zero_below zero (suc a) h = absurd (omega arith)
bit_or-zero_below (suc n) (suc a) h =
    omega (arith, bit_or_halves (suc a) 0, bit_or-zero_below n (suc a / 2) (omega arith))

-- The digits of a multiple and of a number below the power do not meet.
module _ (q : ℕ) where
  twice : (k : ℕ) → q * 2 ^ suc k ≡ q * 2 ^ k * 2
  twice k = ap (λ p. q * p) (pow-suc 2 k) ∙ sym (mul_assoc q (2 ^ k) 2)

  pub bit_or-add : (k p t : ℕ) → p ≡ q * 2 ^ k → t < 2 ^ k → bit_or p t ≡ p + t
  bit_or-add zero p t e h =
      let z : t ≡ 0 = omega arith in
      ap (bit_or p) z ∙ bit_or-zero_below p p (omega arith) ∙ omega arith
  bit_or-add (suc k) p t e h = omega (
    arith,
    e,
    twice k,
    bit_or_halves p t,
    bit_or-add k (p / 2) (t / 2) (omega (arith, e, twice k)) (omega (arith, pow-suc 2 k)),
  )

  pub bit_or-add_left : (k p t : ℕ) → p ≡ q * 2 ^ k → t < 2 ^ k → bit_or t p ≡ p + t
  bit_or-add_left zero p t e h =
      let z : t ≡ 0 = omega arith in ap (λ s. bit_or s p) z ∙ zero-bit_or p ∙ omega arith
  bit_or-add_left (suc k) p t e h = omega (
    arith,
    e,
    twice k,
    bit_or_halves t p,
    bit_or-add_left k (p / 2) (t / 2) (omega (arith, e, twice k)) (omega (arith, pow-suc 2 k)),
  )

mod-halves : (k x : ℕ) → x % 2 ^ suc k ≡ (x / 2) % 2 ^ k * 2 + x % 2
mod-halves k x =
    let m = 2 ^ suc k - 1 in
    omega (
      arith,
      pow-suc 2 k,
      two_pow-pos k,
      mask-mod (suc k) m x (omega (arith, pow-suc 2 k, two_pow-pos k)),
      bit_and_halves x m,
      mask-mod k (m / 2) (x / 2) (omega (arith, pow-suc 2 k, two_pow-pos k)),
    )

-- A mask of ones above the lowest digits takes these away.
pub bit_and-high :
    (k j x m : ℕ) → m + 2 ^ k ≡ 2 ^ (j + k) → x < 2 ^ (j + k) → bit_and x m + x % 2 ^ k ≡ x
bit_and-high zero j x m e h =
    let all : bit_and x m ≡ x = mask-mod (j + 0) m x e ∙ mod-eq_of_lt h in omega (arith, all)
bit_and-high (suc k) j x m e h =
    let shifted : 2 ^ (j + suc k) ≡ 2 ^ (j + k) * 2 =
      ap (λ i. 2 ^ i) (let i : j + suc k ≡ suc (j + k) = omega arith in i) ∙ pow-suc 2 (j + k) in
    let rest =
      bit_and-high k j (x / 2) (m / 2) (omega (arith, e, shifted, pow-suc 2 k))
        (omega (arith, shifted)) in
    omega (arith, bit_and_halves x m, mod-halves k x, rest, e, shifted, pow-suc 2 k)
