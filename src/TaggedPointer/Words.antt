-- ===== src/TaggedPointer/Words.antt =====
-- A word is an aligned address and a tag, and the operations keep it so.
use Prim.Native.Nat.{bit_and, bit_or}
use seq.Prelude.{ap, ap₂, ℕ, zero, suc, ◌+◌, ◌-◌, ◌*◌, ◌%◌, ◌^◌, ◌≤◌, ◌<◌, ◌≡◌, ◌∙◌, arith}
use native.Mathlib.Nat.{pow-suc, mod-lt}
use seq.CircularBuffer.Masks.{two_pow-pos, mask-mod, remainder}
use seq.TaggedPointer.{
  mask_high, mask_low, from_pointer, from_tagged, ptr, tag, set_ptr, set_tag, set, split, full,
  set_full,
}
use seq.TaggedPointer.Digits.{bit_or-add, bit_or-add_left, bit_or-zero_below, bit_and-high}

-- A multiple of the alignment, with the bytes up to the next one in the address space.
pub record Aligned (bits p : ℕ) : Type 0 where
  pub quotient : ℕ
  pub multiple : p ≡ quotient * 2 ^ bits
  pub room : p + 2 ^ bits ≤ 2 ^ 64

-- The word of an address and a tag.
pub record Tagged (bits d p t : ℕ) : Type 0 where
  pub aligned : Aligned bits p
  pub small : t < 2 ^ bits
  pub sum : d ≡ p + t

module _ (bits : ℕ) (fits : bits ≤ 64) where
  low_lem : (x : ℕ) → bit_and x (mask_low bits) ≡ x % 2 ^ bits
  low_lem x = mask-mod bits (mask_low bits) x (omega (arith, two_pow-pos bits))

  pow-le : (j : ℕ) → 2 ^ bits ≤ 2 ^ (j + bits)
  pow-le zero =
      let e : 2 ^ bits ≡ 2 ^ (0 + bits) = ap (λ i. 2 ^ i) (omega arith) in omega (arith, e)
  pow-le (suc j) =
      let e : 2 ^ suc (j + bits) ≡ 2 ^ (suc j + bits) = ap (λ i. 2 ^ i) (omega arith) in
      omega (arith, pow-le j, e, pow-suc 2 (j + bits))

  high_of : (x : ℕ) → x < 2 ^ 64 → bit_and x (mask_high bits) + x % 2 ^ bits ≡ x
  high_of x h =
      let same : 64 - bits + bits ≡ 64 = omega arith in
      let width : 2 ^ (64 - bits + bits) ≡ 2 ^ 64 = ap (λ i. 2 ^ i) same in
      bit_and-high bits (64 - bits) x (mask_high bits)
        (omega (arith, width, pow-le (64 - bits), two_pow-pos bits)) (omega (arith, width))

  module _ (d p t : ℕ) (word : Tagged bits d p t) where
    rest : d % 2 ^ bits ≡ t
    rest =
        let a = word.aligned in
        remainder (2 ^ bits) a.quotient t d (omega (arith, word.sum, a.multiple)) word.small

    high_lem : bit_and d (mask_high bits) ≡ p
    high_lem =
        let a = word.aligned in
        let split_off = high_of d (omega (arith, word.sum, word.small, a.room)) in
        omega (arith, split_off, rest, word.sum)

    -- For at most 64 bits for the tag, `ptr`, `tag` and `split` give back the address and the tag
    -- of which a word is made, `split` the tag modulo 2^32.
    pub Tagged-read : (ptr bits d ≡ p) × (tag bits d ≡ t) × (split bits d ≡ (p, t % 2 ^ 32))
    unfolding ptr tag split
    Tagged-read =
        let low = low_lem d ∙ rest in
        (high_lem, low, ap₂ (λ (a : ℕ) (b : ℕ). (a, b % 2 ^ 32)) high_lem low)

  or_lem : (p t : ℕ) → Aligned bits p → t < 2 ^ bits → Tagged bits (bit_or p t) p t
  or_lem p t a h = record {
    aligned = a;
    small = h;
    sum = bit_or-add a.quotient bits p t a.multiple h;
  }

  or_left_lem : (p t : ℕ) → Aligned bits p → t < 2 ^ bits → Tagged bits (bit_or t p) p t
  or_left_lem p t a h = record {
    aligned = a;
    small = h;
    sum = bit_or-add_left a.quotient bits p t a.multiple h;
  }

  -- For at most 64 bits for the tag, on the word of an address `p` and a tag `t`, with an aligned
  -- address `q` whose unit lies in the address space, each construction and each operation that
  -- changes the word gives the word of the address and the tag that it should: `from_pointer`,
  -- `from_tagged` and `set` those given, the tag without its bits above, `set_ptr` of `q` keeps
  -- `t`, `set_tag` of a tag that has the room keeps `p`, and `set_full` of the whole word keeps
  -- both.
  pub Tagged-set :
      (d p t q s : ℕ)
      → Tagged bits d p t
      → Aligned bits q
      → Tagged bits (from_pointer q) q 0
        × Tagged bits (from_tagged bits q s) q (s % 2 ^ bits)
        × Tagged bits (set bits q s d) q (s % 2 ^ bits)
        × Tagged bits (set_ptr bits q d) q t
        × Tagged bits (set_tag bits (s % 2 ^ bits) d) p (s % 2 ^ bits)
        × Tagged bits (set_full (full d) (from_pointer q)) p t
  unfolding from_tagged set set_ptr set_tag tag
  Tagged-set d p t q s word a =
      let z = two_pow-pos bits in
      let below : s % 2 ^ bits < 2 ^ bits = mod-lt s z in
      (
        record { aligned = a; small = z; sum = omega arith },
        rw (low_lem s) (or_lem q (s % 2 ^ bits) a below),
        rw (low_lem s) (or_lem q (s % 2 ^ bits) a below),
        rw (low_lem d, rest d p t word) (or_left_lem q t a word.small),
        rw (high_lem d p t word) (or_left_lem p (s % 2 ^ bits) word.aligned below),
        word,
      )

  -- A tag that is too large becomes a part of the address.
  pub set_tag-ptr :
      (s : ℕ) → 2 ^ bits ≤ s → s < 2 ^ 64 → 0 < ptr bits (set_tag bits s (from_pointer 0))
  unfolding set_tag ptr
  set_tag-ptr s large word =
      let nothing : bit_and 0 (mask_high bits) ≡ 0 = omega (arith, high_of 0 (omega arith)) in
      let whole : bit_or s 0 ≡ s = bit_or-zero_below s s (omega arith) in
      rw (nothing, whole) (omega (arith, high_of s word, mod-lt s (two_pow-pos bits)))
