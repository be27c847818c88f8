-- ===== src/TaggedPointer.antt =====
-- seq/tagged_pointer.hpp: `tagged_pointer`. A word is the number of its 64 bits; `bits` is the
-- number of low bits for the tag, the logarithm of the alignment.
pub mod Digits
pub mod Words
mod Tests
use Prim.Native.Nat.{bit_and, bit_or}
use seq.Prelude.{ℕ, ◌-◌, ◌%◌, ◌^◌, ◌<◌, ◌≡◌}

-- `~((1ULL << tag_bits) - 1ULL)` and `(1ULL << tag_bits) - 1ULL`
abbrev pub mask_high : ℕ → ℕ
mask_high bits = 2 ^ 64 - 1 - (2 ^ bits - 1)

abbrev pub mask_low : ℕ → ℕ
mask_low bits = 2 ^ bits - 1

-- The word from a pointer, and from a pointer and a tag.
abbrev pub from_pointer : ℕ → ℕ
from_pointer p = p

unfoldable pub from_tagged : ℕ → ℕ → ℕ → ℕ
from_tagged bits p t = bit_or p (bit_and t (mask_low bits))

unfoldable pub ptr : ℕ → ℕ → ℕ
ptr bits d = bit_and d (mask_high bits)

unfoldable pub tag : ℕ → ℕ → ℕ
tag bits d = bit_and d (mask_low bits)

unfoldable pub set_ptr : ℕ → ℕ → ℕ → ℕ
set_ptr bits p d = bit_or (tag bits d) p

-- The tag is not masked here.
unfoldable pub set_tag : ℕ → ℕ → ℕ → ℕ
set_tag bits t d = bit_or t (bit_and d (mask_high bits))

unfoldable pub set : ℕ → ℕ → ℕ → ℕ → ℕ
set bits p t d = bit_or p (bit_and t (mask_low bits))

-- The tag is given as an `unsigned`.
unfoldable pub split : ℕ → ℕ → ℕ × ℕ
split bits d = (ptr bits d, tag bits d % 2 ^ 32)

-- The whole word.
abbrev pub full : ℕ → ℕ
full d = d

abbrev pub set_full : ℕ → ℕ → ℕ
set_full p d = p
