-- ===== src/TieredVector/BucketSize/Near.antt =====
-- The bucket size next to the square root of a size.
use seq.Prelude.{ℕ, ◌+◌, ◌*◌, ◌%◌, ◌^◌, ◌≤◌, ◌<◌, ◌⊎◌, leb, if◌then◌else◌}
use seq.TieredVector.{Config, as_int}
use seq.TieredVector.BucketSize.{IsPower}

-- The highest bit of a number, and the square root of a number that a double holds exactly, rounded
-- down.
pub record Documented (c : Config) : Type 0 where
  pub highest :
      (x : ℕ) → 0 < x → (2 ^ c.bit_scan_reverse x ≤ x) × (x < 2 * 2 ^ c.bit_scan_reverse x)
  pub root :
      (n : ℕ) → n < 2 ^ 52 → (c.sqrt n * c.sqrt n ≤ n) × (n < (c.sqrt n + 1) * (c.sqrt n + 1))

-- 8, 4 or 2 times, for small, middle and large values.
abbrev pub spread : Config → ℕ
spread c = if leb c.value_size 16 then 8 else if leb c.value_size 64 then 4 else 2

-- Below 4096, `b` is greater than the root of the half of `size` and at most that of eight times
-- `size`. From there on it is at most `spread` times the root of `size`, and greater than half of
-- this.
abbrev pub Near : Config → ℕ → ℕ → Type 0
Near c size b =
    ((size < 4096) × (size < 2 * (b * b)) × (b * b ≤ 8 * size))
    ⊎ ((4096 ≤ size)
        × (spread c * spread c * size < 4 * (b * b))
        × (b * b ≤ spread c * spread c * size))

module _ (c : Config) (documented : Documented c) (size : ℕ) (small : size < 2 ^ 52)
    (many : 4096 ≤ size) where
  abbrev root_of : ℕ
  root_of = c.sqrt size

  -- For an offset of the code, the shift gives a power of two in its range.
  Shifts : ℕ → Type 0
  Shifts offset =
      let b = as_int (2 ^ (c.bit_scan_reverse root_of + offset) % 2 ^ 32) in
      IsPower b
      × (2 ^ offset * 2 ^ offset * size < 4 * (b * b))
      × (b * b ≤ 2 ^ offset * 2 ^ offset * size)
