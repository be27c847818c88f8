-- ===== src/CircularBuffer/Shift.antt =====
-- seq/tiered_vector.hpp: `move_right_1`, `move_left_1`, `move_erase_right_1` and
-- `move_erase_left_1` of `CircularBuffer`, which move elements by one cell, in at most two
-- stretches of memory around one cell between the ends of the storage.
pub mod Rightward
pub mod Leftward
pub mod Effect
use Prim.Native.Nat.{bit_and}
use seq.Prelude.{ℕ, zero, suc, ◌+◌, ◌-◌, ltb, ◌==◌, if◌then◌else◌}
use seq.Memory.{World, Outcome, ok, threw, fault, ◌>>=◌}
use seq.CircularBuffer.{Ring, Element, at, take_out, put_in}

module _ {A : Type 0} where
  -- `*dst = std::move(*src)`, or the move of the bytes of a relocatable object.
  unfoldable pub transfer : Element A → ℕ → ℕ → World A → Outcome (World A)
  transfer el dst src w = elim (take_out el src w) [
    | ok r ↦ put_in el dst r.0 r.1
    | threw r ↦ fault
    | fault ↦ fault
  ]

  -- `while (ptr1 > stop) { ptr1[0] = std::move(ptr1[-1]); --ptr1; }` with `n` rounds, or `memmove`
  -- of `n` relocatable objects, which leaves the same cells.
  unfoldable pub raise : Element A → ℕ → ℕ → World A → Outcome (World A)
  raise el zero ptr w = ok w
  raise el (suc n) ptr w = transfer el ptr (ptr - 1) w >>= raise el n (ptr - 1)

  -- `while (ptr1 < stop) { *ptr1 = std::move(ptr1[1]); ++ptr1; }`
  unfoldable pub lower : Element A → ℕ → ℕ → World A → Outcome (World A)
  lower el zero ptr w = ok w
  lower el (suc n) ptr w = transfer el ptr (ptr + 1) w >>= lower el n (ptr + 1)

  -- The body of `move_right_1` and `move_erase_left_1`: from `ptr` down to `goal`.
  unfoldable pub raise_to : Element A → Ring → ℕ → ℕ → World A → Outcome (World A)
  raise_to el b ptr goal w =
      let stop = if ltb ptr goal then b.buffer else goal in
      let last = b.buffer + b.max_size1 in
      raise el (ptr - stop) ptr w >>= (λ v.
        if stop == goal then ok v else transfer el stop last v >>= raise el (last - goal) last)

  -- The body of `move_left_1` and `move_erase_right_1`: from `ptr` up to `goal`.
  unfoldable pub lower_to : Element A → Ring → ℕ → ℕ → World A → Outcome (World A)
  lower_to el b ptr goal w =
      let stop = if ltb goal ptr then b.buffer + b.max_size1 else goal in
      lower el (stop - ptr) ptr w >>= (λ v.
        if stop == goal
        then ok v
        else transfer el stop b.buffer v >>= lower el (goal - b.buffer) b.buffer)

  abbrev pub move_right_1 : Element A → Ring → ℕ → World A → Outcome (World A)
  move_right_1 el b pos = raise_to el b (at b (b.size - 1)) (at b pos)

  abbrev pub move_left_1 : Element A → Ring → ℕ → World A → Outcome (World A)
  move_left_1 el b pos = lower_to el b (at b 0) (b.buffer + bit_and (b.begin + pos - 1) b.max_size1)

  abbrev pub move_erase_right_1 : Element A → Ring → ℕ → World A → Outcome (World A)
  move_erase_right_1 el b pos = lower_to el b (at b pos) (at b b.size)

  abbrev pub move_erase_left_1 : Element A → Ring → ℕ → World A → Outcome (World A)
  move_erase_left_1 el b pos = raise_to el b (at b pos) (at b 0)

  -- The "non optimized way" of the comments: `n` rounds of `(*this)[i] = std::move((*this)[i - 1])`
  -- with falling `i`, or of `(*this)[i] = std::move((*this)[i + 1])` with rising `i`.
  unfoldable pub shift_right : Element A → Ring → ℕ → ℕ → World A → Outcome (World A)
  shift_right el b zero i w = ok w
  shift_right el b (suc n) i w =
      transfer el (at b i) (at b (i - 1)) w >>= shift_right el b n (i - 1)

  unfoldable pub shift_left : Element A → Ring → ℕ → ℕ → World A → Outcome (World A)
  shift_left el b zero i w = ok w
  shift_left el b (suc n) i w = transfer el (at b i) (at b (i + 1)) w >>= shift_left el b n (i + 1)
