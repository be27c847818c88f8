-- ===== src/CircularBuffer/Erase.antt =====
-- seq/tiered_vector.hpp: `erase`, `erase_push_back` and `erase_push_front` of `CircularBuffer`,
-- which begin in the same way.
pub mod Remove
pub mod Push
use seq.Prelude.{ℕ, ◌+◌, ◌-◌, ◌/◌, false, ltb, if◌then◌else◌}
use seq.Memory.{World, Outcome, ok, threw, fault, ◌>>=◌, construct_ptr, destroy_ptr}
use seq.CircularBuffer.{Ring, State, Element, at, step_up, finish, emplace_front}
use seq.CircularBuffer.Shift.{move_erase_right_1, move_erase_left_1}

module _ {A : Type 0} where
  -- A relocatable value is destroyed before others are copied over it.
  unfoldable pub vacate : Element A → ℕ → World A → Outcome (World A)
  vacate el p w = if el.relocatable then destroy_ptr p w else ok w

  -- The moved object at the end of the others is destroyed; a relocatable one left none.
  unfoldable pub discard : Element A → ℕ → World A → Outcome (World A)
  discard el p w = if el.relocatable then ok w else destroy_ptr p w

  -- The handlers restore the size.
  unfoldable pub erase : Element A → ℕ → State A → Outcome (State A)
  erase el pos s =
      let b = s.ring in
      let c = record b { size = b.size - 1 } in
      let w = vacate el (at b pos) s.world in
      if ltb (b.size / 2) pos
      then finish c b (w >>= move_erase_right_1 el c pos >>= discard el (at c c.size))
      else finish (step_up c) b (w >>= move_erase_left_1 el c pos >>= discard el (at c 0))

  -- `construct_ptr(&at(size), std::move(value)); size++;`
  unfoldable pub append_value : A → State A → Outcome (State A)
  append_value v s =
      let b = s.ring in
      finish (record b { size = b.size + 1 }) b (construct_ptr false (at b b.size) v s.world)

  unfoldable pub erase_push_back : Element A → ℕ → A → State A → Outcome (State A)
  erase_push_back el pos v s = erase el pos s >>= append_value v

  unfoldable pub erase_push_front : Element A → ℕ → A → State A → Outcome (State A)
  erase_push_front el pos v s = erase el pos s >>= emplace_front v
