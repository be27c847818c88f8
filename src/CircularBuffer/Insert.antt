-- ===== src/CircularBuffer/Insert.antt =====
-- seq/tiered_vector.hpp: `move_right`, `move_left`, `emplace`, `insert_pop_back` and
-- `insert_pop_front` of `CircularBuffer`.
pub mod Place
pub mod Emplace
pub mod Pop
use Prim.Native.Nat.{bit_and}
use seq.Prelude.{ℕ, zero, suc, ◌+◌, ◌-◌, ◌/◌, Bool, true, false, ltb, ◌==◌, if◌then◌else◌}
use seq.Memory.{World, Outcome, ok, threw, fault, ◌>>=◌, construct_ptr, destroy_ptr}
use seq.CircularBuffer.{Ring, State, Element, at, step_up, step_down, finish, take_out, put_in}
use seq.CircularBuffer.Shift.{move_right_1, move_left_1}

module _ {A : Type 0} where
  -- A type that is not relocatable needs an object to be assigned to.
  unfoldable pub grow_object : Element A → ℕ → World A → Outcome (World A)
  grow_object el p w = if el.relocatable then ok w else construct_ptr false p el.blank w

  unfoldable pub move_right : Element A → ℕ → State A → Outcome (State A)
  move_right el pos s =
      let b = s.ring in
      let c = record b { size = b.size + 1 } in
      elim (grow_object el (at b b.size) s.world) [
        | ok w ↦ finish c c (move_right_1 el c pos w)
        | threw w ↦ threw (record s { world = w })
        | fault ↦ fault
      ]

  unfoldable pub move_left : Element A → ℕ → State A → Outcome (State A)
  move_left el pos s =
      let b = s.ring in
      let c = record (step_down b) { size = b.size + 1 } in
      let p =
        if b.begin == 0 then at b b.max_size1 else b.buffer + bit_and (b.begin - 1) b.max_size1 in
      elim (grow_object el p s.world) [
        | ok w ↦ finish c c (move_left_1 el c (pos + 1) w)
        | threw w ↦ threw (record s { world = w })
        | fault ↦ fault
      ]

  -- `for (; i < size; ++i) destroy_ptr(&(*this)[i]);` with `n` rounds.
  unfoldable pub destroy_span : Ring → ℕ → ℕ → World A → Outcome (World A)
  destroy_span b zero i w = ok w
  destroy_span b (suc n) i w = destroy_ptr (at b i) w >>= destroy_span b n (i + 1)

  -- `*p = T(args...)`: a construction that may throw, and a move.
  unfoldable pub assign_new : Element A → ℕ → A → World A → Outcome (World A)
  assign_new el p v w =
      if w.fuse == 0 then threw w else put_in el p v (record w { fuse = w.fuse - 1 })

  -- The end of the three insertions: the value goes to `index`. The handler for relocatable types
  -- destroys the elements behind, and keeps those before.
  unfoldable pub place : Element A → ℕ → A → State A → Outcome (State A)
  place el index v s =
      let b = s.ring in
      if el.relocatable
      then elim (construct_ptr false (at b index) v s.world) [
        | ok w ↦ ok (record s { world = w })
        | threw w ↦ elim (destroy_span b (b.size - (index + 1)) (index + 1) w) [
          | ok w' ↦ threw (record { ring = record b { size = index }; world = w' })
          | threw w' ↦ fault
          | fault ↦ fault
        ]
        | fault ↦ fault
      ]
      else finish b b (assign_new el (at b index) v s.world)

  unfoldable pub emplace : Element A → ℕ → A → State A → Outcome (State A)
  emplace el pos v s =
      (if ltb (s.ring.size / 2) pos then move_right el pos s else move_left el pos s)
      >>= place el pos v

  -- The value that was moved out, beside the state.
  abbrev pub beside : A → Outcome (State A) → Outcome (A × State A)
  beside res (ok s) = ok (res, s)
  beside res (threw s) = threw (res, s)
  beside res fault = fault

  unfoldable pub insert_pop_back : Element A → ℕ → A → State A → Outcome (A × State A)
  insert_pop_back el pos v s =
      let b = s.ring in
      let c = step_down b in
      elim (take_out el (at b (b.size - 1)) s.world) [
        | threw r ↦ fault
        | fault ↦ fault
        | ok r ↦ beside r.0 (
            (if ltb (b.size / 2) pos
              then finish b b (move_right_1 el b pos r.1)
              else finish c c (move_left_1 el c (pos + 1) r.1))
            >>= place el pos v)
      ]

  unfoldable pub insert_pop_front : Element A → ℕ → A → State A → Outcome (A × State A)
  insert_pop_front el pos v s =
      let b = s.ring in
      let c = step_up b in
      elim (take_out el (at b 0) s.world) [
        | threw r ↦ fault
        | fault ↦ fault
        | ok r ↦ beside r.0 (
            (if ltb pos (b.size / 2)
              then finish b b (move_left_1 el b pos r.1)
              else finish c c (move_right_1 el c (pos - 1) r.1))
            >>= place el (pos - 1) v)
      ]
