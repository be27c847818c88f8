-- ===== src/Devector/Grow.antt =====
-- seq/devector.hpp: `grow_back`, `grow_front`, `emplace_back`, `emplace_front`, `pop_back` and
-- `pop_front`.
pub mod Focus
pub mod Slide
pub mod Into
pub mod Back
pub mod BackInto
pub mod EmplaceBack
pub mod Front
pub mod FrontInto
pub mod EmplaceFront
pub mod Alias
use seq.Prelude.{ℕ, ◌+◌, ◌-◌, Option, none, some, ltb, ◌==◌, if◌then◌else◌, false, Bool}
use seq.Memory.{World, Outcome, ok, threw, fault, Traits, object, construct_ptr, destroy_ptr}
use seq.Devector.{
  Vector, State, Arg, value, ref, size, front_capacity, grow_capacity, new_address, allocate,
  deallocate,
}
use seq.Devector.Transfer.{copy_destroy_input}

-- Where `grow_back` puts the objects: `keep previous left position`.
abbrev pub back_start : ℕ → ℕ → Vector → ℕ
back_start new n v =
    let kept = new + front_capacity v in if kept + size v == new + n then kept - 1 else kept

-- Where `grow_front` puts the objects: `keep previous right position`.
abbrev pub front_start : ℕ → ℕ → Vector → ℕ
front_start new n v =
    let kept = new + (n - (v.buffer + v.capacity - v.start)) in
    if kept == new then kept + 1 else kept

abbrev pub is_full_back : Vector → Bool
is_full_back v = v.end == v.buffer + v.capacity

abbrev pub is_full_front : Vector → Bool
is_full_front v = v.start == v.buffer

module _ {A : Type 0} where
  -- What the argument is when it is read: a reference to no object cannot be read.
  unfoldable pub value_of : Arg A → World A → Option A
  value_of (value v) w = some v
  value_of (ref q) w = object (w.cell q)

  -- `new (p) T(std::forward<Args>(args)...)`
  unfoldable pub construct_arg : ℕ → Arg A → World A → Outcome (World A)
  construct_arg p arg w = elim (value_of arg w) [
    | some v ↦ construct_ptr false p v w
    | none ↦ fault
  ]

  -- The state with vector `v`, at the end of an operation on memory.
  abbrev pub finish : Vector → Outcome (World A) → Outcome (State A)
  finish v (ok w) = ok (record { vec = v; world = w })
  finish v (threw w) = threw (record { vec = v; world = w })
  finish v fault = fault

  -- The pointers change from `v` to `u` unless the operation on memory throws.
  abbrev pub commit : Vector → Vector → Outcome (World A) → Outcome (State A)
  commit v u (ok w) = ok (record { vec = u; world = w })
  commit v u (threw w) = threw (record { vec = v; world = w })
  commit v u fault = fault

  -- The handlers of `grow_back` and `grow_front`: the new object is destroyed, if it was
  -- constructed, and the new storage is returned.
  abbrev pub undo_object : Vector → ℕ → ℕ → ℕ → World A → Outcome (State A)
  undo_object v object_at new n w = elim (destroy_ptr object_at w) [
    | ok w' ↦ threw (record { vec = v; world = deallocate new n w' })
    | threw w' ↦ fault
    | fault ↦ fault
  ]

  -- New storage of `n` cells: the new object goes to `object_at`, the others to `new_start` on.
  unfoldable pub grow_into : Traits → ℕ → ℕ → ℕ → ℕ → Arg A → State A → Outcome (State A)
  grow_into t p n new_start object_at arg s =
      let v = s.vec in
      let new = new_address p n in
      elim (construct_arg object_at arg (allocate p n s.world)) [
        | threw w ↦ threw (record { vec = v; world = deallocate new n w })
        | fault ↦ fault
        | ok w ↦ elim (copy_destroy_input t v.start v.end new_start w) [
          | threw w' ↦ undo_object v object_at new n w'
          | fault ↦ fault
          | ok w' ↦ ok (record {
            vec = record {
              buffer = new;
              start = new_start;
              end = new_start + size v;
              capacity = n;
            };
            world = deallocate v.buffer v.capacity w';
          })
        ]
      ]

  -- The objects move within the storage to `new_start`, then the new object goes to `object_at`.
  unfoldable pub slide_into : Traits → ℕ → ℕ → Arg A → State A → Outcome (State A)
  slide_into t new_start object_at arg s =
      let v = s.vec in
      elim (copy_destroy_input t v.start v.end new_start s.world) [
        | threw w ↦ threw (record { vec = v; world = w })
        | fault ↦ fault
        | ok w ↦
            finish (record v { start = new_start; end = new_start + size v })
              (construct_arg object_at arg w)
      ]

  unfoldable pub grow_back : Traits → (ℕ → ℕ) → ℕ → Arg A → State A → Outcome (State A)
  grow_back t grown p arg s =
      let v = s.vec in
      let n = grow_capacity grown v.capacity in
      let new_start = back_start (new_address p n) n v in
      if ltb (size v) (front_capacity v)
      then slide_into t v.buffer (v.buffer + size v) arg s
      else grow_into t p n new_start (new_start + size v) arg s

  unfoldable pub grow_front : Traits → (ℕ → ℕ) → ℕ → Arg A → State A → Outcome (State A)
  grow_front t grown p arg s =
      let v = s.vec in
      let room = v.capacity - size v in
      let n = grow_capacity grown v.capacity in
      let new_start = front_start (new_address p n) n v in
      if ltb (size v) room
      then slide_into t (v.buffer + room) (v.buffer + room - 1) arg s
      else grow_into t p n new_start (new_start - 1) arg s

  -- `++end`, `--start`
  abbrev pub step_end : Outcome (State A) → Outcome (State A)
  step_end (ok s) = ok (record s { vec = record s.vec { end = s.vec.end + 1 } })
  step_end (threw s) = threw s
  step_end fault = fault

  abbrev pub step_start : Outcome (State A) → Outcome (State A)
  step_start (ok s) = ok (record s { vec = record s.vec { start = s.vec.start - 1 } })
  step_start (threw s) = threw s
  step_start fault = fault

  unfoldable pub emplace_back : Traits → (ℕ → ℕ) → ℕ → Arg A → State A → Outcome (State A)
  emplace_back t grown p arg s = step_end (
      if is_full_back s.vec
      then grow_back t grown p arg s
      else finish s.vec (construct_arg s.vec.end arg s.world))

  unfoldable pub emplace_front : Traits → (ℕ → ℕ) → ℕ → Arg A → State A → Outcome (State A)
  emplace_front t grown p arg s = step_start (
      if is_full_front s.vec
      then grow_front t grown p arg s
      else finish s.vec (construct_arg (s.vec.start - 1) arg s.world))

  unfoldable pub pop_back : State A → Outcome (State A)
  pop_back s = finish (record s.vec { end = s.vec.end - 1 }) (destroy_ptr (s.vec.end - 1) s.world)

  unfoldable pub pop_front : State A → Outcome (State A)
  pop_front s = finish (record s.vec { start = s.vec.start + 1 }) (destroy_ptr s.vec.start s.world)
