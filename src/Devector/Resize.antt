-- ===== src/Devector/Resize.antt =====
-- seq/devector.hpp: `resize`, `resize_front`, `clear` and `at`.
pub mod Stretch
pub mod Into
pub mod Back
pub mod Front
pub mod Access
use seq.Prelude.{ℕ, ◌+◌, ◌-◌, ◌≡◌, Option, none, some, ltb, leb, ◌==◌, if◌then◌else◌}
use seq.Memory.{World, Outcome, ok, threw, fault, Traits, object}
use seq.Devector.{State, size, front_capacity, back_capacity, new_address, allocate, deallocate}
use seq.Devector.Grow.{commit}
use seq.Devector.Transfer.{destroy_range, construct_range, copy_destroy_input}

module _ {A : Type 0} where
  -- The reallocation in `resize`: new objects behind the others. `new_size` is the new capacity,
  -- so `(_new_capacity - new_size) / 2` is 0. A handler returns the new storage only.
  unfoldable pub resize_into : Traits → ℕ → ℕ → A → State A → Outcome (State A)
  resize_into t p new_size val s =
      let v = s.vec in
      let new = new_address p new_size in
      let new_end = new + new_size in
      elim (construct_range (new + size v) new_end val (allocate p new_size s.world)) [
        | threw w ↦ threw (record s { world = deallocate new new_size w })
        | fault ↦ fault
        | ok w ↦ elim (copy_destroy_input t v.start v.end new w) [
          | threw w' ↦ threw (record s { world = deallocate new new_size w' })
          | fault ↦ fault
          | ok w' ↦ ok (record {
            vec = record { buffer = new; start = new; end = new_end; capacity = new_size };
            world = deallocate v.buffer v.capacity w';
          })
        ]
      ]

  unfoldable pub resize : Traits → ℕ → ℕ → A → State A → Outcome (State A)
  resize t p new_size val s =
      let v = s.vec in
      let new_end = v.start + new_size in
      if size v == new_size
      then ok s
      else (if ltb (size v) new_size
          then (if leb (new_size - size v) (back_capacity v)
              then commit v (record v { end = new_end }) (construct_range v.end new_end val s.world)
              else resize_into t p new_size val s)
          else commit v (record v { end = new_end }) (destroy_range new_end v.end s.world))

  -- The reallocation in `resize_front`: new objects before the others. The old storage is not
  -- returned.
  unfoldable pub resize_front_into : Traits → ℕ → ℕ → A → State A → Outcome (State A)
  resize_front_into t p new_size val s =
      let v = s.vec in
      let new = new_address p new_size in
      let more = new_size - size v in
      elim (construct_range new (new + more) val (allocate p new_size s.world)) [
        | threw w ↦ threw (record s { world = deallocate new new_size w })
        | fault ↦ fault
        | ok w ↦ elim (copy_destroy_input t v.start v.end (new + more) w) [
          | threw w' ↦ threw (record s { world = deallocate new new_size w' })
          | fault ↦ fault
          | ok w' ↦ ok (record {
            vec = record { buffer = new; start = new; end = new + new_size; capacity = new_size };
            world = w';
          })
        ]
      ]

  unfoldable pub resize_front : Traits → ℕ → ℕ → A → State A → Outcome (State A)
  resize_front t p new_size val s =
      let v = s.vec in
      let more = new_size - size v in
      if size v == new_size
      then ok s
      else (if ltb (size v) new_size
          then (if leb more (front_capacity v)
              then commit v (record v { start = v.start - more })
                  (construct_range (v.start - more) v.start val s.world)
              else resize_front_into t p new_size val s)
          else (let new_start = v.start + (size v - new_size) in
              commit v (record v { start = new_start }) (destroy_range v.start new_start s.world)))

  unfoldable pub clear : State A → Outcome (State A)
  clear s =
      let v = s.vec in
      commit v (record v { start = v.buffer; end = v.buffer }) (destroy_range v.start v.end s.world)

  -- `threw` is `std::out_of_range`.
  unfoldable pub at : State A → ℕ → Outcome (Option A)
  at s pos =
      if leb (size s.vec) pos
      then threw none
      else elim (object (s.world.cell (s.vec.start + pos))) [ some v ↦ ok (some v) | none ↦ fault ]
