-- ===== src/Devector.antt =====
-- seq/devector.hpp: a vector with free storage at both ends. This file has the state and the
-- operations of `DEVectorData` and `devector`; an operation takes the state of the vector and of
-- memory, and gives the new state or the state in which it throws.
pub mod Transfer
pub mod Layout
pub mod Relocation
pub mod Reallocate
pub mod Reserve
pub mod Grow
pub mod Resize
pub mod Lifetime
mod Tests
use seq.Prelude.{
  ℕ, zero, suc, ◌+◌, ◌-◌, Bool, true, false, List, [], ◌∷◌, Option, none, some, ltb, leb, ◌==◌,
  if◌then◌else◌,
}
use seq.Memory.{
  World, Outcome, ok, threw, fault, rethrow, Traits, object, construct_ptr, destroy_ptr,
}
use seq.Memory
use seq.Devector.Transfer.{destroy_range, construct_range, copy_destroy_input}

-- The pointers of `DEVectorData`, as addresses: `buffer` is its member `data`.
pub record Vector : Type 0 where
  pub buffer : ℕ
  pub start : ℕ
  pub end : ℕ
  pub capacity : ℕ

pub record State (A : Type 0) : Type 0 where
  pub vec : Vector
  pub world : World A

-- The argument of an emplacement: a value from elsewhere, or a reference to an object in memory.
pub data Arg (A : Type 0) : Type 0 where
  value : A → Arg A
  ref : ℕ → Arg A

-- The default constructor: null pointers.
abbrev pub new_vector : Vector
new_vector = record { buffer = 0; start = 0; end = 0; capacity = 0 }

abbrev pub size : Vector → ℕ
size v = v.end - v.start

abbrev pub front_capacity : Vector → ℕ
front_capacity v = v.start - v.buffer

abbrev pub back_capacity : Vector → ℕ
back_capacity v = v.buffer + v.capacity - v.end

-- `grown` is the truncated product by SEQ_GROW_FACTOR.
abbrev pub grow_capacity : (ℕ → ℕ) → ℕ → ℕ
grow_capacity grown capacity =
    let c = grown capacity in
    let c' = (if c == capacity then c + 1 else c) in if ltb c' 2 then 2 else c'

-- `n ? get_allocator().allocate(n) : nullptr`, with the allocator's answer `p`.
abbrev pub new_address : ℕ → ℕ → ℕ
new_address p n = if n == 0 then 0 else p

module _ {A : Type 0} where
  unfoldable pub allocate : ℕ → ℕ → World A → World A
  allocate p n w = if n == 0 then w else Memory.allocate p n w

  unfoldable pub deallocate : ℕ → ℕ → World A → World A
  deallocate p n w = if p == 0 then w else Memory.deallocate p n w

  -- The part that `shrink_to_fit`, `reserve`, `reserve_back` and `reserve_front` have in common:
  -- the objects move to `offset` in new storage of `n` cells, and the old storage is returned.
  unfoldable pub reallocate : Traits → ℕ → ℕ → ℕ → State A → Outcome (State A)
  reallocate t p n offset s =
      let v = s.vec in
      let new = new_address p n in
      let new_start = new + offset in
      elim (copy_destroy_input t v.start v.end new_start (allocate p n s.world)) [
        | ok w ↦ ok (record {
          vec = record { buffer = new; start = new_start; end = new_start + size v; capacity = n };
          world = deallocate v.buffer v.capacity w;
        })
        | threw w ↦ threw (record s { world = deallocate new n w })
        | fault ↦ fault
      ]

  unfoldable pub shrink_to_fit : Traits → ℕ → State A → Outcome (State A)
  shrink_to_fit t p s =
      if size s.vec == s.vec.capacity then ok s else reallocate t p (size s.vec) 0 s

  unfoldable pub reserve : Traits → ℕ → ℕ → State A → Outcome (State A)
  reserve t p new_capacity s =
      if leb new_capacity s.vec.capacity
      then ok s
      else reallocate t p new_capacity (front_capacity s.vec) s
