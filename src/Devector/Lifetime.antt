-- ===== src/Devector/Lifetime.antt =====
-- seq/devector.hpp: the copy constructor and the destructors.
pub mod Destruct
pub mod Clone
use seq.Prelude.{ℕ, ◌+◌, ◌-◌, ◌==◌, if◌then◌else◌}
use seq.Memory.{World, Outcome, ok, threw, fault}
use seq.Devector.{Vector, State, new_vector, size, new_address, allocate, deallocate}
use seq.Devector.Transfer.{destroy_range, copy_loop}
use seq.Devector.Resize.{clear}

module _ {A : Type 0} where
  -- `~DEVectorData`
  unfoldable pub destruct_data : State A → Outcome (World A)
  destruct_data s = elim (destroy_range s.vec.start s.vec.end s.world) [
    | ok w ↦ ok (deallocate s.vec.buffer s.vec.capacity w)
    | threw w ↦ threw w
    | fault ↦ fault
  ]

  -- `~devector`, and then the destructor of its base.
  unfoldable pub destruct : State A → Outcome (World A)
  destruct s = elim (clear s) [ ok r ↦ destruct_data r | threw r ↦ threw r.world | fault ↦ fault ]

  -- The copies of `n` objects, in new storage.
  unfoldable pub copy_into : ℕ → ℕ → State A → Outcome (State A)
  copy_into p n other =
      let new = new_address p n in
      elim (copy_loop new n other.vec.start new (allocate p n other.world)) [
        | ok w ↦ ok (record {
          vec = record { buffer = new; start = new; end = new + n; capacity = n };
          world = w;
        })
        | threw w ↦ threw (record { vec = new_vector; world = deallocate new n w })
        | fault ↦ fault
      ]

  -- The copy of a vector. The copies of trivial types, which `memcpy` makes, are made by the same
  -- loop here.
  unfoldable pub copy_construct : ℕ → State A → Outcome (State A)
  copy_construct p other =
      if size other.vec == 0
      then ok (record { vec = new_vector; world = other.world })
      else copy_into p (size other.vec) other
