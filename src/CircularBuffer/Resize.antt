-- ===== src/CircularBuffer/Resize.antt =====
-- seq/tiered_vector.hpp: `resize` and `destroy` of `CircularBuffer`.
pub mod Spans
pub mod Effect
use seq.Prelude.{ℕ, zero, suc, ◌+◌, ◌-◌, ltb, false, if◌then◌else◌}
use seq.Memory.{World, Outcome, ok, threw, fault, ◌>>=◌, construct_ptr}
use seq.CircularBuffer.{Ring, State, at, finish}
use seq.CircularBuffer.Insert.{destroy_span}

module _ {A : Type 0} where
  -- The end of the handler of `resize`: `throw;`.
  abbrev pub throw_after : Outcome (World A) → Outcome (World A)
  throw_after (ok w) = threw w
  throw_after (threw w) = fault
  throw_after fault = fault

  -- `for (; i < s; ++i) construct(&(*this)[i]);` with `n` rounds, which began at `first`. The
  -- handler destroys what was made.
  unfoldable pub construct_span : Ring → ℕ → ℕ → ℕ → A → World A → Outcome (World A)
  construct_span b zero first i v w = ok w
  construct_span b (suc n) first i v w = elim (construct_ptr false (at b i) v w) [
    | ok w' ↦ construct_span b n first (i + 1) v w'
    | threw w' ↦ throw_after (destroy_span b (i - first) first w')
    | fault ↦ fault
  ]

  unfoldable pub resize : ℕ → A → State A → Outcome (State A)
  resize n v s =
      let b = s.ring in
      finish (record b { size = n }) b
        (if ltb n b.size
          then destroy_span b (b.size - n) n s.world
          else (if ltb b.size n
              then construct_span b (n - b.size) b.size b.size v s.world
              else ok s.world))

  unfoldable pub destroy : State A → Outcome (World A)
  destroy s = destroy_span s.ring s.ring.size 0 s.world
