-- ===== src/Devector/Transfer.antt =====
-- seq/devector.hpp: `DEVectorData::destroy_range`, `construct_range`, `copy_destroy_input` and
-- `move_destroy_input`, which move objects between stretches of memory.
pub mod Loops
pub mod Throwing
pub mod Copy
use seq.Prelude.{
  ℕ, zero, suc, ◌+◌, ◌-◌, ◌≡◌, Bool, true, false, ◌||◌, none, some, ltb, leb, ◌==◌, if◌then◌else◌,
}
use seq.Memory.{
  World, Outcome, ok, threw, fault, ◌>>=◌, rethrow, Traits, object, construct_ptr, destroy_ptr,
  destroy_cells, memcpy,
}

module _ {A : Type 0} where
  -- Destroys the objects of [begin, en).
  unfoldable pub destroy_range : ℕ → ℕ → World A → Outcome (World A)
  destroy_range begin en w = destroy_cells (en - begin) begin w

  -- The loop of `construct_range`, with `n` objects to go and its handler.
  unfoldable pub construct_loop : ℕ → ℕ → ℕ → A → World A → Outcome (World A)
  construct_loop saved zero first v w = ok w
  construct_loop saved (suc n) first v w = elim (construct_ptr false first v w) [
    | ok w' ↦ construct_loop saved n (first + 1) v w'
    | threw w' ↦ rethrow (destroy_range saved first w')
    | fault ↦ fault
  ]

  -- Constructs copies of `v` in [first, last).
  unfoldable pub construct_range : ℕ → ℕ → A → World A → Outcome (World A)
  construct_range first last v w = construct_loop first (last - first) first v w

  -- The loop of `copy_destroy_input` for a noexcept move constructor.
  unfoldable pub move_loop : ℕ → ℕ → ℕ → World A → Outcome (World A)
  move_loop zero first dst w = ok w
  move_loop (suc n) first dst w = elim (object (w.cell first)) [
    | none ↦ fault
    | some v ↦
        construct_ptr true dst v w >>= destroy_ptr first >>= move_loop n (first + 1) (dst + 1)
  ]

  -- The same loop for one that may throw: `std::move_if_noexcept` copies, and the handler destroys
  -- the copies.
  unfoldable pub copy_loop : ℕ → ℕ → ℕ → ℕ → World A → Outcome (World A)
  copy_loop saved_dst zero first dst w = ok w
  copy_loop saved_dst (suc n) first dst w = elim (object (w.cell first)) [
    | none ↦ fault
    | some v ↦ elim (construct_ptr false dst v w) [
      | ok w' ↦ copy_loop saved_dst n (first + 1) (dst + 1) w'
      | threw w' ↦ rethrow (destroy_range saved_dst dst w')
      | fault ↦ fault
    ]
  ]

  -- A relocatable type is moved by memcpy; that no object is left at its source is a restriction of
  -- the model, since the bytes stay there.
  unfoldable pub copy_destroy_input : Traits → ℕ → ℕ → ℕ → World A → Outcome (World A)
  copy_destroy_input t first last dst w =
      if t.relocatable
      then memcpy (last - first) dst first w
      else (if t.nothrow_move
          then move_loop (last - first) first dst w
          else (copy_loop dst (last - first) first dst w >>= destroy_range first last))
