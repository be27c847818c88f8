-- ===== src/Devector/Grow/Alias.antt =====
-- A reference to an object of the vector, given to an `emplace_back` that slides the objects.
use seq.Prelude.{
  ℕ, ◌+◌, ◌-◌, ◌<◌, ◌≡◌, refl, ◌∙◌, true, false, List, length, get_or, get_or-append_right,
  get_or-replicate_lt, arith,
}
use seq.Memory.{Cell, raw, ok, fault, overlay, lives, raws, Traits}
use seq.Memory.Steps.{length-lives, with_cell}
use seq.Devector.{State, ref, back_capacity}
use seq.Devector.Layout.{block, Holds}
use seq.Devector.Transfer.{copy_destroy_input}
use seq.Devector.Transfer.Copy.{Transferred}
use seq.Devector.Grow.{value_of, construct_arg, emplace_back, grow_back, slide_into, is_full_back}
use seq.Devector.Grow.Back.{slides_back, slid_back, middle}

module _ {A : Type 0} (g : ℕ → Cell A) (s : State A) (xs : List A) (holds : Holds g s xs) (v : A)
    (t : Traits) (i : ℕ) (inside : i < length xs) (slides : slides_back s.vec ≡ true) where
  open s.vec use {buffer, start, end, capacity}

  abbrev free : ℕ
  free = middle g xs v s holds t + length xs + back_capacity s.vec

  abbrev slid : ℕ → Cell A
  slid = overlay buffer (block 0 xs free) g

  -- The place where the object was.
  vacated : slid (start + i) ≡ raw
  vacated =
      let k = start + i - buffer in
      let d = g (start + i) in
      let at_offset : slid (start + i) ≡ get_or (block 0 xs free) k d =
        ground (arith, holds.starts) in
      at_offset
      ∙ get_or-append_right (lives xs) (raws free) k d (ground (arith, length-lives xs, holds.ends))
      ∙ get_or-replicate_lt free (k - length (lives xs)) raw d
          (ground (arith, length-lives xs, holds.starts, holds.ends, holds.fits))

  -- On a vector that holds `xs`, is full at the back and slides to its front, with a type that is
  -- not relocatable and whose moves do not throw, `emplace_back` of a reference to the element at
  -- an index `i` of the vector itself faults: the argument is read where no object is any more.
  pub emplace_back_alias :
      (grown : ℕ → ℕ) (p : ℕ)
      → is_full_back s.vec ≡ true
      → t.relocatable ≡ false
      → t.nothrow_move ≡ true
      → emplace_back t grown p (ref (start + i)) s ≡ fault
  unfolding emplace_back grow_back slide_into construct_arg value_of
  emplace_back_alias grown p full by_moves nothrow =
      let moved : copy_destroy_input t start end buffer s.world ≡ ok (with_cell s.world slid) =
        slid_back g xs v s holds t (ground arith)
        ∙ (let e : Transferred t (length xs) s.world slid s.world.cell
                ≡ ok (with_cell s.world slid) =
              rw (by_moves, nothrow) refl in
            e) in
      rw (emplace_back, full, grow_back, slides, slide_into, moved, construct_arg, vacated) refl
