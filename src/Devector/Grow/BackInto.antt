-- ===== src/Devector/Grow/BackInto.antt =====
-- `emplace_back` into new storage.
use seq.Prelude.{
  ℕ, suc, ◌+◌, ◌-◌, ◌<◌, ◌≡◌, ap, sym, ◌∙◌, some, List, [], ◌∷◌, ◌++◌, length, length-append,
  append_assoc, arith,
}
use seq.Memory.{Cell, raw, live, overlay, lives, raws, Traits, Gives}
use seq.Memory.Steps.{length-raws}
use seq.Devector.{Vector, State, Arg, size, front_capacity, new_address, allocate}
use seq.Devector.Layout.{Holds, Fresh}
use seq.Devector.Grow.{value_of, grow_into, back_start, step_end}
use seq.Devector.Grow.Into.{grow_into-Gives}
use seq.Devector.Relocation.{raws-split, new_unused, new_null}
use seq.Devector.Grow.Back.{Around, after, one_more, overlay-snoc, snoc-Holds, Gives-step_end}

module _ {A : Type 0} (g : ℕ → Cell A) (xs : List A) (v : A) where
  module _ (s : State A) (holds : Holds g s xs) (t : Traits) where
    open s.vec use {buffer, start, end, capacity}

    same_size : size s.vec ≡ length xs
    same_size = omega (arith, holds.ends)

    module _ (p n : ℕ) (fresh : Fresh g s.vec p n) (larger : capacity < n)
        (full : end ≡ buffer + capacity) where
      abbrev new : ℕ
      new = new_address p n

      -- The free cells in front, as before.
      abbrev front : ℕ
      front = front_capacity s.vec

      abbrev last : ℕ
      last = n - front - length xs - 1

      back_start_lem : back_start new n s.vec ≡ new + front
      back_start_lem = ground (arith, holds.starts, holds.ends)

      fills : length (raws {A = A} front) + length xs + length (live v ∷ raws last) ≡ n
      fills = omega (arith, length-raws A front, length-raws A last, holds.starts, holds.ends)

      split :
          raws {A = A} front ++ (raws (length xs) ++ live v ∷ raws last)
          ≡ (raws front ++ raws (length xs)) ++ live v ∷ raws last
      split = sym (append_assoc (raws front) (raws (length xs)) (live v ∷ raws last))

      empty : raws {A = A} n ≡ (raws front ++ raws (length xs)) ++ raw ∷ raws last
      empty =
          raws-split front (length xs) (suc last) n (omega (arith, holds.starts, holds.ends))
          ∙ sym (append_assoc (raws front) (raws (length xs)) (raw ∷ raws last))

      -- The vector that `grow_back` leaves.
      abbrev landed : Vector
      landed = record {
        buffer = new;
        start = back_start new n s.vec;
        end = back_start new n s.vec + size s.vec;
        capacity = n;
      }

      landed-Around : Around g xs v landed
      landed-Around = record {
        starts = omega (arith, back_start_lem);
        ends = omega (arith, same_size);
        fits = omega (arith, back_start_lem, same_size, holds.starts, holds.ends);
        free = new_unused g s xs p n holds fresh;
        null = new_null g s xs p n holds fresh;
      }

      landed_cells :
          overlay new (raws front ++ (lives xs ++ live v ∷ raws last)) g
          ≡ overlay new (one_more g xs v landed) g
      landed_cells =
          ap (λ l. overlay new l g)
            (sym (append_assoc (raws front) (lives xs) (live v ∷ raws last)))
          ∙ overlay-snoc g xs v new front (front_capacity landed) last (after g xs v landed)
              (omega (arith, back_start_lem)) (omega (arith, back_start_lem, same_size))

      pub grow_into_back-Holds :
          (arg : Arg A)
          → value_of arg (allocate p n s.world) ≡ some v
          → Gives
              (step_end (
                grow_into t p n
                  (back_start new n s.vec)
                  (back_start new n s.vec + size s.vec)
                  arg
                  s))
              (λ r. Holds g r (xs ++ v ∷ []))
              (λ r. Holds g r xs)
      grow_into_back-Holds arg given =
          let off = back_start new n s.vec in
          let pre : List (Cell A) = raws front in
          let post : List (Cell A) = live v ∷ raws last in
          let left : List (Cell A) = raws front ++ raws (length xs) in
          Gives-step_end (grow_into t p n off (off + size s.vec) arg s) _ _ _
            (grow_into-Gives g s xs p n holds fresh v pre post left (raws last) fills split empty t
              arg given (off + size s.vec) off
              (omega (
                arith,
                back_start_lem,
                length-append (raws {A = A} front) (raws (length xs)),
                length-raws A front,
                length-raws A (length xs),
                same_size,
              ))
              (omega (arith, back_start_lem, length-raws A front)))
            (λ r e. rw (e.0) (snoc-Holds g xs v landed r.world landed-Around (e.1 ∙ landed_cells)))
