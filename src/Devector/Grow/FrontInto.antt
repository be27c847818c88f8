-- ===== src/Devector/Grow/FrontInto.antt =====
-- `emplace_front` into new storage.
use seq.Prelude.{
  ℕ, ◌+◌, ◌-◌, ◌≤◌, ◌<◌, ◌≡◌, ap, sym, ◌∙◌, some, List, [], ◌∷◌, ◌++◌, length, length-append,
  append_assoc, replicate-append, arith,
}
use seq.Memory.{Cell, raw, live, overlay, lives, raws, Traits, Gives}
use seq.Memory.Steps.{length-raws}
use seq.Devector.{Vector, State, Arg, size, front_capacity, back_capacity, new_address, allocate}
use seq.Devector.Layout.{overlay-block, Holds, Fresh}
use seq.Devector.Grow.{value_of, grow_into, front_start, step_start}
use seq.Devector.Grow.Into.{grow_into-Gives}
use seq.Devector.Relocation.{raws-split, new_unused, new_null}
use seq.Devector.Grow.Front.{Around, one_more, cons-Holds, Gives-step_start}

module _ {A : Type 0} (g : ℕ → Cell A) (xs : List A) (v : A) where
  module _ (s : State A) (holds : Holds g s xs) (t : Traits)
      (full : s.vec.start ≡ s.vec.buffer) where
    open s.vec use {buffer, start, end, capacity}

    same_size : size s.vec ≡ length xs
    same_size = omega (arith, holds.ends)

    module _ (p n : ℕ) (fresh : Fresh g s.vec p n) (larger : capacity < n) where
      abbrev new : ℕ
      new = new_address p n

      -- The free cells in front of the new object.
      abbrev before : ℕ
      before = n - capacity - 1

      abbrev behind : ℕ
      behind = capacity - length xs

      front_start_lem : front_start new n s.vec ≡ new + (before + 1)
      front_start_lem = ground (arith, full)

      within : length xs ≤ capacity
      within = omega (arith, holds.ends, holds.fits)

      abbrev pre : List (Cell A)
      pre = raws before ++ live v ∷ []

      length-pre : length pre ≡ before + 1
      length-pre = omega (arith, length-append (raws before) (live v ∷ []), length-raws A before)

      fills : length pre + length xs + length (raws {A = A} behind) ≡ n
      fills = omega (arith, length-pre, length-raws A behind, within)

      split :
          pre ++ (raws (length xs) ++ raws behind)
          ≡ raws before ++ live v ∷ (raws (length xs) ++ raws behind)
      split = append_assoc (raws before) (live v ∷ []) (raws (length xs) ++ raws behind)

      empty : raws {A = A} n ≡ raws before ++ raw ∷ (raws (length xs) ++ raws behind)
      empty =
          raws-split before 1 (length xs + behind) n (omega (arith, within))
          ∙ ap (λ l. raws before ++ raw ∷ l) (sym (replicate-append (length xs) behind raw))

      -- The vector that `grow_front` leaves.
      abbrev landed : Vector
      landed = record {
        buffer = new;
        start = front_start new n s.vec;
        end = front_start new n s.vec + size s.vec;
        capacity = n;
      }

      landed-Around : Around g xs v landed
      landed-Around = record {
        starts = omega (arith, front_start_lem);
        ends = omega (arith, same_size);
        fits = omega (arith, front_start_lem, same_size, within);
        free = new_unused g s xs p n holds fresh;
        null = new_null g s xs p n holds fresh;
      }

      landed_cells :
          overlay new (pre ++ (lives xs ++ raws behind)) g ≡ overlay new (one_more g xs v landed) g
      landed_cells =
          ap (λ l. overlay new l g)
            (append_assoc (raws before) (live v ∷ []) (lives xs ++ raws behind))
          ∙ overlay-block g new (v ∷ xs) before (front_capacity landed - 1) behind
              (back_capacity landed) (omega (arith, front_start_lem))
              (omega (arith, front_start_lem, same_size, within))

      pub grow_into_front-Holds :
          (arg : Arg A)
          → value_of arg (allocate p n s.world) ≡ some v
          → Gives
              (step_start
                (grow_into t p n (front_start new n s.vec) (front_start new n s.vec - 1) arg s))
              (λ r. Holds g r (v ∷ xs))
              (λ r. Holds g r xs)
      grow_into_front-Holds arg given =
          let off = front_start new n s.vec in
          Gives-step_start (grow_into t p n off (off - 1) arg s) _ _ _
            (grow_into-Gives g s xs p n holds fresh v pre (raws behind) (raws before)
              (raws (length xs) ++ raws behind) fills split empty t arg given (off - 1) off
              (omega (arith, front_start_lem, length-raws A before))
              (omega (arith, front_start_lem, length-pre)))
            (λ r e. rw (e.0) (cons-Holds g xs v landed r.world landed-Around (e.1 ∙ landed_cells)))
