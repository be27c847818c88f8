-- ===== src/Devector/Grow/EmplaceBack.antt =====
-- `emplace_back` and `pop_back` as operations on a list.
use seq.Prelude.{
  ℕ, suc, ◌+◌, ◌-◌, ◌≤◌, ◌≡◌, refl, ap, ap₂, subst, sym, ◌∙◌, inl, inr, ◌&&◌, List, [], ◌∷◌, ◌++◌,
  length, length-append, arith, Bool-cases,
}
use seq.Memory.{Cell, live, Traits, overlay, lives, raws, Gives}
use seq.Devector.{State, Arg, front_capacity, back_capacity, grow_capacity}
use seq.Devector.Layout.{block, overlay-block, Holds, Fresh}
use seq.Devector.Grow.{grow_back, emplace_back, is_full_back, pop_back}
use seq.Devector.Grow.Focus.{block-snoc, block-suc_back, length-prefix, destroy_at}
use seq.Devector.Grow.Into.{grow_capacity-lt, Denotes, value_of-Denotes, value_of_allocated}
use seq.Devector.Grow.Back.{slides_back, emplaced, slide_back-Holds}
use seq.Devector.Grow.BackInto.{grow_into_back-Holds}

module _ {A : Type 0} (g : ℕ → Cell A) (s : State A) (xs : List A) (holds : Holds g s xs) where
  -- On a vector that holds `xs`, where the growth does not shrink a capacity and the allocator
  -- answers a growth with unused storage, `emplace_back` of an argument that denotes `v` does not
  -- fault: it leaves a vector that holds `xs` followed by `v`, or throws and leaves one that holds
  -- `xs`. An argument is a value, or a reference to an object in memory; a reference counts only
  -- where the vector is not both full at the back and about to slide to its front.
  pub emplace_back-Holds :
      (t : Traits) (grown : ℕ → ℕ) (p : ℕ) (arg : Arg A) (v : A)
      → s.vec.capacity ≤ grown s.vec.capacity
      → Fresh g s.vec p (grow_capacity grown s.vec.capacity)
      → Denotes s (is_full_back s.vec && slides_back s.vec) arg v
      → Gives (emplace_back t grown p arg s) (λ r. Holds g r (xs ++ v ∷ [])) (λ r. Holds g r xs)
  unfolding emplace_back grow_back
  emplace_back-Holds t grown p arg v grows fresh d = elim (Bool-cases (is_full_back s.vec)) [
    | inr space ↦
        rw (emplace_back, space)
          (emplaced g xs v s.vec s.world arg
            (record {
              starts = holds.starts;
              ends = holds.ends;
              fits = ground (arith, holds.fits);
              free = holds.free;
              null = holds.null;
            })
            (value_of-Denotes s _ arg v d) holds.layout)
    | inl full ↦ elim (Bool-cases (slides_back s.vec)) [
      | inl slides ↦
          rw (emplace_back, full, grow_back, slides)
            (slide_back-Holds g xs v s holds t arg
              (subst (λ b. Denotes s b arg v) (ap₂ ◌&&◌ full slides) d) (ground arith))
      | inr stays ↦
          rw (emplace_back, full, grow_back, stays)
            (grow_into_back-Holds g xs v s holds t p (grow_capacity grown s.vec.capacity) fresh
              (grow_capacity-lt grown s.vec.capacity grows) (ground arith) arg
              (value_of_allocated g s xs p (grow_capacity grown s.vec.capacity) holds fresh v _ arg
                d))
    ]
  ]

  -- On a vector that holds `ys` followed by `y`, `pop_back` neither throws nor faults, and leaves a
  -- vector that holds `ys`.
  pub pop_back-Holds :
      (ys : List A) (y : A) → xs ≡ ys ++ y ∷ [] → Gives (pop_back s) (λ r. Holds g r ys) (λ _. ⊥)
  unfolding pop_back
  pop_back-Holds ys y e =
      let u = s.vec in
      let f = front_capacity u in
      let b = back_capacity u in
      let n : length xs ≡ length ys + 1 = ap length e ∙ length-append ys (y ∷ []) in
      let lay : s.world.cell ≡ overlay u.buffer ((raws f ++ lives ys) ++ live y ∷ raws b) g =
        holds.layout
        ∙ ap (λ l. overlay u.buffer (block f l b) g) e
        ∙ ap (λ l. overlay u.buffer l g) (block-snoc f ys y b) in
      rw
        (destroy_at g u.buffer (u.end - 1) (raws f ++ lives ys) (raws b)
          (omega (arith, length-prefix f ys, holds.starts, holds.ends)) y s.world lay)
        (record {
          starts = holds.starts;
          ends = omega (arith, holds.ends);
          fits = omega (arith, holds.fits);
          layout =
              ap (λ l. overlay u.buffer l g) (sym (block-suc_back f ys b))
              ∙ overlay-block g u.buffer ys f f (suc b) (u.buffer + u.capacity - (u.end - 1)) refl
                  (omega (arith, holds.ends, holds.fits));
          free = holds.free;
          null = holds.null;
        })
