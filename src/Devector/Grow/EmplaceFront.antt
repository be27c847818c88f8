-- ===== src/Devector/Grow/EmplaceFront.antt =====
-- `emplace_front` and `pop_front` as operations on a list.
use seq.Prelude.{
  ℕ, suc, ◌+◌, ◌-◌, ◌≤◌, ◌≡◌, refl, ap, ap₂, subst, sym, ◌∙◌, inl, inr, ◌&&◌, List, ◌∷◌, ◌++◌,
  length, arith, Bool-cases,
}
use seq.Memory.{Cell, live, Traits, overlay, lives, raws, Gives}
use seq.Memory.Steps.{length-raws}
use seq.Devector.{State, Arg, front_capacity, back_capacity, grow_capacity}
use seq.Devector.Layout.{block, overlay-block, Holds, Fresh}
use seq.Devector.Grow.{grow_front, emplace_front, is_full_front, pop_front}
use seq.Devector.Grow.Focus.{block-suc_front, destroy_at}
use seq.Devector.Grow.Into.{grow_capacity-lt, Denotes, value_of-Denotes, value_of_allocated}
use seq.Devector.Grow.Front.{slides_front, emplaced, slide_front-Holds}
use seq.Devector.Grow.FrontInto.{grow_into_front-Holds}

module _ {A : Type 0} (g : ℕ → Cell A) (s : State A) (xs : List A) (holds : Holds g s xs) where
  -- On a vector that holds `xs`, where the growth does not shrink a capacity and the allocator
  -- answers a growth with unused storage, `emplace_front` of an argument that denotes `v` does not
  -- fault: it leaves a vector that holds `v` followed by `xs`, or throws and leaves one that holds
  -- `xs`. A reference counts only where the vector is not both full at the front and about to slide
  -- to its back.
  pub emplace_front-Holds :
      (t : Traits) (grown : ℕ → ℕ) (p : ℕ) (arg : Arg A) (v : A)
      → s.vec.capacity ≤ grown s.vec.capacity
      → Fresh g s.vec p (grow_capacity grown s.vec.capacity)
      → Denotes s (is_full_front s.vec && slides_front s.vec) arg v
      → Gives (emplace_front t grown p arg s) (λ r. Holds g r (v ∷ xs)) (λ r. Holds g r xs)
  unfolding emplace_front grow_front
  emplace_front-Holds t grown p arg v grows fresh d = elim (Bool-cases (is_full_front s.vec)) [
    | inr space ↦
        rw (emplace_front, space)
          (emplaced g xs v s.vec s.world arg
            (record {
              starts = ground (arith, holds.starts);
              ends = holds.ends;
              fits = holds.fits;
              free = holds.free;
              null = holds.null;
            })
            (value_of-Denotes s _ arg v d) holds.layout)
    | inl full ↦ elim (Bool-cases (slides_front s.vec)) [
      | inl slides ↦
          rw (emplace_front, full, grow_front, slides)
            (slide_front-Holds g xs v s holds t (ground arith) arg
              (subst (λ b. Denotes s b arg v) (ap₂ ◌&&◌ full slides) d) (ground arith))
      | inr stays ↦
          let n = grow_capacity grown s.vec.capacity in
          rw (emplace_front, full, grow_front, stays)
            (grow_into_front-Holds g xs v s holds t (ground arith) p n fresh
              (grow_capacity-lt grown s.vec.capacity grows) arg
              (value_of_allocated g s xs p n holds fresh v _ arg d))
    ]
  ]

  -- On a vector that holds `y` followed by `ys`, `pop_front` neither throws nor faults, and leaves
  -- a vector that holds `ys`.
  pub pop_front-Holds :
      (y : A) (ys : List A) → xs ≡ y ∷ ys → Gives (pop_front s) (λ r. Holds g r ys) (λ _. ⊥)
  unfolding pop_front
  pop_front-Holds y ys e =
      let u = s.vec in
      let f = front_capacity u in
      let b = back_capacity u in
      let n : length xs ≡ length ys + 1 =
        ap length e ∙ (let k : suc (length ys) ≡ length ys + 1 = omega arith in k) in
      let lay : s.world.cell ≡ overlay u.buffer (raws f ++ live y ∷ (lives ys ++ raws b)) g =
        holds.layout ∙ ap (λ l. overlay u.buffer (block f l b) g) e in
      rw
        (destroy_at g u.buffer u.start (raws f) (lives ys ++ raws b)
          (omega (arith, length-raws A f, holds.starts)) y s.world lay)
        (record {
          starts = omega (arith, holds.starts);
          ends = omega (arith, holds.ends);
          fits = holds.fits;
          layout =
              ap (λ l. overlay u.buffer l g) (sym (block-suc_front f ys b))
              ∙ overlay-block g u.buffer ys (suc f) (u.start + 1 - u.buffer) b b
                  (omega (arith, holds.starts)) refl;
          free = holds.free;
          null = holds.null;
        })
