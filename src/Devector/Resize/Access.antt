-- ===== src/Devector/Resize/Access.antt =====
-- `clear` and `at`.
use seq.Prelude.{
  ℕ, zero, suc, ◌+◌, ◌-◌, ◌<◌, ◌≡◌, refl, ap, sym, ◌∙◌, inl, inr, Option, some, none, List, [], ◌∷◌,
  ◌++◌, length, get_elem?, get_elem?-length_le, get_elem?-lt, get_or, get_or-append_left,
  get_or-append_right, arith, leb, Bool-cases,
}
use seq.Memory.{Cell, Outcome, ok, threw, object, overlay, lives, raws, Gives}
use seq.Memory.Steps.{length-lives, length-raws}
use seq.Devector.{State, size, front_capacity, back_capacity}
use seq.Devector.Layout.{block, Holds}
use seq.Devector.Relocation.{raws-split}
use seq.Devector.Resize.{clear, at}
use seq.Devector.Resize.Stretch.{destroy_stretch}

-- `at` on a list.
abbrev pub checked : {A : Type 0} → Option A → Outcome (Option A)
checked (some v) = ok (some v)
checked none = threw none

module _ {A : Type 0} where
  object-lives :
      (xs : List A) (i : ℕ) (d : Cell A)
      → i < length xs
      → object (get_or (lives xs) i d) ≡ get_elem? xs i
  object-lives [] i d h = absurd (omega arith)
  object-lives (x ∷ xs) zero d h = refl
  object-lives (x ∷ xs) (suc i) d h = object-lives xs i d (omega arith)

  module _ (g : ℕ → Cell A) (s : State A) (xs : List A) (holds : Holds g s xs) where
    open s.vec use {buffer, start, end, capacity}

    -- On a vector that holds `xs`, `clear` neither throws nor faults, and leaves a vector that
    -- holds nothing and keeps its capacity.
    pub clear-Holds : Gives (clear s) (λ r. Holds g r [] × (r.vec.capacity ≡ capacity)) (λ _. ⊥)
    unfolding clear
    clear-Holds =
        let f = front_capacity s.vec in
        let b = back_capacity s.vec in
        rw
          (destroy_stretch g buffer start end (raws f) (raws b)
            (omega (arith, length-raws A f, holds.starts)) s.world xs holds.ends holds.layout)
          (
            record {
              starts = omega arith;
              ends = omega arith;
              fits = omega arith;
              layout =
                  ap (λ l. overlay buffer l g)
                    (sym (
                      raws-split f (length xs) b capacity
                        (omega (arith, holds.starts, holds.ends, holds.fits))))
                  ∙ ap (λ k. overlay buffer (block k [] capacity) g)
                      (let z : 0 ≡ buffer - buffer = omega arith in z)
                  ∙ ap (λ k. overlay buffer (block (buffer - buffer) [] k) g) (omega arith);
              free = holds.free;
              null = holds.null;
            },
            refl,
          )

    pub object_at : (i : ℕ) → i < length xs → object (s.world.cell (start + i)) ≡ get_elem? xs i
    object_at i h =
        let f = front_capacity s.vec in
        let b = back_capacity s.vec in
        let d = g (start + i) in
        let at_offset : overlay buffer (block f xs b) g (start + i)
            ≡ get_or (block f xs b) (start + i - buffer) d =
          ground (arith, holds.starts) in
        ap (λ c. object (c (start + i))) holds.layout
        ∙ ap object (
            at_offset
            ∙ get_or-append_right (raws f) (lives xs ++ raws b) (start + i - buffer) d
                (omega (arith, length-raws A f, holds.starts))
            ∙ ap (λ k. get_or (lives xs ++ raws b) k d)
                (omega (arith, length-raws A f, holds.starts))
            ∙ get_or-append_left (lives xs) (raws b) i d (omega (arith, length-lives xs)))
        ∙ object-lives xs i (g (start + i)) h

    -- On a vector that holds `xs`, `at` gives the element of `xs` at the index, and throws exactly
    -- where there is none.
    pub at_lem : (i : ℕ) → at s i ≡ checked (get_elem? xs i)
    unfolding at
    at_lem i = elim (Bool-cases (leb (size s.vec) i)) [
      | inl out ↦ rw (out, get_elem?-length_le xs i (ground (arith, holds.ends))) refl
      | inr inside ↦
          let h : i < length xs = ground (arith, holds.ends) in
          let found = get_elem?-lt xs i h in rw (inside, object_at i h ∙ found.1, found.1) refl
    ]
