-- ===== src/Devector/Lifetime/Clone.antt =====
-- The copy of a vector holds the same objects, in storage of its own.
use seq.Prelude.{
  ℕ, ◌+◌, ◌≤◌, ◌<◌, ◌≡◌, refl, ap, subst, sym, ◌∙◌, ◌⊎◌, inl, inr, Bool-cases, List, [], ◌∷◌, ◌++◌,
  length, ◌==◌, arith,
}
use seq.Memory.{Cell, unmapped, World, overlay, lives, raws, Gives}
use seq.Memory.Overlay.{overlay-nil, overlay_outside, splice}
use seq.Memory.Steps.{length-raws}
use seq.Devector.{State, new_vector, size, front_capacity, back_capacity, new_address, allocate}
use seq.Devector.Layout.{block, length-block, Holds, Fresh}
use seq.Devector.Lifetime.{copy_construct, copy_into}
use seq.Devector.Relocation.{allocated, restored, new_apart, new_unused, new_null}
use seq.Devector.Resize.Back.{filled-Holds}
use seq.Devector.Resize.Into.{Attempt-cases}
use seq.Devector.Transfer.{copy_loop}
use seq.Devector.Transfer.Throwing.{Attempt, Reads, copy_loop_lem}
use seq.Devector.Transfer.Copy.{Reads-lives}

empty_list : {A : Type 0} → (xs : List A) → length xs ≡ 0 → xs ≡ []
empty_list [] z = refl
empty_list (x ∷ xs) z = absurd (omega arith)

module _ {A : Type 0} (g : ℕ → Cell A) (s : State A) (xs : List A) (holds : Holds g s xs) (p : ℕ)
    (fresh : Fresh g s.vec p (length xs)) where
  open s.vec use {buffer, start, end, capacity}

  abbrev new : ℕ
  new = new_address p (length xs)

  abbrev held : ℕ → Cell A
  held = overlay buffer (block (front_capacity s.vec) xs (back_capacity s.vec)) g

  held-Reads : Reads held start xs
  held-Reads =
      let f = front_capacity s.vec in
      let b = back_capacity s.vec in
      subst (λ c. Reads c start xs)
        (splice g buffer start (raws f) (lives xs) (lives xs) (raws b)
          (omega (arith, length-raws A f, holds.starts)) refl)
        (Reads-lives xs held start)

  held_apart : (start + length xs ≤ new) ⊎ (new + length xs ≤ start)
  held_apart =
      ground
        (arith, new_apart g s xs p (length xs) holds fresh, holds.starts, holds.ends, holds.fits)

  abbrev begun : World A
  begun = allocate p (length xs) s.world

  copied :
      copy_loop new (length xs) start new begun
      ≡ Attempt
          (length xs)
          begun
          (overlay new (lives xs) held)
          (overlay new (raws (length xs)) held)
  copied =
      copy_loop_lem xs [] new start new held begun (omega arith) held_apart held-Reads
        (allocated g s xs p (length xs) holds fresh ∙ sym (overlay-nil _ new))
      ∙ (λ i.
          Attempt (length xs) begun (overlay-nil (overlay new (lives xs) held) new i)
            (overlay-nil (overlay new (raws (length xs)) held) new i))

  new_free : (q : ℕ) → new ≤ q → q < new + length xs → s.world.cell q ≡ unmapped
  new_free q lo hi =
      (λ i. holds.layout i q)
      ∙ overlay_outside g buffer (block (front_capacity s.vec) xs (back_capacity s.vec)) q (
          ground (
            arith,
            new_apart g s xs p (length xs) holds fresh,
            length-block (front_capacity s.vec) xs (back_capacity s.vec),
            holds.starts,
            holds.ends,
            holds.fits,
          ))
      ∙ new_unused g s xs p (length xs) holds fresh q lo hi

  size-length : size s.vec ≡ length xs
  size-length = omega (arith, holds.ends)

  empty_copy : length xs ≡ 0 → Holds s.world.cell (record { vec = new_vector; world = s.world }) xs
  empty_copy z = record {
    starts = omega arith;
    ends = omega arith;
    fits = omega arith;
    layout =
        sym (overlay-nil s.world.cell 0)
        ∙ ap (λ l. overlay 0 (lives l ++ []) s.world.cell) (sym (empty_list xs z));
    free = λ q lo hi. absurd (omega arith);
    null = λ _. refl;
  }

  copy_Holds :
      (w : World A)
      → w.cell ≡ overlay new (lives xs) held
      → Holds s.world.cell
          (record {
            vec = record { buffer = new; start = new; end = new + length xs; capacity = length xs };
            world = w;
          })
          xs
  copy_Holds w c =
      filled-Holds s.world.cell xs new (length xs) w refl
        (c ∙ ap (overlay new (lives xs)) (sym holds.layout)) new_free
        (new_null g s xs p (length xs) holds fresh)

  copy_into-Holds :
      Gives
        (copy_into p (length xs) s)
        (λ r. Holds s.world.cell r xs)
        (λ r. r.world.cell ≡ s.world.cell)
  unfolding copy_into
  copy_into-Holds =
      elim (Attempt-cases (length xs) begun (overlay new (lives xs) held)
        (overlay new (raws (length xs)) held)) [
          | inl (w, e, c) ↦ rw (copy_into, copied ∙ e) (copy_Holds w c)
          | inr (w, e, c) ↦
              rw (copy_into, copied ∙ e) (restored g s xs p (length xs) holds fresh w c)
        ]

  -- The copy of a vector that holds `xs`, where the allocator answers with unused storage, does not
  -- fault: the copy holds `xs` and the rest of memory, the copied vector included, is as it was, or
  -- the copy throws and memory is as it was.
  pub copy_construct-Holds :
      Gives (copy_construct p s) (λ r. Holds s.world.cell r xs) (λ r. r.world.cell ≡ s.world.cell)
  unfolding copy_construct
  copy_construct-Holds = elim (Bool-cases (size s.vec == 0)) [
    | inl none_held ↦ rw none_held (empty_copy (ground (arith, size-length)))
    | inr some_held ↦ rw some_held (
        subst
          (λ n.
            Gives (copy_into p n s) (λ r. Holds s.world.cell r xs)
              (λ r. r.world.cell ≡ s.world.cell))
          (sym size-length) copy_into-Holds)
  ]
