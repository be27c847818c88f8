-- ===== src/Devector/Transfer/Loops.antt =====
-- What the loops over stretches of memory do to the layout.
use seq.Prelude.{
  ℕ, suc, ◌+◌, ◌≤◌, ◌<◌, ◌≡◌, refl, ap, sym, ◌∙◌, ◌⊎◌, true, List, [], ◌∷◌, length, arith,
}
use seq.Memory.{
  Cell, raw, live, World, ok, ◌>>=◌, construct_ptr, put, destroy_ptr, destroy_cells, memcpy,
  overlay, lives, raws,
}
use seq.Memory.Overlay.{overlay-cons, overlay-cons₂, overlay_comm, put-overlay_at}
use seq.Memory.Steps.{
  length-lives, length-raws, with_cell, object_step, destroy_step, construct_step,
}
use seq.Devector.Transfer.{move_loop}

-- [i, i + n) and [j, j + n) share no address.
abbrev pub Apart : ℕ → ℕ → ℕ → Type 0
Apart i j n = (i + n ≤ j) ⊎ (j + n ≤ i)

module _ {A : Type 0} where
  pub destroy_cells_lem :
      (xs : List A) (h : ℕ → Cell A) (p : ℕ) (w : World A)
      → w.cell ≡ overlay p (lives xs) h
      → destroy_cells (length xs) p w ≡ ok (with_cell w (overlay p (raws (length xs)) h))
  unfolding destroy_cells
  destroy_cells_lem [] h p w lay = ap (λ c. ok (with_cell w c)) lay
  destroy_cells_lem (x ∷ xs) h p w lay = rw (destroy_step h p (lives xs) x w lay) (
      destroy_cells_lem xs (put h p raw) (p + 1) _ (overlay-cons h p raw (lives xs))
      ∙ ap (λ c. ok (with_cell w c)) (sym (overlay-cons h p raw (raws (length xs)))))

  -- `lives xs` at i, and `n` raw cells at j, over `g`.
  abbrev pub Before : ℕ → ℕ → List A → (ℕ → Cell A) → ℕ → Cell A
  Before i j xs g = overlay i (lives xs) (overlay j (raws (length xs)) g)

  -- The objects have moved from i to j.
  abbrev pub After : ℕ → ℕ → List A → (ℕ → Cell A) → ℕ → Cell A
  After i j xs g = overlay i (raws (length xs)) (overlay j (lives xs) g)

  -- The first object constructed at its new place.
  module _ (g : ℕ → Cell A) (i j : ℕ) (x : A) (xs : List A) (w : World A)
      (apart : Apart i j (length (x ∷ xs))) where
    abbrev both : ℕ → Cell A
    both = overlay i (lives (x ∷ xs)) (overlay j (live x ∷ raws (length xs)) g)

    apart_at :
        (ys : List A) → length ys ≡ length xs → (i < j) ⊎ (j + length (live x ∷ lives ys) ≤ i)
    apart_at ys e = ground (arith, length-lives ys)

    apart_cells :
        (c : Cell A) → (i + length (lives (x ∷ xs)) ≤ j) ⊎ (j + length (c ∷ raws (length xs)) ≤ i)
    apart_cells c = ground (arith, length-lives xs, length-raws A (length xs))

    first_copied : w.cell ≡ Before i j (x ∷ xs) g → construct_ptr true j x w ≡ ok (with_cell w both)
    first_copied lay =
        construct_step (overlay i (lives (x ∷ xs)) g) j (raws (length xs)) x w
          (lay ∙ overlay_comm g i j (lives (x ∷ xs)) (raws (length (x ∷ xs))) (apart_cells raw))
        ∙ ap (λ c. ok (with_cell w c))
            (sym (
              overlay_comm g i j (lives (x ∷ xs)) (live x ∷ raws (length xs))
                (apart_cells (live x))))

  move_loop-suc :
      (n i j : ℕ) (x : A) (w : World A)
      → w.cell i ≡ live x
      → move_loop (suc n) i j w
        ≡ (construct_ptr true j x w >>= destroy_ptr i >>= move_loop n (i + 1) (j + 1))
  unfolding move_loop
  move_loop-suc n i j x w e = rw (move_loop, e)

  pub move_loop_lem :
      (xs : List A) (g : ℕ → Cell A) (i j : ℕ) (w : World A)
      → Apart i j (length xs)
      → w.cell ≡ Before i j xs g
      → move_loop (length xs) i j w ≡ ok (with_cell w (After i j xs g))
  unfolding move_loop
  move_loop_lem [] g i j w apart lay = ap (λ c. ok (with_cell w c)) lay
  move_loop_lem (x ∷ xs) g i j w apart lay =
      let n = length xs in
      move_loop-suc n i j x w
        (object_step (overlay j (raws (length (x ∷ xs))) g) i (lives xs) x w lay)
      ∙ rw
          (
            first_copied g i j x xs w apart lay,
            destroy_step (overlay j (live x ∷ raws n) g) i (lives xs) x
                (with_cell w (both g i j x xs w apart)) refl,
          )
          (move_loop_lem xs (put (put g j (live x)) i raw) (i + 1) (j + 1) _ (ground arith) (
              overlay-cons₂ g i j raw (live x) (lives xs) (raws n)
                (ground (arith, length-raws A n)))
            ∙ ap (λ c. ok (with_cell w c))
                (sym (
                  overlay-cons₂ g i j raw (live x) (raws n) (lives xs)
                    (ground (arith, length-lives xs)))))

  memcpy-suc :
      (n i j : ℕ) (x : A) (w : World A)
      → w.cell i ≡ live x
      → memcpy (suc n) j i w
        ≡ memcpy n (j + 1) (i + 1) (with_cell w (put (put w.cell i raw) j (live x)))
  unfolding memcpy
  memcpy-suc n i j x w e = rw (memcpy, e)

  -- What one round of `memcpy` writes.
  first_moved :
      (g : ℕ → Cell A) (i j : ℕ) (x : A) (xs : List A)
      → Apart i j (length (x ∷ xs))
      → put (put (Before i j (x ∷ xs) g) i raw) j (live x)
        ≡ Before (i + 1) (j + 1) xs (put (put g j (live x)) i raw)
  first_moved g i j x xs apart =
      ap (λ c. put c j (live x))
        (put-overlay_at (overlay j (raws (length (x ∷ xs))) g) i [] (live x) raw (lives xs) i
          (omega arith))
      ∙ ap (λ c. put c j (live x))
          (overlay_comm g i j (raw ∷ lives xs) (raws (length (x ∷ xs)))
            (ground (arith, length-lives xs, length-raws A (length xs))))
      ∙ put-overlay_at (overlay i (raw ∷ lives xs) g) j [] raw (live x) (raws (length xs)) j
          (omega arith)
      ∙ sym (
          overlay_comm g i j (raw ∷ lives xs) (live x ∷ raws (length xs))
            (ground (arith, length-lives xs, length-raws A (length xs))))
      ∙ overlay-cons₂ g i j raw (live x) (lives xs) (raws (length xs))
          (ground (arith, length-raws A (length xs)))

  pub memcpy_lem :
      (xs : List A) (g : ℕ → Cell A) (i j : ℕ) (w : World A)
      → Apart i j (length xs)
      → w.cell ≡ Before i j xs g
      → memcpy (length xs) j i w ≡ ok (with_cell w (After i j xs g))
  unfolding memcpy
  memcpy_lem [] g i j w apart lay = ap (λ c. ok (with_cell w c)) lay
  memcpy_lem (x ∷ xs) g i j w apart lay =
      let n = length xs in
      memcpy-suc n i j x w (object_step (overlay j (raws (length (x ∷ xs))) g) i (lives xs) x w lay)
      ∙ memcpy_lem xs (put (put g j (live x)) i raw) (i + 1) (j + 1) _ (ground arith)
          (ap (λ c. put (put c i raw) j (live x)) lay ∙ first_moved g i j x xs apart)
      ∙ ap (λ c. ok (with_cell w c))
          (sym (
            overlay-cons₂ g i j raw (live x) (raws n) (lives xs) (ground (arith, length-lives xs))))
