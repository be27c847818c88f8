-- ===== src/Devector/Resize/Stretch.antt =====
-- Stretches of objects that are constructed or destroyed inside a layout.
use seq.Prelude.{
  ℕ, ◌+◌, ◌-◌, ◌≡◌, refl, ap, sym, ◌∙◌, List, [], ◌++◌, length, length-replicate, replicate, arith,
}
use seq.Memory.{Cell, World, ok, overlay, lives, raws}
use seq.Memory.Overlay.{overlay-nil, splice}
use seq.Memory.Steps.{length-lives, length-raws, with_cell}
use seq.Devector.Transfer.{construct_range, destroy_range}
use seq.Devector.Transfer.Loops.{destroy_cells_lem}
use seq.Devector.Transfer.Throwing.{Attempt, construct_loop_lem}

module _ {A : Type 0} (h : ℕ → Cell A) (s p last : ℕ) (pre post : List (Cell A))
    (at : p ≡ s + length pre) (w : World A) where
  pub destroy_stretch :
      (xs : List A)
      → last ≡ p + length xs
      → w.cell ≡ overlay s (pre ++ (lives xs ++ post)) h
      → destroy_range p last w ≡ ok (with_cell w (overlay s (pre ++ (raws (length xs) ++ post)) h))
  unfolding destroy_range
  destroy_stretch xs end lay =
      let n : last - p ≡ length xs = omega arith in
      rw n (
        destroy_cells_lem xs (overlay s (pre ++ (lives xs ++ post)) h) p w
          (lay ∙ sym (splice h s p pre (lives xs) (lives xs) post at refl))
        ∙ ap (λ c. ok (with_cell w c))
            (splice h s p pre (raws (length xs)) (lives xs) post at
              (length-raws A (length xs) ∙ sym (length-lives xs))))

  pub construct_stretch :
      (n : ℕ) (v : A)
      → last ≡ p + n
      → w.cell ≡ overlay s (pre ++ (raws n ++ post)) h
      → construct_range p last v w
        ≡ Attempt n w (overlay s (pre ++ (lives (replicate n v) ++ post)) h) w.cell
  unfolding construct_range
  construct_stretch n v end lay =
      let k : last - p ≡ n = omega arith in
      let same = splice h s p pre (raws n) (raws n) post at refl in
      rw k (
        construct_loop_lem n [] p p (overlay s (pre ++ (raws n ++ post)) h) v w (omega arith)
          (lay ∙ sym same ∙ sym (overlay-nil _ p))
        ∙ (λ i.
            Attempt n w
              ((overlay-nil
                    (overlay p (lives (replicate n v)) (overlay s (pre ++ (raws n ++ post)) h)) p
                  ∙ splice h s p pre (lives (replicate n v)) (raws n) post at
                      (length-lives (replicate n v) ∙ length-replicate n v ∙ sym (length-raws A n)))
                i)
              ((overlay-nil (overlay p (raws n) (overlay s (pre ++ (raws n ++ post)) h)) p
                  ∙ same
                  ∙ sym lay)
                i)))
