-- ===== src/Devector/Grow/Slide.antt =====
-- The objects move within the storage, to a free stretch of it.
use seq.Prelude.{
  ℕ, ◌+◌, ◌≡◌, refl, ap, sym, ◌∙◌, inl, inr, List, ◌++◌, length, length-append, append_assoc, arith,
}
use seq.Memory.{Cell, World, overlay, lives, raws, Traits}
use seq.Memory.Overlay.{splice}
use seq.Memory.Steps.{length-lives, length-raws}
use seq.Devector.Transfer.{copy_destroy_input}
use seq.Devector.Transfer.Loops.{Before, After}
use seq.Devector.Transfer.Copy.{Transferred, copy_destroy_input_lem}

module _ {A : Type 0} (h : ℕ → Cell A) (s : ℕ) (xs : List A) (pre mid post : List (Cell A)) where
  -- Two stretches of a layout, with what stands between them.
  abbrev pub two : List (Cell A) → List (Cell A) → ℕ → Cell A
  two cs ds = overlay s (pre ++ (cs ++ (mid ++ (ds ++ post)))) h

  assoc :
      (cs ds : List (Cell A))
      → (pre ++ (cs ++ mid)) ++ (ds ++ post) ≡ pre ++ (cs ++ (mid ++ (ds ++ post)))
  assoc cs ds =
      append_assoc pre (cs ++ mid) (ds ++ post)
      ∙ ap (λ l. pre ++ l) (append_assoc cs mid (ds ++ post))

  left : ℕ
  left = s + length pre

  over_left :
      (cs cs' ds : List (Cell A))
      → length cs ≡ length cs'
      → overlay (s + length pre) cs (two cs' ds) ≡ two cs ds
  over_left cs cs' ds e = splice h s (s + length pre) pre cs cs' (mid ++ (ds ++ post)) refl e

  over_right :
      (cs ds ds' : List (Cell A)) (p : ℕ)
      → p ≡ s + length pre + length cs + length mid
      → length ds ≡ length ds'
      → overlay p ds (two cs ds') ≡ two cs ds
  over_right cs ds ds' p at e =
      ap (λ l. overlay p ds (overlay s l h)) (sym (assoc cs ds'))
      ∙ splice h s p (pre ++ (cs ++ mid)) ds ds' post
          (omega (arith, at, length-append pre (cs ++ mid), length-append cs mid)) e
      ∙ ap (λ l. overlay s l h) (assoc cs ds)

  gap : length (raws {A = A} (length xs)) ≡ length xs
  gap = length-raws A (length xs)

  module _ (t : Traits) (w : World A) (p q last : ℕ) (at : p ≡ s + length pre)
      (at' : q ≡ s + length pre + length xs + length mid) where
    -- From the right stretch to the left one.
    pub slide_left :
        last ≡ q + length xs
        → w.cell ≡ two (raws (length xs)) (lives xs)
        → copy_destroy_input t q last p w
          ≡ Transferred t
              (length xs)
              w
              (two (lives xs) (raws (length xs)))
              (two (raws (length xs)) (lives xs))
    slide_left end lay =
        let n = length xs in
        let before : two (raws n) (lives xs) ≡ Before q p xs (two (raws n) (lives xs)) =
          sym (over_right (raws n) (lives xs) (lives xs) q (omega (arith, gap)) refl)
          ∙ ap (overlay q (lives xs)) (
              sym (over_left (raws n) (raws n) (lives xs) refl)
              ∙ ap (λ k. overlay k (raws n) (two (raws n) (lives xs))) (sym at)) in
        let after : After q p xs (two (raws n) (lives xs)) ≡ two (lives xs) (raws n) =
          ap (overlay q (raws n)) (
            ap (λ k. overlay k (lives xs) (two (raws n) (lives xs))) at
            ∙ over_left (lives xs) (raws n) (lives xs) (length-lives xs ∙ sym gap))
          ∙ over_right (lives xs) (raws n) (lives xs) q (omega (arith, length-lives xs))
              (gap ∙ sym (length-lives xs)) in
        copy_destroy_input_lem xs (two (raws n) (lives xs)) q p last w (inr (omega arith)) end
          (lay ∙ before) t
        ∙ (λ i. Transferred t n w (after i) (sym before i))

    -- From the left stretch to the right one.
    pub slide_right :
        last ≡ p + length xs
        → w.cell ≡ two (lives xs) (raws (length xs))
        → copy_destroy_input t p last q w
          ≡ Transferred t
              (length xs)
              w
              (two (raws (length xs)) (lives xs))
              (two (lives xs) (raws (length xs)))
    slide_right end lay =
        let n = length xs in
        let before : two (lives xs) (raws n) ≡ Before p q xs (two (lives xs) (raws n)) =
          sym (over_left (lives xs) (lives xs) (raws n) refl)
          ∙ ap (λ k. overlay k (lives xs) (two (lives xs) (raws n))) (sym at)
          ∙ ap (overlay p (lives xs)) (
              sym (
                over_right (lives xs) (raws n) (raws n) q (omega (arith, length-lives xs)) refl)) in
        let after : After p q xs (two (lives xs) (raws n)) ≡ two (raws n) (lives xs) =
          ap (overlay p (raws n)) (
            over_right (lives xs) (lives xs) (raws n) q (omega (arith, length-lives xs))
              (length-lives xs ∙ sym gap))
          ∙ ap (λ k. overlay k (raws n) (two (lives xs) (lives xs))) at
          ∙ over_left (raws n) (lives xs) (lives xs) (gap ∙ sym (length-lives xs)) in
        copy_destroy_input_lem xs (two (lives xs) (raws n)) p q last w (inl (omega arith)) end
          (lay ∙ before) t
        ∙ (λ i. Transferred t n w (after i) (sym before i))
