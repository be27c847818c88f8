-- ===== src/Memory/Steps.antt =====
-- One construction, destruction or relocation, on a layout that is known around it.
use seq.Prelude.{
  ℕ, suc, ◌-◌, ◌≡◌, refl, ap, ◌∙◌, true, false, ◌==◌, if◌then◌else◌, List, [], ◌∷◌, ◌++◌, length,
  length-replicate, arith,
}
use seq.Memory.{
  Cell, raw, live, World, ok, threw, construct_ptr, put, destroy_ptr, overlay, lives, raws,
}
use seq.Memory.Overlay.{overlay_at, put-overlay_at}

pub length-raws : (A : Type 0) (n : ℕ) → length {A = Cell A} (raws n) ≡ n
length-raws A n = length-replicate n raw

module _ {A : Type 0} where
  pub length-lives : (xs : List A) → length (lives xs) ≡ length xs
  length-lives [] = refl
  length-lives (x ∷ xs) = ap suc (length-lives xs)

  pub lives-append : (xs ys : List A) → lives (xs ++ ys) ≡ lives xs ++ lives ys
  lives-append [] ys = refl
  lives-append (x ∷ xs) ys = ap (λ t. live x ∷ t) (lives-append xs ys)

  -- The world with another memory.
  abbrev pub with_cell : World A → (ℕ → Cell A) → World A
  with_cell w h = record w { cell = h }

  -- The world after one more construction that may throw, with memory `h`.
  abbrev pub burnt : World A → (ℕ → Cell A) → World A
  burnt w h = record { cell = h; fuse = w.fuse - 1 }

  pub destroy_live :
      (p : ℕ) (x : A) (w : World A)
      → w.cell p ≡ live x
      → destroy_ptr p w ≡ ok (with_cell w (put w.cell p raw))
  unfolding destroy_ptr
  destroy_live p x w e = rw (destroy_ptr, e)

  construct_raw :
      (p : ℕ) (x : A) (w : World A)
      → w.cell p ≡ raw
      → construct_ptr true p x w ≡ ok (with_cell w (put w.cell p (live x)))
  unfolding construct_ptr
  construct_raw p x w e = rw (construct_ptr, e)

  pub construct_burning :
      (p : ℕ) (x : A) (w : World A)
      → w.cell p ≡ raw
      → construct_ptr false p x w
        ≡ (if w.fuse == 0 then threw w else ok (burnt w (put w.cell p (live x))))
  unfolding construct_ptr
  construct_burning p x w e = rw (construct_ptr, e)

  module _ (h : ℕ → Cell A) (p : ℕ) (post : List (Cell A)) (x : A) (w : World A) where
    pub object_step : w.cell ≡ overlay p (live x ∷ post) h → w.cell p ≡ live x
    object_step lay = (λ i. lay i p) ∙ overlay_at h p [] (live x) post p (omega arith)

    pub destroy_step :
        w.cell ≡ overlay p (live x ∷ post) h
        → destroy_ptr p w ≡ ok (with_cell w (overlay p (raw ∷ post) h))
    destroy_step lay =
        destroy_live p x w (object_step lay)
        ∙ ap (λ c. ok (with_cell w c))
            (ap (λ c. put c p raw) lay ∙ put-overlay_at h p [] (live x) raw post p (omega arith))

    raw_step : w.cell ≡ overlay p (raw ∷ post) h → w.cell p ≡ raw
    raw_step lay = (λ i. lay i p) ∙ overlay_at h p [] raw post p (omega arith)

    fill_step :
        w.cell ≡ overlay p (raw ∷ post) h → put w.cell p (live x) ≡ overlay p (live x ∷ post) h
    fill_step lay =
        ap (λ c. put c p (live x)) lay ∙ put-overlay_at h p [] raw (live x) post p (omega arith)

    pub construct_step :
        w.cell ≡ overlay p (raw ∷ post) h
        → construct_ptr true p x w ≡ ok (with_cell w (overlay p (live x ∷ post) h))
    construct_step lay =
        construct_raw p x w (raw_step lay) ∙ ap (λ c. ok (with_cell w c)) (fill_step lay)

    pub construct_step_throwing :
        w.cell ≡ overlay p (raw ∷ post) h
        → construct_ptr false p x w
          ≡ (if w.fuse == 0 then threw w else ok (burnt w (overlay p (live x ∷ post) h)))
    construct_step_throwing lay =
        construct_burning p x w (raw_step lay)
        ∙ ap (λ c. if w.fuse == 0 then threw w else ok (burnt w c)) (fill_step lay)
