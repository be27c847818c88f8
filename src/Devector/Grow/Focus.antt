-- ===== src/Devector/Grow/Focus.antt =====
-- One cell of a block, looked at from the left.
use seq.Prelude.{
  ℕ, suc, ◌+◌, ◌≡◌, ap, sym, ◌∙◌, some, List, [], ◌∷◌, ◌++◌, length, length-append, append_assoc,
  replicate-append, arith, ◌==◌, if◌then◌else◌,
}
use seq.Memory.{Cell, raw, live, World, ok, threw, put, overlay, lives, raws, destroy_ptr}
use seq.Memory.Overlay.{overlay_at, put-overlay_at}
use seq.Memory.Steps.{
  length-lives, length-raws, lives-append, with_cell, burnt, construct_burning, destroy_live,
}
use seq.Devector.{Arg}
use seq.Devector.Grow.{value_of, construct_arg}
use seq.Devector.Layout.{block}

module _ {A : Type 0} where
  pub block-snoc :
      (front : ℕ) (xs : List A) (x : A) (back : ℕ)
      → block front (xs ++ x ∷ []) back ≡ (raws front ++ lives xs) ++ live x ∷ raws back
  block-snoc front xs x back =
      ap (λ l. raws front ++ (l ++ raws back)) (lives-append xs (x ∷ []))
      ∙ ap (λ l. raws front ++ l) (append_assoc (lives xs) (live x ∷ []) (raws back))
      ∙ sym (append_assoc (raws front) (lives xs) (live x ∷ raws back))

  pub block-suc_back :
      (front : ℕ) (xs : List A) (back : ℕ)
      → block front xs (suc back) ≡ (raws front ++ lives xs) ++ raw ∷ raws back
  block-suc_back front xs back = sym (append_assoc (raws front) (lives xs) (raw ∷ raws back))

  pub block-suc_front :
      (front : ℕ) (xs : List A) (back : ℕ)
      → block (suc front) xs back ≡ raws front ++ raw ∷ (lives xs ++ raws back)
  block-suc_front front xs back =
      ap (λ k. raws k ++ (lives xs ++ raws back)) (let e : suc front ≡ front + 1 = omega arith in e)
      ∙ ap (λ l. l ++ (lives xs ++ raws back)) (sym (replicate-append front 1 raw))
      ∙ append_assoc (raws front) (raw ∷ []) (lives xs ++ raws back)

  pub length-prefix :
      (front : ℕ) (xs : List A) → length (raws {A = A} front ++ lives xs) ≡ front + length xs
  length-prefix front xs =
      omega
        (arith, length-append (raws {A = A} front) (lives xs), length-raws A front, length-lives xs)

  module _ (h : ℕ → Cell A) (s p : ℕ) (pre post : List (Cell A)) (at : p ≡ s + length pre) (v : A)
      (w : World A) where
    pub construct_at :
        (arg : Arg A)
        → value_of arg w ≡ some v
        → w.cell ≡ overlay s (pre ++ raw ∷ post) h
        → construct_arg p arg w
          ≡ (if w.fuse == 0 then threw w else ok (burnt w (overlay s (pre ++ live v ∷ post) h)))
    unfolding construct_arg
    construct_at arg given lay =
        rw (construct_arg, given)
          (construct_burning p v w ((λ i. lay i p) ∙ overlay_at h s pre raw post p at)
            ∙ ap (λ c. if w.fuse == 0 then threw w else ok (burnt w c))
                (ap (λ c. put c p (live v)) lay ∙ put-overlay_at h s pre raw (live v) post p at))

    pub destroy_at :
        w.cell ≡ overlay s (pre ++ live v ∷ post) h
        → destroy_ptr p w ≡ ok (with_cell w (overlay s (pre ++ raw ∷ post) h))
    destroy_at lay =
        destroy_live p v w ((λ i. lay i p) ∙ overlay_at h s pre (live v) post p at)
        ∙ ap (λ c. ok (with_cell w c))
            (ap (λ c. put c p raw) lay ∙ put-overlay_at h s pre (live v) raw post p at)
