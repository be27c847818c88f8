-- ===== src/Devector/Transfer/Throwing.antt =====
-- The loops whose constructions may throw, and what their handlers restore.
use seq.Prelude.{
  ℕ, zero, suc, ◌+◌, ◌-◌, ◌≤◌, ◌≡◌, refl, ap, sym, ◌∙◌, ◌⊎◌, inl, inr, true, false, leb, ◌==◌,
  if◌then◌else◌, List, [], ◌∷◌, ◌++◌, length, length-append, arith, replicate, replicate-append,
  Bool-cases,
}
use seq.Memory.{
  Cell, raw, live, World, Outcome, ok, threw, rethrow, construct_ptr, overlay, lives, raws,
}
use seq.Memory.Overlay.{overlay_comm, overlay_outside, overlay_shift}
use seq.Memory.Steps.{length-lives, length-raws, lives-append, burnt, construct_step_throwing}
use seq.Devector.Transfer.{destroy_range, construct_loop, copy_loop}
use seq.Devector.Transfer.Loops.{destroy_cells_lem}

module _ {A : Type 0} where
  -- After `n` constructions: memory `h` if none threw, else `k`.
  abbrev pub Attempt : ℕ → World A → (ℕ → Cell A) → (ℕ → Cell A) → Outcome (World A)
  Attempt n w h k =
      if leb n w.fuse
      then ok (record { cell = h; fuse = w.fuse - n })
      else threw (record { cell = k; fuse = 0 })

  Attempt_stop :
      (n : ℕ) (w : World A) (h k : ℕ → Cell A)
      → (w.fuse == 0) ≡ true
      → Attempt (suc n) w h k ≡ threw (record { cell = k; fuse = 0 })
  Attempt_stop n w h k stop = ground arith

  Attempt_more :
      (n : ℕ) (w : World A) (c h k : ℕ → Cell A)
      → (w.fuse == 0) ≡ false
      → Attempt n (burnt w c) h k ≡ Attempt (suc n) w h k
  Attempt_more n w c h k more = ground arith

  raws-snoc :
      (done : List A) (v : A)
      → raws {A = A} (length (done ++ v ∷ [])) ≡ raws (length done) ++ raw ∷ []
  raws-snoc done v =
      ap (λ n. raws n) (length-append done (v ∷ [])) ∙ sym (replicate-append (length done) 1 raw)

  module _ (saved : ℕ) (done : List A) (p : ℕ) (at : p ≡ saved + length done) (h : ℕ → Cell A) where
    -- The handler destroys what was constructed.
    undone :
        (w : World A)
        → w.fuse ≡ 0
        → w.cell ≡ overlay saved (lives done) h
        → rethrow (destroy_range saved p w)
          ≡ threw (record { cell = overlay saved (raws (length done)) h; fuse = 0 })
    unfolding destroy_range
    undone w f lay =
        let e : p - saved ≡ length done = omega arith in
        rw (e, destroy_cells_lem done h saved w lay, f)

    -- One more object counts as done.
    advance :
        (v : A) (cs : List (Cell A))
        → overlay saved (lives done) (overlay p (live v ∷ cs) h)
          ≡ overlay saved (lives (done ++ v ∷ [])) (overlay (p + 1) cs h)
    advance v cs =
        overlay_shift h saved p (lives done) (live v) cs (omega (arith, length-lives done))
        ∙ ap (λ l. overlay saved l (overlay (p + 1) cs h)) (sym (lives-append done (v ∷ [])))

    retreat :
        (v : A) (cs : List (Cell A))
        → overlay saved (raws (length (done ++ v ∷ []))) (overlay (p + 1) cs h)
          ≡ overlay saved (raws (length done)) (overlay p (raw ∷ cs) h)
    retreat v cs =
        ap (λ l. overlay saved l (overlay (p + 1) cs h)) (raws-snoc done v)
        ∙ sym (
            overlay_shift h saved p (raws (length done)) raw cs
              (omega (arith, length-raws A (length done))))

    resume :
        (n : ℕ) (v : A) (cs : List (Cell A)) (w : World A) (c : ℕ → Cell A)
        → (w.fuse == 0) ≡ false
        → Attempt n
            (burnt w c)
            (overlay saved (lives (done ++ v ∷ [])) (overlay (p + 1) cs h))
            (overlay saved (raws (length (done ++ v ∷ []))) (overlay (p + 1) (raws n) h))
          ≡ Attempt
              (suc n)
              w
              (overlay saved (lives done) (overlay p (live v ∷ cs) h))
              (overlay saved (raws (length done)) (overlay p (raws (suc n)) h))
    resume n v cs w c more =
        let from : ℕ → Cell A = overlay saved (lives (done ++ v ∷ [])) (overlay (p + 1) cs h) in
        ap (Attempt n (burnt w c) from) (retreat v (raws n))
        ∙ ap
            (λ m.
              Attempt n (burnt w c) m
                (overlay saved (raws (length done)) (overlay p (raws (suc n)) h)))
            (sym (advance v cs))
        ∙ Attempt_more n w c _ _ more

    -- The next construction, behind those done.
    construct_next :
        (n : ℕ) (v : A) (w : World A)
        → w.cell ≡ overlay saved (lives done) (overlay p (raws (suc n)) h)
        → construct_ptr false p v w ≡ (
            if w.fuse == 0
            then threw w
            else ok (burnt w (overlay saved (lives (done ++ v ∷ [])) (overlay (p + 1) (raws n) h))))
    construct_next n v w lay =
        construct_step_throwing (overlay saved (lives done) h) p (raws n) v w (
          lay
          ∙ overlay_comm h saved p (lives done) (raws (suc n))
              (inl (omega (arith, length-lives done))))
        ∙ ap (λ c. if w.fuse == 0 then threw w else ok (burnt w c))
            (sym (
                overlay_comm h saved p (lives done) (live v ∷ raws n)
                  (inl (omega (arith, length-lives done))))
              ∙ advance v (raws n))

  pub construct_loop_lem :
      (n : ℕ) (done : List A) (saved p : ℕ) (h : ℕ → Cell A) (v : A) (w : World A)
      → p ≡ saved + length done
      → w.cell ≡ overlay saved (lives done) (overlay p (raws n) h)
      → construct_loop saved n p v w
        ≡ Attempt n w
            (overlay saved (lives done) (overlay p (lives (replicate n v)) h))
            (overlay saved (raws (length done)) (overlay p (raws n) h))
  unfolding construct_loop
  construct_loop_lem zero done saved p h v w at lay = ground (arith, lay)
  construct_loop_lem (suc n) done saved p h v w at lay = elim (Bool-cases (w.fuse == 0)) [
    | inl stop ↦
        rw (construct_loop, construct_next saved done p at h n v w lay, stop)
          (undone saved done p at _ w (ground arith) lay ∙ sym (Attempt_stop n w _ _ stop))
    | inr more ↦
        rw (construct_loop, construct_next saved done p at h n v w lay, more)
          (construct_loop_lem n (done ++ v ∷ []) saved (p + 1) h v _
              (omega (arith, length-append done (v ∷ []))) refl
            ∙ resume saved done p at h n v (lives (replicate n v)) w
                (overlay saved (lives (done ++ v ∷ [])) (overlay (p + 1) (raws n) h)) more)
  ]

  -- `xs` can be read from address i on.
  abbrev pub Reads : (ℕ → Cell A) → ℕ → List A → Type 0
  Reads h i [] = Unit {0}
  Reads h i (x ∷ xs) = (h i ≡ live x) × Reads h (i + 1) xs

  pub copy_loop_lem :
      (xs done : List A) (saved i p : ℕ) (h : ℕ → Cell A) (w : World A)
      → p ≡ saved + length done
      → (i + length xs ≤ saved) ⊎ (p + length xs ≤ i)
      → Reads h i xs
      → w.cell ≡ overlay saved (lives done) (overlay p (raws (length xs)) h)
      → copy_loop saved (length xs) i p w
        ≡ Attempt
            (length xs)
            w
            (overlay saved (lives done) (overlay p (lives xs) h))
            (overlay saved (raws (length done)) (overlay p (raws (length xs)) h))
  unfolding copy_loop
  copy_loop_lem [] done saved i p h w at apart reads lay = ground (arith, lay)
  copy_loop_lem (x ∷ xs) done saved i p h w at apart reads lay =
      let n = length xs in
      let source : w.cell i ≡ live x =
        (λ k. lay k i)
        ∙ overlay_outside (overlay p (raws (suc n)) h) saved (lives done) i
            (ground (arith, length-lives done))
        ∙ overlay_outside h p (raws (suc n)) i (ground (arith, length-raws A n))
        ∙ reads.0 in
      elim (Bool-cases (w.fuse == 0)) [
        | inl stop ↦
            rw (copy_loop, source, construct_next saved done p at h n x w lay, stop)
              (undone saved done p at _ w (ground arith) lay ∙ sym (Attempt_stop n w _ _ stop))
        | inr more ↦
            rw (copy_loop, source, construct_next saved done p at h n x w lay, more)
              (copy_loop_lem xs (done ++ x ∷ []) saved (i + 1) (p + 1) h _
                  (omega (arith, length-append done (x ∷ []))) (ground arith) reads.1 refl
                ∙ resume saved done p at h n x (lives xs) w
                    (overlay saved (lives (done ++ x ∷ [])) (overlay (p + 1) (raws n) h)) more)
      ]
