-- ===== src/Devector/Transfer/Copy.antt =====
-- `copy_destroy_input` between stretches that lie apart.
use seq.Prelude.{
  ℕ, ◌+◌, ◌-◌, ◌≡◌, refl, ap, sym, subst, ◌∙◌, ◌⊎◌, inl, inr, Bool, ◌||◌, leb, List, [], ◌∷◌,
  length, arith, if◌then◌else◌, Bool-cases,
}
use seq.Memory.{Cell, live, World, Outcome, ok, threw, ◌>>=◌, put, overlay, lives, raws, Traits}
use seq.Memory.Overlay.{overlay-cons, overlay_comm, overlay-nil, overlay_at}
use seq.Memory.Steps.{length-lives, length-raws, with_cell}
use seq.Devector.Transfer.{destroy_range, copy_loop, copy_destroy_input}
use seq.Devector.Transfer.Loops.{Apart, Before, After, destroy_cells_lem, move_loop_lem, memcpy_lem}
use seq.Devector.Transfer.Throwing.{Attempt, Reads, copy_loop_lem}

-- Whether moving objects of the type can throw.
abbrev pub is_safe : Traits → Bool
is_safe t = t.relocatable || t.nothrow_move

module _ {A : Type 0} where
  pub Reads-lives : (xs : List A) (g : ℕ → Cell A) (i : ℕ) → Reads (overlay i (lives xs) g) i xs
  Reads-lives [] g i = tt
  Reads-lives (x ∷ xs) g i = (
    overlay_at g i [] (live x) (lives xs) i (omega arith),
    (let e = sym (overlay-cons g i (live x) (lives xs)) in
        subst (λ m. Reads m (i + 1) xs) e (Reads-lives xs (put g i (live x)) (i + 1))),
  )

  -- What a transfer of `n` objects leaves: memory `h`, or `k` if it threw.
  abbrev pub Transferred : Traits → ℕ → World A → (ℕ → Cell A) → (ℕ → Cell A) → Outcome (World A)
  Transferred t n w h k = if is_safe t then ok (with_cell w h) else Attempt n w h k

  Attempt-bind :
      (n : ℕ) (w : World A) (f : World A → Outcome (World A)) (h h' k : ℕ → Cell A)
      → ((v : World A) → v.cell ≡ h → f v ≡ ok (with_cell v h'))
      → (Attempt n w h k >>= f) ≡ Attempt n w h' k
  Attempt-bind n w f h h' k step = elim (Bool-cases (leb n w.fuse)) [
    | inl fits ↦ rw fits (step _ refl)
    | inr short ↦ rw short
  ]

  module _ (xs : List A) (g : ℕ → Cell A) (i j last : ℕ) (w : World A)
      (apart : Apart i j (length xs)) (end : last ≡ i + length xs)
      (lay : w.cell ≡ Before i j xs g) where
    destroy_source :
        (v : World A)
        → v.cell ≡ overlay j (lives xs) (overlay i (lives xs) g)
        → destroy_range i last v ≡ ok (with_cell v (After i j xs g))
    unfolding destroy_range
    destroy_source v e =
        let k : last - i ≡ length xs = omega arith in
        rw k (
          destroy_cells_lem xs (overlay j (lives xs) g) i v
            (e ∙ overlay_comm g j i (lives xs) (lives xs) (ground (arith, length-lives xs))))

    copied :
        copy_loop j (length xs) i j w
        ≡ Attempt (length xs) w (overlay j (lives xs) (overlay i (lives xs) g)) (Before i j xs g)
    copied =
        let source : ℕ → Cell A = overlay i (lives xs) g in
        let swapped =
          overlay_comm g i j (lives xs) (raws (length xs))
            (ground (arith, length-lives xs, length-raws A (length xs))) in
        copy_loop_lem xs [] j i j source w (omega arith) (ground arith) (Reads-lives xs g i)
          (lay ∙ swapped ∙ sym (overlay-nil (overlay j (raws (length xs)) source) j))
        ∙ (λ k.
            Attempt (length xs) w (overlay-nil (overlay j (lives xs) source) j k)
              ((overlay-nil (overlay j (raws (length xs)) source) j ∙ sym swapped) k))

    copied_destroyed :
        (copy_loop j (length xs) i j w >>= destroy_range i last)
        ≡ Attempt (length xs) w (After i j xs g) (Before i j xs g)
    copied_destroyed =
        ap (λ o. o >>= destroy_range i last) copied
        ∙ Attempt-bind (length xs) w (destroy_range i last)
            (overlay j (lives xs) (overlay i (lives xs) g)) (After i j xs g) (Before i j xs g)
            (λ v e. destroy_source v e)

    -- For objects `xs` at `i` and as many raw cells at `j`, the two ranges apart,
    -- `copy_destroy_input` leaves the objects at `j` and raw cells at `i` without using the fuse if
    -- the type is relocatable or moves without throwing, and else does so if as many constructions
    -- succeed; otherwise it throws with memory as it was before the call.
    pub copy_destroy_input_lem :
        (t : Traits)
        → copy_destroy_input t i last j w
          ≡ Transferred t (length xs) w (After i j xs g) (Before i j xs g)
    unfolding copy_destroy_input
    copy_destroy_input_lem t =
        let k : last - i ≡ length xs = omega arith in
        elim (Bool-cases t.relocatable) [
          | inl r ↦ rw (r, k) (memcpy_lem xs g i j w apart lay)
          | inr r ↦ elim (Bool-cases t.nothrow_move) [
            | inl m ↦ rw (r, m, k) (move_loop_lem xs g i j w apart lay)
            | inr m ↦ rw (r, m, k) copied_destroyed
          ]
        ]

  -- A transfer succeeds or throws.
  pub Transferred-cases :
      (t : Traits) (n : ℕ) (w : World A) (h k : ℕ → Cell A)
      → ((v : World A) × (Transferred t n w h k ≡ ok v) × (v.cell ≡ h))
        ⊎ ((v : World A) × (Transferred t n w h k ≡ threw v) × (v.cell ≡ k))
  Transferred-cases t n w h k = elim (Bool-cases (is_safe t)) [
    | inl safe ↦ inl (with_cell w h, rw safe, refl)
    | inr unsafe ↦ elim (Bool-cases (leb n w.fuse)) [
      | inl fits ↦ inl (record { cell = h; fuse = w.fuse - n }, rw (unsafe, fits), refl)
      | inr short ↦ inr (record { cell = k; fuse = 0 }, rw (unsafe, short), refl)
    ]
  ]
