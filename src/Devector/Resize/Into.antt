-- ===== src/Devector/Resize/Into.antt =====
-- The reallocations in `resize` and `resize_front`: new objects are constructed in new storage,
-- then the others move there.
use seq.Prelude.{
  ℕ, ◌+◌, ◌-◌, ◌≡◌, refl, ap, sym, ◌∙◌, ◌⊎◌, inl, inr, Bool-cases, List, ◌++◌, length, replicate,
  leb,
}
use seq.Memory.{Cell, World, Outcome, ok, threw, fault, overlay, lives, raws, Traits, Gives}
use seq.Devector.{State, front_capacity, back_capacity, new_address, allocate, deallocate}
use seq.Devector.Layout.{block, Holds, Holds-same, Fresh}
use seq.Devector.Relocation.{
  allocated, restored, restored_from, beside, length-beside, gap, grown, moved, transferred,
}
use seq.Devector.Resize.Stretch.{construct_stretch}
use seq.Devector.Transfer.{construct_range, copy_destroy_input}
use seq.Devector.Transfer.Copy.{Transferred, Transferred-cases}
use seq.Devector.Transfer.Throwing.{Attempt}

module _ {A : Type 0} where
  -- Constructions succeed or throw.
  pub Attempt-cases :
      (n : ℕ) (w : World A) (h k : ℕ → Cell A)
      → ((v : World A) × (Attempt n w h k ≡ ok v) × (v.cell ≡ h))
        ⊎ ((v : World A) × (Attempt n w h k ≡ threw v) × (v.cell ≡ k))
  Attempt-cases n w h k = elim (Bool-cases (leb n w.fuse)) [
    | inl fits ↦ inl (record { cell = h; fuse = w.fuse - n }, rw fits, refl)
    | inr short ↦ inr (record { cell = k; fuse = 0 }, rw short, refl)
  ]

  module _ (g : ℕ → Cell A) (s : State A) (xs : List A) (holds : Holds g s xs) (p n : ℕ)
      (fresh : Fresh g s.vec p n) (k : ℕ) (v : A) (t : Traits) where
    open s.vec use {buffer, start, end, capacity}

    abbrev new : ℕ
    new = new_address p n

    abbrev fill : List A
    fill = replicate k v

    -- The new objects stand between `left` and `right`, beside the gap for the others.
    module _ (pre post left right : List (Cell A)) (room : length pre + length xs + length post ≡ n)
        (split : beside g s xs p n holds fresh pre post room (raws (length xs))
          ≡ left ++ (lives fill ++ right))
        (empty : raws n ≡ left ++ (raws k ++ right)) (first last new_start : ℕ)
        (at_first : first ≡ new + length left) (at_last : last ≡ first + k)
        (at_start : new_start ≡ new + length pre) where
      abbrev old : ℕ → Cell A
      old = overlay buffer (block (front_capacity s.vec) xs (back_capacity s.vec)) g

      abbrev before : ℕ → Cell A
      before = grown g s xs p n holds fresh pre post room

      abbrev after : ℕ → Cell A
      after = moved g s xs p n holds fresh pre post room

      pub made :
          construct_range first last v (allocate p n s.world)
          ≡ Attempt k (allocate p n s.world) before (allocate p n s.world).cell
      made =
          construct_stretch old new first last left right at_first (allocate p n s.world) k v
            at_last (allocated g s xs p n holds fresh ∙ ap (λ l. overlay new l old) empty)
          ∙ ap
              (λ l.
                Attempt k (allocate p n s.world) (overlay new l old) (allocate p n s.world).cell)
              (sym split)

      pub copying :
          (w : World A)
          → w.cell ≡ before
          → copy_destroy_input t start end new_start w ≡ Transferred t (length xs) w after before
      copying w e =
          ap (λ q. copy_destroy_input t start end q w) at_start
          ∙ transferred g s xs p n holds fresh pre post room t w e

      pub not_made :
          (w : World A)
          → w.cell ≡ (allocate p n s.world).cell
          → Holds g (record s { world = deallocate new n w }) xs
      not_made w c =
          Holds-same g s xs _ holds
            (restored g s xs p n holds fresh w (c ∙ allocated g s xs p n holds fresh))

      pub not_copied :
          (w : World A) → w.cell ≡ before → Holds g (record s { world = deallocate new n w }) xs
      not_copied w c = Holds-same g s xs _ holds (
          restored_from g s xs p n holds fresh
            (beside g s xs p n holds fresh pre post room (raws (length xs))) w
            (length-beside g s xs p n holds fresh pre post room (raws (length xs))
              (gap g s xs p n holds fresh pre post room))
            c)

      -- Both steps with their handlers, which return the new storage.
      unfoldable pub transit : (World A → State A) → Outcome (State A)
      transit land = elim (construct_range first last v (allocate p n s.world)) [
        | threw w ↦ threw (record s { world = deallocate new n w })
        | fault ↦ fault
        | ok w ↦ elim (copy_destroy_input t start end new_start w) [
          | threw w' ↦ threw (record s { world = deallocate new n w' })
          | fault ↦ fault
          | ok w' ↦ ok (land w')
        ]
      ]

      pub transit-Gives :
          (land : World A → State A) (P : State A → Type 0)
          → ((w : World A) → w.cell ≡ after → P (land w))
          → Gives (transit land) P (λ r. Holds g r xs)
      unfolding transit
      transit-Gives land P f =
          elim (Attempt-cases k (allocate p n s.world) before (allocate p n s.world).cell) [
            | inr (w, e, c) ↦ rw (transit, made ∙ e) (not_made w c)
            | inl (w, e, c) ↦ elim (Transferred-cases t (length xs) w after before) [
              | inl (w', e', c') ↦ rw (transit, made ∙ e, copying w c ∙ e') (f w' c')
              | inr (w', e', c') ↦ rw (transit, made ∙ e, copying w c ∙ e') (not_copied w' c')
            ]
          ]
