-- ===== src/Devector/Lifetime/Destruct.antt =====
-- A vector that is destroyed gives back all its storage.
use seq.Prelude.{ℕ, ◌≡◌, ap, sym, ◌∙◌, List, [], length, length-replicate, replicate, arith}
use seq.Memory.{Cell, unmapped, Outcome, ok, threw, fault, overlay, raws, Gives, Gives-map}
use seq.Memory.Overlay.{overlay_same, overlay_free}
use seq.Memory.Steps.{length-raws}
use seq.Devector.{State, front_capacity, back_capacity}
use seq.Devector.Layout.{Holds}
use seq.Devector.Lifetime.{destruct, destruct_data}
use seq.Devector.Relocation.{deallocate-cell, raws-split}
use seq.Devector.Resize.{clear}
use seq.Devector.Resize.Access.{clear-Holds}
use seq.Devector.Resize.Stretch.{destroy_stretch}

module _ {A : Type 0} (g : ℕ → Cell A) where
  destruct_data-cell :
      (s : State A) (xs : List A)
      → Holds g s xs
      → Gives (destruct_data s) (λ w. w.cell ≡ g) (λ _. ⊥)
  unfolding destruct_data
  destruct_data-cell s xs holds =
      let v = s.vec in
      let f = front_capacity v in
      let b = back_capacity v in
      let empty =
        raws-split {A = A} f (length xs) b v.capacity
          (omega (arith, holds.starts, holds.ends, holds.fits)) in
      rw
        (
          destruct_data,
          destroy_stretch g v.buffer v.start v.end (raws f) (raws b)
              (omega (arith, length-raws A f, holds.starts)) s.world xs holds.ends holds.layout,
        )
        (deallocate-cell v.buffer v.capacity _ holds.null
          ∙ ap (λ l. overlay v.buffer (replicate v.capacity unmapped) (overlay v.buffer l g))
              (sym empty)
          ∙ overlay_same g v.buffer (replicate v.capacity unmapped) (raws v.capacity)
              (length-replicate v.capacity unmapped ∙ sym (length-raws A v.capacity))
          ∙ overlay_free g v.buffer v.capacity unmapped holds.free)

  Gives-destruct :
      (o : Outcome (State A))
      → Gives o (λ r. Holds g r []) (λ _. ⊥)
      → Gives
          (elim o [ ok r ↦ destruct_data r | threw r ↦ threw r.world | fault ↦ fault ])
          (λ w. w.cell ≡ g)
          (λ _. ⊥)
  Gives-destruct (ok r) h = destruct_data-cell r [] h
  Gives-destruct (threw r) h = absurd h
  Gives-destruct fault h = h

  -- The destruction of a vector that holds `xs` neither throws nor faults, and leaves exactly the
  -- rest of memory: all objects destroyed and all storage returned.
  pub destruct-cell :
      (s : State A) (xs : List A) → Holds g s xs → Gives (destruct s) (λ w. w.cell ≡ g) (λ _. ⊥)
  unfolding destruct
  destruct-cell s xs holds =
      Gives-destruct (clear s) (Gives-map (clear s) _ _ _ (clear-Holds g s xs holds) (λ r h. h.0))
