-- ===== src/CircularBuffer/Erase/Push.antt =====
-- One element leaves a ring, and a value is added at an end.
use seq.Prelude.{
  ℕ, false, ◌+◌, ◌<◌, ◌≡◌, ap, sym, ◌∙◌, arith, List, [], ◌∷◌, ◌++◌, length, length-append,
}
use seq.Memory.{Cell, construct_ptr, Gives, Gives-bind, Gives-bimap}
use seq.CircularBuffer.{State, Element, finish, emplace_back, emplace_front}
use seq.CircularBuffer.View.{slot, at-slot}
use seq.CircularBuffer.Cells.{Contains}
use seq.CircularBuffer.Ends.{back_slot, emplace_back-Contains, emplace_front-Contains}
use seq.CircularBuffer.Erase.{append_value, erase, erase_push_back, erase_push_front}
use seq.CircularBuffer.Erase.Remove.{erase-Contains}

module _ {A : Type 0} (g : ℕ → Cell A) where
  append_value-emplace_back :
      (s : State A) (xs : List A) (holds : Contains g s xs) (v : A)
      → length xs < s.ring.max_size
      → emplace_back v s ≡ append_value v s
  unfolding emplace_back append_value
  append_value-emplace_back s xs holds v room =
      let b = s.ring in
      ap (λ p. finish (record b { size = b.size + 1 }) b (construct_ptr false p v s.world))
        (back_slot g s xs holds room
          ∙ ap (slot b) (sym holds.count)
          ∙ sym (at-slot b b.size holds.shape (omega (arith, holds.count, holds.fits))))

  module _ (el : Element A) (s : State A) (xs : List A) (holds : Contains g s xs) (ys zs : List A)
      (x : A) (split : xs ≡ ys ++ x ∷ zs) (v : A) where
    room : length (ys ++ zs) < s.ring.max_size
    room =
        omega (arith, ap length split ∙ length-append ys (x ∷ zs), length-append ys zs, holds.fits)

    -- On a ring that contains `ys`, `x` and `zs`, `erase_push_back` of `v` at the index behind `ys`
    -- does not fault: it leaves a ring that contains `ys`, `zs` and `v`, or throws and leaves one
    -- that contains `ys` followed by `zs`.
    pub erase_push_back-Contains :
        Gives
          (erase_push_back el (length ys) v s)
          (λ r. Contains g r ((ys ++ zs) ++ v ∷ []))
          (λ r. Contains g r (ys ++ zs))
    unfolding erase_push_back
    erase_push_back-Contains =
        Gives-bind (erase el (length ys) s) (append_value v) _ _ _ _
          (erase-Contains g el s xs holds ys zs x split)
          (λ r c.
            rw⁻¹ (append_value-emplace_back r (ys ++ zs) c.0 v (omega (arith, room, c.1)))
              (emplace_back-Contains g r (ys ++ zs) c.0 v (omega (arith, room, c.1))))
          (λ r e. absurd e)

    -- On a ring that contains `ys`, `x` and `zs`, `erase_push_front` of `v` at the index behind
    -- `ys` does not fault: it leaves a ring that contains `v`, `ys` and `zs`, or throws and leaves
    -- one that contains `ys` followed by `zs`.
    pub erase_push_front-Contains :
        Gives
          (erase_push_front el (length ys) v s)
          (λ r. Contains g r (v ∷ (ys ++ zs)))
          (λ r. Contains g r (ys ++ zs))
    unfolding erase_push_front
    erase_push_front-Contains =
        Gives-bind (erase el (length ys) s) (emplace_front v) _ _ _ _
          (erase-Contains g el s xs holds ys zs x split)
          (λ r c.
            Gives-bimap (emplace_front v r) _ _ _ _
              (emplace_front-Contains g r (ys ++ zs) c.0 v (omega (arith, room, c.1))) (λ q d. d.0)
              (λ q d. d))
          (λ r e. absurd e)
