-- ===== src/CircularBuffer/Insert/Pop.antt =====
-- The insertions into a full ring, which give up the value at one end.
use Prim.Native.Nat.{bit_and}
use seq.Prelude.{
  ℕ, ◌+◌, ◌-◌, ◌/◌, ◌≡◌, refl, ap, sym, ◌∙◌, inl, inr, Bool-cases, arith, ltb, if◌then◌else◌, List,
  [], ◌∷◌, ◌++◌, append_assoc, append-nil, length, length-append, subst,
}
use seq.Memory.{Cell, live, World, Outcome, ok, threw, fault, lives, raws, Gives}
use seq.Memory.Steps.{length-lives, lives-append}
use seq.CircularBuffer.{Ring, State, Element, at, step_down, step_up, finish}
use seq.CircularBuffer.View.{Shape, slot, at-slot, wrap_ring}
use seq.CircularBuffer.Turn.{Shape-step_down, Shape-step_up, Shows-step_down, Shows-step_up}
use seq.CircularBuffer.Cells.{Content, Contains, Vacant, take_out-Content}
use seq.CircularBuffer.Exchange.{full_content}
use seq.CircularBuffer.Shift.{move_right_1, move_left_1}
use seq.CircularBuffer.Shift.Effect.{Leaves, open_right, open_left}
use seq.CircularBuffer.Insert.{beside, insert_pop_back, insert_pop_front}
use seq.CircularBuffer.Insert.Place.{Kept, Opens, Opens-place}

module _ {A : Type 0} (g : ℕ → Cell A) (el : Element A) where
  beside-Gives :
      (y : A) (o : Outcome (State A)) (P Q : State A → Type 0)
      → Gives o P Q
      → Gives (beside y o) (λ r. (r.0 ≡ y) × P r.1) (λ r. Q r.1)
  beside-Gives y (ok s) P Q h = (refl, h)
  beside-Gives y (threw s) P Q h = h
  beside-Gives y fault P Q h = h

  -- The gap in a ring without free cells.
  full-Opens :
      (b : Ring) (shape : Shape b) (ys zs : List A) (o : Outcome (World A))
      → b.size ≡ length ys + 1 + length zs
      → length ys + 1 + length zs ≡ b.max_size
      → Leaves el b shape g o (λ d. lives ys ++ d ∷ (lives zs ++ []))
      → Opens g el (finish b b o) ys zs
  full-Opens b shape ys zs o count full (w, d, e, content, vacant) = record {
    after = record { ring = b; world = w };
    succeeds = rw e refl;
    gap = d;
    shape = shape;
    count = count;
    fits = omega (arith, full);
    vacant = vacant;
    content =
        subst (λ k. Content b g w (lives ys ++ d ∷ (lives zs ++ raws k)))
          (let k : 0 ≡ b.max_size - (length ys + 1 + length zs) = omega (arith, full) in k) content;
  }

  module _ (b : Ring) (shape : Shape b) (ys zs : List A)
      (count : b.size ≡ length ys + 1 + length zs) (full : length ys + 1 + length zs ≡ b.max_size)
      (d : Cell A) (w : World A) (vacant : Vacant el d) where
    right-Opens :
        Content b g w (lives (ys ++ zs) ++ d ∷ [])
        → Opens g el (finish b b (move_right_1 el b (length ys) w)) ys zs
    right-Opens content =
        let split : lives (ys ++ zs) ++ d ∷ [] ≡ lives ys ++ (lives zs ++ d ∷ []) =
          ap (λ l. l ++ d ∷ []) (lives-append ys zs)
          ∙ append_assoc (lives ys) (lives zs) (d ∷ []) in
        let from : at b (b.size - 1) ≡ slot b (length ys + length zs) =
          at-slot b (b.size - 1) shape (omega (arith, count, full))
          ∙ ap (slot b) (omega (arith, count)) in
        let to : at b (length ys) ≡ slot b (length ys) =
          at-slot b (length ys) shape (omega (arith, full)) in
        rw (from, to)
          (full-Opens b shape ys zs _ count full (
            open_right el b shape g ys zs d [] w (omega (arith, full)) vacant
              (subst (Content b g w) split content)))

    left-Opens :
        (pos : ℕ)
        → pos ≡ length ys + 1
        → Content b g w (d ∷ lives (ys ++ zs))
        → Opens g el (finish b b (move_left_1 el b pos w)) ys zs
    left-Opens pos e content =
        let split : d ∷ lives (ys ++ zs) ≡ d ∷ (lives ys ++ (lives zs ++ [])) =
          ap (λ l. d ∷ l) (lives-append ys zs)
          ∙ ap (λ l. d ∷ (lives ys ++ l)) (sym (append-nil (lives zs))) in
        let from : at b 0 ≡ slot b 0 = at-slot b 0 shape (omega arith) in
        let to : b.buffer + bit_and (b.begin + pos - 1) b.max_size1 ≡ slot b (length ys) =
          ground (arith, wrap_ring b (b.begin + pos - 1) shape, shape.inside, full, e) in
        rw (from, to)
          (full-Opens b shape ys zs _ count full (
            open_left el b shape g ys d (lives zs ++ []) w (omega (arith, full)) vacant
              (subst (Content b g w) split content)))

  module _ (s : State A) (xs : List A) (holds : Contains g s xs)
      (full : length xs ≡ s.ring.max_size) (ys zs : List A) (y : A) where
    abbrev b : Ring
    b = s.ring

    -- On a full ring that contains `ys`, `zs` and `y`, `insert_pop_back` of `v` at the index behind
    -- `ys` does not fault: it gives `y` and leaves a ring that contains `ys`, `v` and `zs`, or
    -- throws and leaves one that contains only `ys` where the type is relocatable, or `ys`, some
    -- value and `zs` where it is not.
    pub insert_pop_back-Contains :
        (v : A)
        → xs ≡ (ys ++ zs) ++ y ∷ []
        → Gives
            (insert_pop_back el (length ys) v s)
            (λ r. (r.0 ≡ y) × Contains g r.1 (ys ++ v ∷ zs))
            (λ r. Kept g el ys zs r.1)
    unfolding insert_pop_back
    insert_pop_back-Contains v split =
        let n : length xs ≡ length ys + 1 + length zs =
          ap length split
          ∙ length-append (ys ++ zs) (y ∷ [])
          ∙ omega (arith, length-append ys zs) in
        let c = step_down b in
        let shape = Shape-step_down b holds.shape in
        let last : at b (b.size - 1) ≡ slot b (length (ys ++ zs)) =
          at-slot b (b.size - 1) holds.shape (omega (arith, holds.count, holds.fits))
          ∙ ap (slot b) (omega (arith, holds.count, length-append ys zs)) in
        let before : Content b g s.world (lives (ys ++ zs) ++ live y ∷ []) =
          subst (Content b g s.world) (ap lives split ∙ lives-append (ys ++ zs) (y ∷ []))
            (full_content g el s xs holds full) in
        let out =
          take_out-Content b holds.shape g s.world (lives (ys ++ zs)) (live y) []
            (length (ys ++ zs)) (sym (length-lives (ys ++ zs))) (omega (arith, length-append ys zs))
            before el y refl in
        let shifted : Opens g el
            (if ltb (b.size / 2) (length ys)
              then finish b b (move_right_1 el b (length ys) out.0)
              else finish c c (move_left_1 el c (length ys + 1) out.0))
            ys zs =
          elim (Bool-cases (ltb (b.size / 2) (length ys))) [
            | inl back ↦ rw back (
                right-Opens b holds.shape ys zs (omega (arith, holds.count)) (omega arith) out.1
                  out.0 out.4 out.3)
            | inr front ↦ rw front (
                left-Opens c shape ys zs (omega (arith, holds.count)) (omega arith) out.1 out.0
                  out.4 (length ys + 1) refl
                  (Shows-step_down b holds.shape g out.0 out.1 (lives (ys ++ zs))
                    (omega (arith, length-lives (ys ++ zs), length-append ys zs)) out.3))
          ] in
        rw (insert_pop_back, last, out.2)
          (beside-Gives y _ _ (Kept g el ys zs)
            (Opens-place g el _ ys zs (length ys) v shifted refl))

    -- On a full ring that contains `y`, `ys` and `zs`, `insert_pop_front` of `v` at the index
    -- behind `y` and `ys` does not fault: it gives `y` and leaves a ring that contains `ys`, `v`
    -- and `zs`, or throws and leaves one that contains only `ys` where the type is relocatable, or
    -- `ys`, some value and `zs` where it is not.
    pub insert_pop_front-Contains :
        (v : A)
        → xs ≡ y ∷ (ys ++ zs)
        → Gives
            (insert_pop_front el (length ys + 1) v s)
            (λ r. (r.0 ≡ y) × Contains g r.1 (ys ++ v ∷ zs))
            (λ r. Kept g el ys zs r.1)
    unfolding insert_pop_front
    insert_pop_front-Contains v split =
        let n : length xs ≡ length ys + 1 + length zs =
          ap length split ∙ omega (arith, length-append ys zs) in
        let c = step_up b in
        let shape = Shape-step_up b holds.shape in
        let first : at b 0 ≡ slot b 0 = at-slot b 0 holds.shape (omega arith) in
        let before : Content b g s.world (live y ∷ lives (ys ++ zs)) =
          subst (Content b g s.world) (ap lives split) (full_content g el s xs holds full) in
        let out =
          take_out-Content b holds.shape g s.world [] (live y) (lives (ys ++ zs)) 0 refl
            (omega arith) before el y refl in
        let index : length ys + 1 - 1 ≡ length ys = omega arith in
        let shifted : Opens g el
            (if ltb (length ys + 1) (b.size / 2)
              then finish b b (move_left_1 el b (length ys + 1) out.0)
              else finish c c (move_right_1 el c (length ys) out.0))
            ys zs =
          elim (Bool-cases (ltb (length ys + 1) (b.size / 2))) [
            | inl front ↦ rw front (
                left-Opens b holds.shape ys zs (omega (arith, holds.count)) (omega arith) out.1
                  out.0 out.4 (length ys + 1) refl out.3)
            | inr back ↦ rw back (
                right-Opens c shape ys zs (omega (arith, holds.count)) (omega arith) out.1 out.0
                  out.4
                  (Shows-step_up b holds.shape g out.0 out.1 (lives (ys ++ zs))
                    (omega (arith, length-lives (ys ++ zs), length-append ys zs)) out.3))
          ] in
        rw (insert_pop_front, first, out.2, index)
          (beside-Gives y _ _ (Kept g el ys zs)
            (Opens-place g el _ ys zs (length ys) v shifted refl))
