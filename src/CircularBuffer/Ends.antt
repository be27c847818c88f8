-- ===== src/CircularBuffer/Ends.antt =====
-- The operations at the ends of a ring, as operations on a list.
use seq.Prelude.{
  ℕ, suc, ◌+◌, ◌-◌, ◌<◌, ◌≡◌, refl, ap, ap₂, sym, ◌∙◌, inl, inr, arith, ◌==◌, if◌then◌else◌, List,
  [], ◌∷◌, ◌++◌, append_assoc, length, length-append, replicate-append, subst,
}
use seq.Memory.{Cell, raw, live, lives, raws, Gives}
use seq.Memory.Steps.{length-lives, length-raws, lives-append}
use seq.CircularBuffer.{
  Ring, State, at, step_up, step_down, emplace_back, emplace_front, pop_back, pop_front,
}
use seq.CircularBuffer.View.{slot, at-slot}
use seq.CircularBuffer.Turn.{
  begin_up_down, Shape-step_up, Shape-step_down, Shows-step_up, Shows-step_down,
}
use seq.CircularBuffer.Cells.{Content, Contains, sized, construct-Content, destroy-Content}

module _ {A : Type 0} (g : ℕ → Cell A) where
  -- The free cells behind the objects, one of them split off.
  pub raws-suc : (n m : ℕ) → m < n → raws {A = A} (n - m) ≡ raw ∷ raws (n - m - 1)
  raws-suc n m h = ap (λ k. raws k) (let k : n - m ≡ suc (n - m - 1) = omega arith in k)

  pub raws-snoc : (n m : ℕ) → m < n → raws {A = A} (n - m) ≡ raws (n - m - 1) ++ raw ∷ []
  raws-snoc n m h =
      ap (λ k. raws k) (let k : n - m ≡ (n - m - 1) + 1 = omega arith in k)
      ∙ sym (replicate-append (n - m - 1) 1 raw)

  module _ (s : State A) (xs : List A) (holds : Contains g s xs) where
    abbrev b : Ring
    b = s.ring

    abbrev free : ℕ
    free = b.max_size - length xs

    -- The address that `emplace_back` takes.
    pub back_slot :
        length xs < b.max_size
        → (if b.begin == 0 then b.buffer + b.size else at b b.size) ≡ slot b (length xs)
    back_slot h = ground (arith, at-slot b b.size holds.shape, holds.count)

    snoc_cells :
        (v : A)
        → lives xs ++ live v ∷ raws (free - 1)
          ≡ lives (xs ++ v ∷ []) ++ raws (b.max_size - length (xs ++ v ∷ []))
    snoc_cells v =
        sym (append_assoc (lives xs) (live v ∷ []) (raws (free - 1)))
        ∙ ap₂ (λ l k. l ++ raws k) (sym (lives-append xs (v ∷ [])))
            (omega (arith, length-append xs (v ∷ [])))

    -- On a ring that contains `xs` and is not full, `emplace_back` of `v` does not fault: it leaves
    -- a ring that contains `xs` followed by `v`, or throws and leaves one that contains `xs`.
    pub emplace_back-Contains :
        (v : A)
        → length xs < b.max_size
        → Gives (emplace_back v s) (λ r. Contains g r (xs ++ v ∷ [])) (λ r. Contains g r xs)
    unfolding emplace_back
    emplace_back-Contains v room =
        let before : Content b g s.world (lives xs ++ raw ∷ raws (free - 1)) =
          subst (Content b g s.world)
            (ap (λ l. lives xs ++ l) (raws-suc b.max_size (length xs) room)) holds.content in
        elim (construct-Content b holds.shape g s.world (lives xs) raw (raws (free - 1)) (length xs)
          (sym (length-lives xs)) room before v refl) [
            | inr stop ↦ rw (emplace_back, back_slot room, stop) holds
            | inl (w, e, c, f) ↦
                rw (emplace_back, back_slot room, e)
                  (sized b g w (b.size + 1) (xs ++ v ∷ []) _ holds.shape c (snoc_cells v)
                    (omega (arith, holds.count, length-append xs (v ∷ [])))
                    (omega (arith, length-append xs (v ∷ []))))
          ]

    -- An empty cell in front, of a ring that begins one cell earlier.
    pub front_cells :
        length xs < b.max_size
        → Content (step_down b) g s.world (raw ∷ (lives xs ++ raws (free - 1)))
    front_cells room =
        Shows-step_down b holds.shape g s.world raw (lives xs ++ raws (free - 1))
          (omega (
            arith,
            length-append (lives xs) (raws {A = A} (free - 1)),
            length-lives xs,
            length-raws A (free - 1),
          ))
          (subst (Content b g s.world)
            (ap (λ l. lives xs ++ l) (raws-snoc b.max_size (length xs) room)
              ∙ sym (append_assoc (lives xs) (raws (free - 1)) (raw ∷ [])))
            holds.content)

    pub emplace_front-Contains :
        (v : A)
        → length xs < b.max_size
        → Gives
            (emplace_front v s)
            (λ r. Contains g r (v ∷ xs) × (r.ring.max_size ≡ b.max_size))
            (λ r. Contains g r xs)
    unfolding emplace_front
    emplace_front-Contains v room =
        let d = step_down b in
        let shape = Shape-step_down b holds.shape in
        let first : d.buffer + d.begin ≡ slot d 0 = ground (arith, shape.inside) in
        elim (construct-Content d shape g s.world [] raw (lives xs ++ raws (free - 1)) 0 refl
          (omega arith) (front_cells room) v refl) [
            | inr stop ↦
                rw (emplace_front, first, stop)
                  (subst
                    (λ k. Contains g (record { ring = record b { begin = k }; world = s.world }) xs)
                    (sym (begin_up_down b holds.shape)) holds)
            | inl (w, e, c, f) ↦
                rw (emplace_front, first, e)
                  (
                    sized d g w (b.size + 1) (v ∷ xs) _ shape c
                        (ap (λ k. live v ∷ (lives xs ++ raws k)) (omega arith))
                        (omega (arith, holds.count)) (omega arith),
                    refl,
                  )
          ]

    pub pop_back-Contains :
        (ys : List A) (y : A)
        → xs ≡ ys ++ y ∷ []
        → Gives (pop_back s) (λ r. Contains g r ys) (λ _. ⊥)
    unfolding pop_back
    pop_back-Contains ys y split =
        let n : length xs ≡ length ys + 1 = ap length split ∙ length-append ys (y ∷ []) in
        let last : at b (b.size - 1) ≡ slot b (length ys) =
          at-slot b (b.size - 1) holds.shape (omega (arith, holds.count, holds.fits))
          ∙ ap (slot b) (omega (arith, holds.count)) in
        let before : Content b g s.world (lives ys ++ live y ∷ raws free) =
          subst (Content b g s.world)
            (ap (λ l. lives l ++ raws free) split
              ∙ ap (λ l. l ++ raws free) (lives-append ys (y ∷ []))
              ∙ append_assoc (lives ys) (live y ∷ []) (raws free))
            holds.content in
        let gone =
          destroy-Content b holds.shape g s.world (lives ys) (live y) (raws free) (length ys)
            (sym (length-lives ys)) (omega (arith, holds.fits)) before y refl in
        rw (pop_back, last, gone.1)
          (sized b g gone.0 (b.size - 1) ys _ holds.shape gone.2
            (ap (λ k. lives ys ++ raws k)
              (let k : suc free ≡ b.max_size - length ys = omega (arith, holds.fits) in k))
            (omega (arith, holds.count)) (omega (arith, holds.fits)))

    pub pop_front-Contains :
        (y : A) (ys : List A)
        → xs ≡ y ∷ ys
        → Gives (pop_front s) (λ r. Contains g r ys × (r.ring.max_size ≡ b.max_size)) (λ _. ⊥)
    unfolding pop_front
    pop_front-Contains y ys split =
        let n : length xs ≡ length ys + 1 = ap length split ∙ omega arith in
        let first : b.buffer + b.begin ≡ slot b 0 = ground (arith, holds.shape.inside) in
        let before : Content b g s.world (live y ∷ (lives ys ++ raws free)) =
          subst (Content b g s.world) (ap (λ l. lives l ++ raws free) split) holds.content in
        let gone =
          destroy-Content b holds.shape g s.world [] (live y) (lives ys ++ raws free) 0 refl
            (omega (arith, holds.fits)) before y refl in
        let turned =
          Shows-step_up b holds.shape g gone.0 raw (lives ys ++ raws free)
            (omega (
              arith,
              length-append (lives ys) (raws {A = A} free),
              length-lives ys,
              length-raws A free,
              holds.fits,
            ))
            gone.2 in
        rw (pop_front, first, gone.1)
          (
            sized (step_up b) g gone.0 (b.size - 1) ys _ (Shape-step_up b holds.shape) turned
                (append_assoc (lives ys) (raws free) (raw ∷ [])
                  ∙ ap (λ l. lives ys ++ l) (replicate-append free 1 raw)
                  ∙ ap (λ k. lives ys ++ raws k) (omega (arith, holds.fits)))
                (omega (arith, holds.count)) (omega (arith, holds.fits)),
            refl,
          )
