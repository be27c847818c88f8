-- ===== src/CircularBuffer/Erase/Remove.antt =====
-- The removal of one element from a ring, as a removal from a list.
use seq.Prelude.{
  ℕ, suc, ◌+◌, ◌-◌, ◌/◌, ◌<◌, ◌≡◌, refl, ap, ap₂, sym, ◌∙◌, inl, inr, true, false, Bool-cases,
  arith, ltb, List, [], ◌∷◌, ◌++◌, append_assoc, length, length-append, replicate-append, subst,
}
use seq.Memory.{Cell, raw, live, World, lives, raws, Gives}
use seq.Memory.Steps.{length-lives, length-raws, lives-append}
use seq.CircularBuffer.{Ring, State, Element, at, step_up}
use seq.CircularBuffer.View.{Shape, slot, at-slot}
use seq.CircularBuffer.Turn.{Shape-step_up, Shows-step_up}
use seq.CircularBuffer.Cells.{
  Content, Contains, Shape-size, Content-size, sized, Vacant, Vacant-raw, Vacant-live, Becomes,
  destroy-Content,
}
use seq.CircularBuffer.Shift.Effect.{Leaves, close_right, close_left}
use seq.CircularBuffer.Erase.{vacate, discard, erase}

module _ {A : Type 0} (g : ℕ → Cell A) (el : Element A) where
  module _ (b : Ring) (shape : Shape b) (w : World A) (pre : List (Cell A)) (c : Cell A)
      (post : List (Cell A)) (i : ℕ) (e : i ≡ length pre) (inside : i < b.max_size)
      (content : Content b g w (pre ++ c ∷ post)) where
    vacate-Leaves :
        (x : A) → c ≡ live x → Leaves el b shape g (vacate el (slot b i) w) (λ d. pre ++ d ∷ post)
    unfolding vacate
    vacate-Leaves x is = elim (Bool-cases el.relocatable) [
      | inl r ↦
          let gone = destroy-Content b shape g w pre c post i e inside content x is in
          (gone.0, raw, rw (vacate, r) gone.1, gone.2, rw r refl)
      | inr r ↦ (w, c, rw (vacate, r) refl, content, rw r (x, is))
    ]

    discard-Becomes : Vacant el c → Becomes b g (discard el (slot b i) w) (pre ++ raw ∷ post) w.fuse
    unfolding discard
    discard-Becomes vacant = elim (Bool-cases el.relocatable) [
      | inl r ↦ (
        w,
        rw (discard, r) refl,
        subst (λ k. Content b g w (pre ++ k ∷ post)) (Vacant-raw el c r vacant) content,
        refl,
      )
      | inr r ↦
          let is = Vacant-live el c r vacant in
          let gone = destroy-Content b shape g w pre c post i e inside content is.0 is.1 in
          (gone.0, rw (discard, r) gone.1, gone.2, gone.3)
    ]

  module _ (s : State A) (xs : List A) (holds : Contains g s xs) (ys zs : List A) (x : A)
      (split : xs ≡ ys ++ x ∷ zs) where
    abbrev b : Ring
    b = s.ring

    abbrev free : ℕ
    free = b.max_size - length xs

    abbrev c : Ring
    c = record b { size = b.size - 1 }

    n : length xs ≡ length ys + 1 + length zs
    n = ap length split ∙ length-append ys (x ∷ zs) ∙ omega arith

    shape_c : Shape c
    shape_c = Shape-size b (b.size - 1) holds.shape

    before : Content c g s.world (lives ys ++ live x ∷ (lives zs ++ raws free))
    before = Content-size b (b.size - 1) g s.world _ (
        subst (Content b g s.world)
          (ap (λ l. lives l ++ raws free) split
            ∙ ap (λ l. l ++ raws free) (lives-append ys (x ∷ zs))
            ∙ append_assoc (lives ys) (lives (x ∷ zs)) (raws free))
          holds.content)

    vacated :
        Leaves el c shape_c g
          (vacate el (slot b (length ys)) s.world)
          (λ d. lives ys ++ d ∷ (lives zs ++ raws free))
    vacated =
        vacate-Leaves c shape_c s.world (lives ys) (live x) (lives zs ++ raws free) (length ys)
          (sym (length-lives ys)) (omega (arith, n, holds.fits)) before x refl

    here : at b (length ys) ≡ slot b (length ys)
    here = at-slot b (length ys) holds.shape (omega (arith, n, holds.fits))

    here_c : at c (length ys) ≡ slot c (length ys)
    here_c = at-slot c (length ys) shape_c (omega (arith, n, holds.fits))

    -- Without the element, and with one more free cell.
    remaining :
        lives ys ++ (lives zs ++ raw ∷ raws free)
        ≡ lives (ys ++ zs) ++ raws (b.max_size - length (ys ++ zs))
    remaining =
        sym (append_assoc (lives ys) (lives zs) (raw ∷ raws free))
        ∙ ap₂ (λ l k. l ++ raws k) (sym (lives-append ys zs))
            (let k : suc free ≡ b.max_size - length (ys ++ zs) =
                omega (arith, n, holds.fits, length-append ys zs) in
              k)

    abbrev Removed : State A → Type 0
    Removed r = Contains g r (ys ++ zs) × (r.ring.max_size ≡ b.max_size)

    erase_behind :
        ltb (b.size / 2) (length ys) ≡ true → Gives (erase el (length ys) s) Removed (λ _. ⊥)
    unfolding erase
    erase_behind back =
        let last : at c c.size ≡ slot c (length ys + length zs) =
          at-slot c c.size shape_c (omega (arith, n, holds.count, holds.fits))
          ∙ ap (slot c) (omega (arith, n, holds.count)) in
        let moved =
          close_right el c shape_c g ys zs vacated.1 (raws free) vacated.0
            (omega (arith, n, holds.fits)) vacated.4 vacated.3 in
        let gone =
          discard-Becomes c shape_c moved.0 (lives ys ++ lives zs) moved.1 (raws free)
            (length ys + length zs)
            (omega (arith, length-append (lives ys) (lives zs), length-lives ys, length-lives zs))
            (omega (arith, n, holds.fits))
            (subst (Content c g moved.0)
              (sym (append_assoc (lives ys) (lives zs) (moved.1 ∷ raws free))) moved.3)
            moved.4 in
        rw (erase, back, here, vacated.2, here_c, last, moved.2, gone.1)
          (
            sized b g gone.0 (b.size - 1) (ys ++ zs) _ holds.shape
                (Content-size c b.size g gone.0 _ gone.2)
                (append_assoc (lives ys) (lives zs) (raw ∷ raws free) ∙ remaining)
                (omega (arith, n, holds.count, length-append ys zs))
                (omega (arith, n, holds.fits, length-append ys zs)),
            refl,
          )

    erase_before :
        ltb (b.size / 2) (length ys) ≡ false → Gives (erase el (length ys) s) Removed (λ _. ⊥)
    unfolding erase
    erase_before front =
        let first : at c 0 ≡ slot c 0 = at-slot c 0 shape_c (omega arith) in
        let moved =
          close_left el c shape_c g ys vacated.1 (lives zs ++ raws free) vacated.0
            (omega (arith, n, holds.fits)) vacated.4 vacated.3 in
        let gone =
          discard-Becomes c shape_c moved.0 [] moved.1 (lives ys ++ (lives zs ++ raws free)) 0 refl
            (omega (arith, n, holds.fits)) moved.3 moved.4 in
        let turned =
          Shows-step_up c shape_c g gone.0 raw (lives ys ++ (lives zs ++ raws free))
            (omega (
              arith,
              length-append (lives ys) (lives zs ++ raws free),
              length-append (lives zs) (raws {A = A} free),
              length-lives ys,
              length-lives zs,
              length-raws A free,
              n,
              holds.fits,
            ))
            gone.2 in
        let end : (lives ys ++ (lives zs ++ raws free)) ++ raw ∷ []
            ≡ lives ys ++ (lives zs ++ raw ∷ raws free) =
          append_assoc (lives ys) (lives zs ++ raws free) (raw ∷ [])
          ∙ ap (λ l. lives ys ++ l)
              (append_assoc (lives zs) (raws free) (raw ∷ [])
                ∙ ap (λ l. lives zs ++ l)
                    (replicate-append free 1 raw
                      ∙ ap (λ k. raws k) (let k : free + 1 ≡ suc free = omega arith in k))) in
        rw (erase, front, here, vacated.2, here_c, first, moved.2, gone.1)
          (
            sized (step_up c) g gone.0 (b.size - 1) (ys ++ zs) _ (Shape-step_up c shape_c) turned
                (end ∙ remaining) (omega (arith, n, holds.count, length-append ys zs))
                (omega (arith, n, holds.fits, length-append ys zs)),
            refl,
          )

    -- On a ring that contains `ys`, `x` and `zs`, `erase` at the index behind `ys` neither throws
    -- nor faults, and leaves a ring of the same capacity that contains `ys` followed by `zs`.
    pub erase-Contains :
        Gives
          (erase el (length ys) s)
          (λ r. Contains g r (ys ++ zs) × (r.ring.max_size ≡ b.max_size))
          (λ _. ⊥)
    erase-Contains = elim (Bool-cases (ltb (b.size / 2) (length ys))) [
      | inl back ↦ erase_behind back
      | inr front ↦ erase_before front
    ]
