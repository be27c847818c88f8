-- ===== src/CircularBuffer/Insert/Emplace.antt =====
-- The insertion into a ring that is not full, as an insertion into a list.
use Prim.Native.Nat.{bit_and}
use seq.Prelude.{
  ℕ, ◌+◌, ◌-◌, ◌/◌, ◌<◌, ◌≡◌, refl, ap, sym, ◌∙◌, ◌⊎◌, inl, inr, Bool-cases, arith, ltb, ◌==◌,
  if◌then◌else◌, List, [], ◌∷◌, ◌++◌, append_assoc, length, length-append, subst,
}
use seq.Memory.{Cell, raw, live, World, Outcome, threw, ◌>>=◌, lives, raws, Gives, Gives-bimap}
use seq.Memory.Steps.{length-lives, lives-append}
use seq.CircularBuffer.{Ring, State, Element, at, step_down}
use seq.CircularBuffer.View.{Shape, slot, at-slot, wrap_ring}
use seq.CircularBuffer.Turn.{Shape-step_down}
use seq.CircularBuffer.Cells.{Content, Contains, Shape-size, Content-size, construct-Content}
use seq.CircularBuffer.Ends.{raws-suc, front_cells}
use seq.CircularBuffer.Shift.Effect.{Leaves, open_right, open_left}
use seq.CircularBuffer.Insert.{grow_object, move_right, move_left, emplace, place}
use seq.CircularBuffer.Insert.Place.{Kept, Opens, Opens-place}

module _ {A : Type 0} (g : ℕ → Cell A) (el : Element A) where
  -- A free cell becomes vacant, or the construction in it throws.
  grow_object-Leaves :
      (b : Ring) (shape : Shape b) (w : World A) (pre post : List (Cell A)) (i : ℕ)
      → i ≡ length pre
      → i < b.max_size
      → Content b g w (pre ++ raw ∷ post)
      → Leaves el b shape g (grow_object el (slot b i) w) (λ d. pre ++ d ∷ post)
        ⊎ (grow_object el (slot b i) w ≡ threw w)
  unfolding grow_object
  grow_object-Leaves b shape w pre post i e h content = elim (Bool-cases el.relocatable) [
    | inl r ↦ inl (w, raw, rw (grow_object, r) refl, content, rw r refl)
    | inr r ↦ elim (construct-Content b shape g w pre raw post i e h content el.blank refl) [
      | inl (v, made, c, f) ↦
          inl (v, live el.blank, rw (grow_object, r) made, c, rw r (el.blank, refl))
      | inr stop ↦ inr (rw (grow_object, r) stop)
    ]
  ]

  module _ (s : State A) (ys zs : List A) (holds : Contains g s (ys ++ zs))
      (room : length (ys ++ zs) < s.ring.max_size) where
    abbrev b : Ring
    b = s.ring

    abbrev free : ℕ
    free = b.max_size - (length ys + 1 + length zs)

    n : length (ys ++ zs) ≡ length ys + length zs
    n = length-append ys zs

    less : b.max_size - length (ys ++ zs) - 1 ≡ free
    less = omega (arith, n)

    -- Either the gap, or an exception that changes nothing.
    abbrev OpensOrKeeps : Outcome (State A) → Type 0
    OpensOrKeeps o = Opens g el o ys zs ⊎ (o ≡ threw s)

    move_right-Opens : OpensOrKeeps (move_right el (length ys) s)
    unfolding move_right
    move_right-Opens =
        let c = record b { size = b.size + 1 } in
        let shape = Shape-size b (b.size + 1) holds.shape in
        let last : at b b.size ≡ slot b (length (ys ++ zs)) =
          at-slot b b.size holds.shape (omega (arith, holds.count, holds.fits))
          ∙ ap (slot b) holds.count in
        let before : Content b g s.world (lives (ys ++ zs) ++ raw ∷ raws free) =
          subst (Content b g s.world)
            (ap (λ l. lives (ys ++ zs) ++ l)
              (raws-suc g b.max_size (length (ys ++ zs)) room ∙ ap (λ k. raw ∷ raws k) less))
            holds.content in
        elim (grow_object-Leaves b holds.shape s.world (lives (ys ++ zs)) (raws free)
          (length (ys ++ zs)) (sym (length-lives (ys ++ zs))) room before) [
            | inr stop ↦ inr (rw (move_right, last, stop) refl)
            | inl (w, d, grown, content, vacant) ↦
                let split : lives (ys ++ zs) ++ d ∷ raws free
                    ≡ lives ys ++ (lives zs ++ d ∷ raws free) =
                  ap (λ l. l ++ d ∷ raws free) (lives-append ys zs)
                  ∙ append_assoc (lives ys) (lives zs) (d ∷ raws free) in
                let moved =
                  open_right el c shape g ys zs d (raws free) w (omega (arith, n)) vacant
                    (Content-size b (b.size + 1) g w _ (subst (Content b g w) split content)) in
                let from : at c (c.size - 1) ≡ slot c (length ys + length zs) =
                  at-slot c (c.size - 1) shape (omega (arith, holds.count, holds.fits))
                  ∙ ap (slot c) (omega (arith, holds.count, n)) in
                let to : at c (length ys) ≡ slot c (length ys) =
                  at-slot c (length ys) shape (omega (arith, n)) in
                inl (record {
                  after = record { ring = c; world = moved.0 };
                  succeeds = rw (move_right, last, grown, from, to, moved.2) refl;
                  gap = moved.1;
                  shape = shape;
                  count = omega (arith, holds.count, n);
                  fits = omega (arith, n);
                  vacant = moved.4;
                  content = moved.3;
                })
          ]

    -- The cell that `move_left` takes in front.
    front_slot :
        (if b.begin == 0 then at b b.max_size1 else b.buffer + bit_and (b.begin - 1) b.max_size1)
        ≡ slot (step_down b) 0
    front_slot = ground (
      arith,
      at-slot b b.max_size1 holds.shape,
      wrap_ring b (b.begin - 1) holds.shape,
      holds.shape.inside,
      holds.shape.mask,
    )

    move_left-Opens : OpensOrKeeps (move_left el (length ys) s)
    unfolding move_left
    move_left-Opens =
        let u = step_down b in
        let under = Shape-step_down b holds.shape in
        let c = record u { size = b.size + 1 } in
        let shape = Shape-size u (b.size + 1) under in
        let before : Content u g s.world (raw ∷ (lives (ys ++ zs) ++ raws free)) =
          subst (λ k. Content u g s.world (raw ∷ (lives (ys ++ zs) ++ raws k))) less
            (front_cells g s (ys ++ zs) holds room) in
        elim (grow_object-Leaves u under s.world [] (lives (ys ++ zs) ++ raws free) 0 refl
          (omega arith) before) [
            | inr stop ↦ inr (rw (move_left, front_slot, stop) refl)
            | inl (w, d, grown, content, vacant) ↦
                let split : d ∷ (lives (ys ++ zs) ++ raws free)
                    ≡ d ∷ (lives ys ++ (lives zs ++ raws free)) =
                  ap (λ l. d ∷ (l ++ raws free)) (lives-append ys zs)
                  ∙ ap (λ l. d ∷ l) (append_assoc (lives ys) (lives zs) (raws free)) in
                let moved =
                  open_left el c shape g ys d (lives zs ++ raws free) w (omega (arith, n)) vacant (
                    Content-size u (b.size + 1) g w (d ∷ (lives ys ++ (lives zs ++ raws free)))
                      (subst (Content u g w) split content)) in
                let from : at c 0 ≡ slot c 0 = at-slot c 0 shape (omega arith) in
                let to : c.buffer + bit_and (c.begin + (length ys + 1) - 1) c.max_size1
                    ≡ slot c (length ys) =
                  ground
                    (arith, wrap_ring c (c.begin + (length ys + 1) - 1) shape, shape.inside, n) in
                inl (record {
                  after = record { ring = c; world = moved.0 };
                  succeeds = rw (move_left, front_slot, grown, from, to, moved.2) refl;
                  gap = moved.1;
                  shape = shape;
                  count = omega (arith, holds.count, n);
                  fits = omega (arith, n);
                  vacant = moved.4;
                  content = moved.3;
                })
          ]

    finish_emplace :
        (v : A) (o : Outcome (State A))
        → OpensOrKeeps o
        → Gives
            (o >>= place el (length ys) v)
            (λ r. Contains g r (ys ++ v ∷ zs))
            (λ r. (Contains g r (ys ++ zs)) ⊎ Kept g el ys zs r)
    finish_emplace v o (inl opened) =
        Gives-bimap (o >>= place el (length ys) v) _ _ _ _
          (Opens-place g el o ys zs (length ys) v opened refl) (λ r h. h) (λ r h. inr h)
    finish_emplace v o (inr stop) = rw stop (inl holds)

    -- On a ring that contains `ys` followed by `zs` and is not full, `emplace` of `v` at the index
    -- behind `ys` does not fault: it leaves a ring that contains `ys`, `v` and `zs`, or throws and
    -- leaves one that contains what it did, or only `ys` where the type is relocatable, or `ys`,
    -- some value and `zs` where it is not.
    pub emplace-Contains :
        (v : A)
        → Gives
            (emplace el (length ys) v s)
            (λ r. Contains g r (ys ++ v ∷ zs))
            (λ r. (Contains g r (ys ++ zs)) ⊎ Kept g el ys zs r)
    unfolding emplace
    emplace-Contains v = elim (Bool-cases (ltb (b.size / 2) (length ys))) [
      | inl back ↦
          rw (emplace, back) (finish_emplace v (move_right el (length ys) s) move_right-Opens)
      | inr front ↦
          rw (emplace, front) (finish_emplace v (move_left el (length ys) s) move_left-Opens)
    ]
