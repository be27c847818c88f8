-- ===== src/CircularBuffer/Cells.antt =====
-- Steps on one cell of a ring, whose cells are a list.
use seq.Prelude.{
  ℕ, ◌-◌, ◌≤◌, ◌<◌, ◌≡◌, refl, ◌∙◌, ◌⊎◌, inl, inr, true, false, Bool-cases, arith, ◌==◌,
  if◌then◌else◌, List, ◌∷◌, ◌++◌, length, subst,
}
use seq.Memory.{
  Cell, raw, live, World, Outcome, ok, threw, put, overlay, lives, raws, construct_ptr, destroy_ptr,
}
use seq.Memory.Overlay.{overlay_at, put-overlay_at}
use seq.Memory.Steps.{destroy_live, construct_burning, burnt}
use seq.CircularBuffer.{Ring, State, Element, take_out, put_in}
use seq.CircularBuffer.View.{Shape, slot, nothing, Shows, Shows-cell, Shows-put}

-- The size is no part of the storage.
pub Shape-size : (b : Ring) (n : ℕ) → Shape b → Shape (record b { size = n })
Shape-size b n shape = record {
  bits = shape.bits;
  power = shape.power;
  mask = shape.mask;
  inside = shape.inside;
}

module _ {A : Type 0} where
  -- The cells of the ring, in the order of their indices.
  abbrev pub Content : Ring → (ℕ → Cell A) → World A → List (Cell A) → Type 0
  Content b g w cs = Shows b g w (overlay 0 cs nothing)

  -- The ring holds `xs`, and the rest of memory is `g`.
  pub record Contains (g : ℕ → Cell A) (s : State A) (xs : List A) : Type 0 where
    pub shape : Shape s.ring
    pub count : s.ring.size ≡ length xs
    pub fits : length xs ≤ s.ring.max_size
    pub content : Content s.ring g s.world (lives xs ++ raws (s.ring.max_size - length xs))

  pub Content-size :
      (b : Ring) (n : ℕ) (g : ℕ → Cell A) (w : World A) (cs : List (Cell A))
      → Content b g w cs
      → Content (record b { size = n }) g w cs
  Content-size b n g w cs k = record { cells = k.cells; rest = k.rest }

  pub sized :
      (b : Ring) (g : ℕ → Cell A) (w : World A) (n : ℕ) (xs : List A) (cs : List (Cell A))
      → Shape b
      → Content b g w cs
      → cs ≡ lives xs ++ raws (b.max_size - length xs)
      → n ≡ length xs
      → length xs ≤ b.max_size
      → Contains g (record { ring = record b { size = n }; world = w }) xs
  sized b g w n xs cs shape shows e c f = record {
    shape = Shape-size b n shape;
    count = c;
    fits = f;
    content = Content-size b n g w _ (subst (Content b g w) e shows);
  }

  -- The cell of an object that was moved out, or where one can be moved in.
  abbrev pub Vacant : Element A → Cell A → Type 0
  Vacant el c = if el.relocatable then (c ≡ raw) else ((d : A) × (c ≡ live d))

  pub Vacant-raw : (el : Element A) (c : Cell A) → el.relocatable ≡ true → Vacant el c → c ≡ raw
  Vacant-raw el c r e = subst (λ q. if q then (c ≡ raw) else ((d : A) × (c ≡ live d))) r e

  pub Vacant-live :
      (el : Element A) (c : Cell A) → el.relocatable ≡ false → Vacant el c → (d : A) × (c ≡ live d)
  Vacant-live el c r e = subst (λ q. if q then (c ≡ raw) else ((d : A) × (c ≡ live d))) r e

  -- Memory `w` becomes one with content `cs`, as many constructions left as in `v`.
  abbrev pub Becomes : Ring → (ℕ → Cell A) → Outcome (World A) → List (Cell A) → ℕ → Type 0
  Becomes b g o cs fuse = (w : World A) × (o ≡ ok w) × Content b g w cs × (w.fuse ≡ fuse)

  module _ (b : Ring) (shape : Shape b) (g : ℕ → Cell A) (w : World A) (pre : List (Cell A))
      (c : Cell A) (post : List (Cell A)) (i : ℕ) (at : i ≡ length pre) (inside : i < b.max_size)
      (shows : Content b g w (pre ++ c ∷ post)) where
    pub cell-slot : w.cell (slot b i) ≡ c
    cell-slot =
        Shows-cell b shape g w (overlay 0 (pre ++ c ∷ post) nothing) shows i inside
        ∙ overlay_at nothing 0 pre c post i (omega arith)

    pub Content-put :
        (fuse : ℕ) (d : Cell A)
        → Content b g (record { cell = put w.cell (slot b i) d; fuse = fuse }) (pre ++ d ∷ post)
    Content-put fuse d =
        subst (Shows b g (record { cell = put w.cell (slot b i) d; fuse = fuse }))
          (put-overlay_at nothing 0 pre c d post i (omega arith))
          (Shows-put b shape g w (overlay 0 (pre ++ c ∷ post) nothing) shows i inside fuse d)

    pub destroy-Content :
        (x : A) → c ≡ live x → Becomes b g (destroy_ptr (slot b i) w) (pre ++ raw ∷ post) w.fuse
    destroy-Content x e =
        (_, destroy_live (slot b i) x w (cell-slot ∙ e), Content-put w.fuse raw, refl)

    -- A construction succeeds, or throws at once.
    pub construct-Content :
        (x : A)
        → c ≡ raw
        → Becomes b g (construct_ptr false (slot b i) x w) (pre ++ live x ∷ post) (w.fuse - 1)
          ⊎ (construct_ptr false (slot b i) x w ≡ threw w)
    construct-Content x e =
        let made = construct_burning (slot b i) x w (cell-slot ∙ e) in
        elim (Bool-cases (w.fuse == 0)) [
          | inl stop ↦ inr (
              made
              ∙ (let k : (if w.fuse == 0
                        then threw w
                        else ok (burnt w (put w.cell (slot b i) (live x))))
                      ≡ threw w =
                    rw stop refl in
                  k))
          | inr more ↦ inl (
            _,
            made
                ∙ (let k : (if w.fuse == 0
                          then threw w
                          else ok (burnt w (put w.cell (slot b i) (live x))))
                        ≡ ok (burnt w (put w.cell (slot b i) (live x))) =
                      rw more refl in
                    k),
            Content-put (w.fuse - 1) (live x),
            refl,
          )
        ]

    pub take_out-Content :
        (el : Element A) (x : A)
        → c ≡ live x
        → (v : World A) × (d : Cell A) × (take_out el (slot b i) w ≡ ok (x, v))
          × Content b g v (pre ++ d ∷ post)
          × Vacant el d
    unfolding take_out
    take_out-Content el x e = (
      _,
      (if el.relocatable then raw else live (el.husk x)),
      (rw (take_out, cell-slot ∙ e) refl),
      Content-put w.fuse _,
      elim (Bool-cases el.relocatable) [ inl r ↦ rw r refl | inr r ↦ rw r (el.husk x, refl) ],
    )

    pub put_in-Content :
        (el : Element A) (x : A)
        → Vacant el c
        → Becomes b g (put_in el (slot b i) x w) (pre ++ live x ∷ post) w.fuse
    unfolding put_in
    put_in-Content el x e = (
      record { cell = put w.cell (slot b i) (live x); fuse = w.fuse },
      elim (Bool-cases el.relocatable) [
        | inl r ↦ rw (put_in, r, cell-slot ∙ Vacant-raw el c r e) refl
        | inr r ↦ let f = Vacant-live el c r e in rw (put_in, r, cell-slot ∙ f.1) refl
      ],
      Content-put w.fuse (live x),
      refl,
    )
