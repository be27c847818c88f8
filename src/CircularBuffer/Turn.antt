-- ===== src/CircularBuffer/Turn.antt =====
-- A ring that begins one cell later or earlier.
use seq.Prelude.{
  ℕ, ◌+◌, ◌-◌, ◌<◌, ◌≡◌, refl, ap, sym, ◌∙◌, inl, inr, fun_ext, Bool-cases, arith, ltb, ◌==◌,
  if◌then◌else◌, List, [], ◌∷◌, ◌++◌, length, get_or, get_or-append_left, length-append,
}
use seq.Memory.{Cell, unmapped, World, overlay}
use seq.Memory.Overlay.{get_or-cons, overlay_at, overlay_outside}
use seq.CircularBuffer.{Ring, step_down, step_up}
use seq.CircularBuffer.View.{Shape, step_up_begin, slot, nothing, view, Shows, Shows-cell}

module _ (b : Ring) (shape : Shape b) where
  pub Shape-step_up : Shape (step_up b)
  Shape-step_up = record {
    bits = shape.bits;
    power = shape.power;
    mask = shape.mask;
    inside = ground (arith, step_up_begin b shape, shape.inside);
  }

  pub Shape-step_down : Shape (step_down b)
  Shape-step_down = record {
    bits = shape.bits;
    power = shape.power;
    mask = shape.mask;
    inside = ground (arith, shape.inside, shape.mask);
  }

  slot-step_up :
      (j : ℕ)
      → j < b.max_size
      → slot (step_up b) j ≡ slot b (if ltb (j + 1) b.max_size then j + 1 else 0)
  slot-step_up j h = ground (arith, step_up_begin b shape, shape.inside)

  slot-step_down :
      (j : ℕ)
      → j < b.max_size
      → slot (step_down b) j ≡ slot b (if j == 0 then b.max_size1 else j - 1)
  slot-step_down j h = ground (arith, shape.inside, shape.mask)

  -- Up and down again.
  pub begin_up_down : (step_up (step_down b)).begin ≡ b.begin
  begin_up_down =
      ground (arith, step_up_begin (step_down b) Shape-step_down, shape.inside, shape.mask)

  module _ {A : Type 0} (g : ℕ → Cell A) (w : World A) (x : Cell A) (cs : List (Cell A))
      (full : length cs + 1 ≡ b.max_size) where
    shown_in :
        (i : ℕ)
        → i < b.max_size
        → (h : ℕ → Cell A) → Shows b g w h
        → (b' : Ring) (j : ℕ) → b'.max_size ≡ b.max_size
        → j < b.max_size
        → slot b' j ≡ slot b i
        → view b' w.cell j ≡ h i
    shown_in i inside h s b' j same k e =
        let first : view b' w.cell j ≡ w.cell (slot b' j) = ground arith in
        first ∙ ap w.cell e ∙ Shows-cell b shape g w h s i inside

    pub Shows-step_up :
        Shows b g w (overlay 0 (x ∷ cs) nothing)
        → Shows (step_up b) g w (overlay 0 (cs ++ x ∷ []) nothing)
    Shows-step_up s = record {
      cells = fun_ext λ j. elim (Bool-cases (ltb (j + 1) b.max_size)) [
        | inl front ↦
            shown_in (j + 1) (ground arith) (overlay 0 (x ∷ cs) nothing) s (step_up b) j refl
              (ground arith) (ground (arith, slot-step_up j))
            ∙ ground (
              arith,
              get_or-cons x unmapped cs (j + 1),
              get_or-append_left cs (x ∷ []) j unmapped,
              ap (λ k. get_or cs k unmapped) (let z : j + 1 - 1 ≡ j = omega arith in z),
            )
        | inr back ↦ elim (Bool-cases (ltb j b.max_size)) [
          | inl last ↦
              shown_in 0 (ground arith) (overlay 0 (x ∷ cs) nothing) s (step_up b) j refl
                (ground arith) (ground (arith, slot-step_up j))
              ∙ sym (overlay_at nothing 0 cs x [] j (ground arith))
          | inr out ↦
              ground (arith, overlay_outside nothing 0 (cs ++ x ∷ []) j, length-append cs (x ∷ []))
        ]
      ];
      rest = s.rest;
    }

    pub Shows-step_down :
        Shows b g w (overlay 0 (cs ++ x ∷ []) nothing)
        → Shows (step_down b) g w (overlay 0 (x ∷ cs) nothing)
    Shows-step_down s = record {
      cells = fun_ext λ j. elim (Bool-cases (j == 0)) [
        | inl first ↦
            shown_in b.max_size1 (omega (arith, shape.mask)) (overlay 0 (cs ++ x ∷ []) nothing) s
              (step_down b) j refl (ground (arith, shape.mask))
              (ground (arith, slot-step_down j, shape.mask))
            ∙ overlay_at nothing 0 cs x [] b.max_size1 (omega (arith, shape.mask))
            ∙ sym (overlay_at nothing 0 [] x cs j (ground arith))
        | inr later ↦ elim (Bool-cases (ltb j b.max_size)) [
          | inl inside ↦
              shown_in (j - 1) (ground arith) (overlay 0 (cs ++ x ∷ []) nothing) s (step_down b) j
                refl (ground arith) (ground (arith, slot-step_down j))
              ∙ ground (
                arith,
                get_or-cons x unmapped cs j,
                get_or-append_left cs (x ∷ []) (j - 1) unmapped,
              )
          | inr out ↦ ground (arith, overlay_outside nothing 0 (x ∷ cs) j)
        ]
      ];
      rest = s.rest;
    }
