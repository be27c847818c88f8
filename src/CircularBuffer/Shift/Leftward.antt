-- ===== src/CircularBuffer/Shift/Leftward.antt =====
-- Moving left by stretches is moving one index after the other.
use seq.Prelude.{
  ℕ, zero, suc, ◌+◌, ◌-◌, ◌≤◌, ◌<◌, ◌≡◌, refl, ap, ap₂, sym, ◌∙◌, ◌⊎◌, inl, inr, fun_ext, true,
  false, Bool-cases, arith, ltb, ◌==◌,
}
use seq.Memory.{World, ◌>>=◌}
use seq.CircularBuffer.{Ring, Element, at}
use seq.CircularBuffer.View.{Shape, slot, at-slot}
use seq.CircularBuffer.Shift.{transfer, lower, lower_to, shift_left}
use seq.CircularBuffer.Shift.Rightward.{bind_ok, bind_assoc}

module _ {A : Type 0} (el : Element A) (b : Ring) (shape : Shape b) where
  -- Neighbours that are not at the two ends of the storage.
  lower-shift :
      (n i : ℕ)
      → i + n < b.max_size
      → (b.begin + (i + n) < b.max_size) ⊎ (b.max_size ≤ b.begin + i)
      → lower el n (slot b i) ≡ shift_left el b n i
  unfolding lower shift_left
  lower-shift zero i k side = refl
  lower-shift (suc n) i k side =
      let up : slot b i + 1 ≡ slot b (i + 1) = ground (arith, shape.inside) in
      fun_ext λ w.
        ap₂ (λ p f. transfer el (slot b i) p w >>= f) up
          (ap (lower el n) up ∙ lower-shift n (i + 1) (omega arith) (ground arith))
        ∙ ap₂ (λ p q. transfer el p q w >>= shift_left el b n (i + 1))
            (sym (at-slot b i shape (omega arith))) (sym (at-slot b (i + 1) shape (omega arith)))

  shift_left-add :
      (m n i : ℕ) (w : World A)
      → shift_left el b (m + n) i w ≡ (shift_left el b m i w >>= shift_left el b n (i + m))
  unfolding shift_left
  shift_left-add zero n i w = ap₂ (λ k j. shift_left el b k j w) (omega arith) (omega arith)
  shift_left-add (suc m) n i w =
      ap (λ k. shift_left el b k i w) (let k : suc m + n ≡ suc (m + n) = omega arith in k)
      ∙ ap (λ f. transfer el (at b i) (at b (i + 1)) w >>= f)
          (fun_ext λ v.
            shift_left-add m n (i + 1) v
            ∙ ap (λ j. shift_left el b m (i + 1) v >>= shift_left el b n j) (omega arith))
      ∙ sym (
          bind_assoc (transfer el (at b i) (at b (i + 1)) w) (shift_left el b m (i + 1))
            (shift_left el b n (i + suc m)))

  lower_straight :
      (ptr goal : ℕ) (w : World A)
      → ltb goal ptr ≡ false
      → lower_to el b ptr goal w ≡ lower el (goal - ptr) ptr w
  unfolding lower_to
  lower_straight ptr goal w e =
      rw (lower_to, e, (let z : (goal == goal) ≡ true = ground arith in z))
        (bind_ok (lower el (goal - ptr) ptr w))

  lower_around :
      (ptr goal : ℕ) (w : World A)
      → ltb goal ptr ≡ true
      → goal < b.buffer + b.max_size1
      → lower_to el b ptr goal w ≡ (
          lower el (b.buffer + b.max_size1 - ptr) ptr w >>= (λ v.
            transfer el (b.buffer + b.max_size1) b.buffer v
            >>= lower el (goal - b.buffer) b.buffer))
  unfolding lower_to
  lower_around ptr goal w e h =
      rw (lower_to, e, (let z : (b.buffer + b.max_size1 == goal) ≡ false = ground arith in z)) refl

  pub lower_to-shift :
      (lo hi : ℕ)
      → lo ≤ hi
      → hi < b.max_size
      → (w : World A) → lower_to el b (slot b lo) (slot b hi) w ≡ shift_left el b (hi - lo) lo w
  unfolding lower_to shift_left
  lower_to-shift lo hi h k w = elim (Bool-cases (ltb (slot b hi) (slot b lo))) [
    | inl around ↦
        let turned : (b.max_size ≤ b.begin + hi) × (b.begin + lo < b.max_size) =
          ground (arith, shape.inside) in
        let m = b.max_size1 - (b.begin + lo) in
        let n = b.begin + hi - b.max_size in
        let last_at : slot b (lo + m) ≡ b.buffer + b.max_size1 =
          ground (arith, turned, shape.inside, shape.mask) in
        let zero_at : slot b (lo + m + 1) ≡ b.buffer =
          ground (arith, turned, shape.inside, shape.mask) in
        lower_around (slot b lo) (slot b hi) w around
          (ground (arith, turned, shape.inside, shape.mask))
        ∙ ap₂
            (λ p q.
              lower el p (slot b lo) w
              >>= (λ v. transfer el (b.buffer + b.max_size1) b.buffer v >>= lower el q b.buffer))
            (let z : b.buffer + b.max_size1 - slot b lo ≡ m = ground (arith, turned) in z)
            (let z : slot b hi - b.buffer ≡ n = ground (arith, turned) in z)
        ∙ ap
            (λ f.
              f w
              >>= (λ v. transfer el (b.buffer + b.max_size1) b.buffer v >>= lower el n b.buffer))
            (lower-shift m lo (omega (arith, turned, shape.inside, shape.mask))
              (inl (omega (arith, turned, shape.inside, shape.mask))))
        ∙ ap₂ (λ p q. shift_left el b m lo w >>= (λ v. transfer el p q v >>= lower el n q))
            (sym last_at) (sym zero_at)
        ∙ ap
            (λ f.
              shift_left el b m lo w
              >>= (λ v. transfer el (slot b (lo + m)) (slot b (lo + m + 1)) v >>= f))
            (lower-shift n (lo + m + 1) (omega (arith, turned, shape.inside, shape.mask))
              (inr (omega (arith, turned, shape.inside, shape.mask))))
        ∙ ap₂
            (λ p q.
              shift_left el b m lo w
              >>= (λ v. transfer el p q v >>= shift_left el b n (lo + m + 1)))
            (sym (at-slot b (lo + m) shape (omega (arith, turned, shape.inside, shape.mask))))
            (sym (at-slot b (lo + m + 1) shape (omega (arith, turned, shape.inside, shape.mask))))
        ∙ sym (shift_left-add m (suc n) lo w)
        ∙ ap (λ j. shift_left el b j lo w) (omega (arith, turned, shape.inside, shape.mask))
    | inr straight ↦
        lower_straight (slot b lo) (slot b hi) w straight
        ∙ ap (λ j. lower el j (slot b lo) w)
            (let z : slot b hi - slot b lo ≡ hi - lo = ground (arith, shape.inside) in z)
        ∙ (λ j. lower-shift (hi - lo) lo (omega arith) (ground (arith, shape.inside)) j w)
  ]
