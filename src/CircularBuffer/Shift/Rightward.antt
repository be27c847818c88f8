-- ===== src/CircularBuffer/Shift/Rightward.antt =====
-- Moving right by stretches is moving one index after the other.
use seq.Prelude.{
  ℕ, zero, suc, ◌+◌, ◌-◌, ◌≤◌, ◌<◌, ◌≡◌, refl, ap, ap₂, sym, ◌∙◌, ◌⊎◌, inl, inr, fun_ext, true,
  false, Bool-cases, arith, ltb, ◌==◌,
}
use seq.Memory.{World, Outcome, ok, threw, fault, ◌>>=◌}
use seq.CircularBuffer.{Ring, Element, at}
use seq.CircularBuffer.View.{Shape, slot, at-slot}
use seq.CircularBuffer.Shift.{transfer, raise, raise_to, shift_right}

pub bind_ok : {S : Type 0} → (o : Outcome S) → (o >>= (λ s. ok s)) ≡ o
bind_ok (ok s) = refl
bind_ok (threw s) = refl
bind_ok fault = refl

pub bind_assoc :
    {S : Type 0}
    → (o : Outcome S) (f k : S → Outcome S) → (o >>= f >>= k) ≡ (o >>= (λ s. f s >>= k))
bind_assoc (ok s) f k = refl
bind_assoc (threw s) f k = refl
bind_assoc fault f k = refl

module _ {A : Type 0} (el : Element A) (b : Ring) (shape : Shape b) where
  -- Neighbours that are not at the two ends of the storage.
  raise-shift :
      (n i : ℕ)
      → n ≤ i
      → i < b.max_size
      → (b.begin + i < b.max_size) ⊎ (b.max_size ≤ b.begin + (i - n))
      → raise el n (slot b i) ≡ shift_right el b n i
  unfolding raise shift_right
  raise-shift zero i h k side = refl
  raise-shift (suc n) i h k side =
      let down : slot b i - 1 ≡ slot b (i - 1) = ground (arith, shape.inside) in
      fun_ext λ w.
        ap₂ (λ p f. transfer el (slot b i) p w >>= f) down
          (ap (raise el n) down ∙ raise-shift n (i - 1) (omega arith) (omega arith) (ground arith))
        ∙ ap₂ (λ p q. transfer el p q w >>= shift_right el b n (i - 1))
            (sym (at-slot b i shape (omega arith))) (sym (at-slot b (i - 1) shape (omega arith)))

  pub shift_right-add :
      (m n i : ℕ) (w : World A)
      → shift_right el b (m + n) i w ≡ (shift_right el b m i w >>= shift_right el b n (i - m))
  unfolding shift_right
  shift_right-add zero n i w = ap₂ (λ k j. shift_right el b k j w) (omega arith) (omega arith)
  shift_right-add (suc m) n i w =
      ap (λ k. shift_right el b k i w) (let k : suc m + n ≡ suc (m + n) = omega arith in k)
      ∙ ap (λ f. transfer el (at b i) (at b (i - 1)) w >>= f)
          (fun_ext λ v.
            shift_right-add m n (i - 1) v
            ∙ ap (λ j. shift_right el b m (i - 1) v >>= shift_right el b n j) (omega arith))
      ∙ sym (
          bind_assoc (transfer el (at b i) (at b (i - 1)) w) (shift_right el b m (i - 1))
            (shift_right el b n (i - suc m)))

  raise_straight :
      (ptr goal : ℕ) (w : World A)
      → ltb ptr goal ≡ false
      → raise_to el b ptr goal w ≡ raise el (ptr - goal) ptr w
  unfolding raise_to
  raise_straight ptr goal w e =
      rw (raise_to, e, (let z : (goal == goal) ≡ true = ground arith in z))
        (bind_ok (raise el (ptr - goal) ptr w))

  raise_around :
      (ptr goal : ℕ) (w : World A)
      → ltb ptr goal ≡ true
      → b.buffer < goal
      → raise_to el b ptr goal w ≡ (
          raise el (ptr - b.buffer) ptr w >>= (λ v.
            transfer el b.buffer (b.buffer + b.max_size1) v
            >>= raise el (b.buffer + b.max_size1 - goal) (b.buffer + b.max_size1)))
  unfolding raise_to
  raise_around ptr goal w e h =
      rw (raise_to, e, (let z : (b.buffer == goal) ≡ false = ground arith in z)) refl

  -- In a ring, the move in at most two stretches around one cell, from the cell of index `hi` down
  -- to the cell of index `lo`, has the outcome of the plain loop over the indices, for `lo` at most
  -- `hi` and `hi` less than the capacity.
  pub raise_to-shift :
      (lo hi : ℕ)
      → lo ≤ hi
      → hi < b.max_size
      → (w : World A) → raise_to el b (slot b hi) (slot b lo) w ≡ shift_right el b (hi - lo) hi w
  unfolding raise_to shift_right
  raise_to-shift lo hi h k w = elim (Bool-cases (ltb (slot b hi) (slot b lo))) [
    | inl around ↦
        let turned : (b.max_size ≤ b.begin + hi) × (b.begin + lo < b.max_size) =
          ground (arith, shape.inside) in
        let m = b.begin + hi - b.max_size in
        let n = b.max_size1 - (b.begin + lo) in
        let zero_at : slot b (hi - m) ≡ b.buffer = ground (arith, turned, shape.inside) in
        let last_at : slot b (hi - m - 1) ≡ b.buffer + b.max_size1 =
          ground (arith, turned, shape.inside, shape.mask) in
        raise_around (slot b hi) (slot b lo) w around (ground (arith, turned))
        ∙ ap₂
            (λ p q. raise el p (slot b hi) w >>= (λ v.
              transfer el b.buffer (b.buffer + b.max_size1) v
              >>= raise el q (b.buffer + b.max_size1)))
            (let z : slot b hi - b.buffer ≡ m = ground (arith, turned) in z)
            (let z : b.buffer + b.max_size1 - slot b lo ≡ n = ground (arith, turned) in z)
        ∙ ap
            (λ f. f w >>= (λ v.
              transfer el b.buffer (b.buffer + b.max_size1) v
              >>= raise el n (b.buffer + b.max_size1)))
            (raise-shift m hi (omega (arith, shape.inside)) k
              (inr (omega (arith, turned, shape.inside))))
        ∙ ap₂ (λ p q. shift_right el b m hi w >>= (λ v. transfer el p q v >>= raise el n q))
            (sym zero_at) (sym last_at)
        ∙ ap
            (λ f.
              shift_right el b m hi w
              >>= (λ v. transfer el (slot b (hi - m)) (slot b (hi - m - 1)) v >>= f))
            (raise-shift n (hi - m - 1) (omega (arith, turned, shape.inside, shape.mask))
              (omega arith) (inl (omega (arith, turned, shape.inside, shape.mask))))
        ∙ ap₂
            (λ p q.
              shift_right el b m hi w
              >>= (λ v. transfer el p q v >>= shift_right el b n (hi - m - 1)))
            (sym (at-slot b (hi - m) shape (omega arith)))
            (sym (at-slot b (hi - m - 1) shape (omega arith)))
        ∙ sym (shift_right-add m (suc n) hi w)
        ∙ ap (λ j. shift_right el b j hi w) (omega (arith, turned, shape.inside, shape.mask))
    | inr straight ↦
        raise_straight (slot b hi) (slot b lo) w straight
        ∙ ap (λ j. raise el j (slot b hi) w)
            (let z : slot b hi - slot b lo ≡ hi - lo = ground (arith, shape.inside) in z)
        ∙ (λ j. raise-shift (hi - lo) hi (omega arith) k (ground (arith, shape.inside)) j w)
  ]
