-- ===== src/Devector/Reserve.antt =====
-- The operations that give a devector the capacity asked for.
use seq.Prelude.{ℕ, ◌≤◌, ◌≡◌, inl, inr, List, length, arith, Bool-cases, leb, leb→le, ◌==◌}
use seq.Memory.{Cell, Traits, Gives, Gives-map}
use seq.Devector.{State, size, front_capacity, reallocate, reserve, shrink_to_fit}
use seq.Devector.Layout.{Holds, Fresh, Refused}
use seq.Devector.Reallocate.{reallocate-Holds}

module _ {A : Type 0} (g : ℕ → Cell A) (t : Traits) (p : ℕ) (s : State A) (xs : List A)
    (holds : Holds g s xs) where
  size-length : size s.vec ≡ length xs
  size-length = omega (arith, holds.ends)

  -- On a vector that holds `xs`, where the allocator answers a request for `n` cells with unused
  -- storage, `reserve` of `n` does not fault: it leaves a vector that holds `xs` with a capacity of
  -- at least `n`, or throws and leaves vector and memory as they were, which happens only where
  -- moving can throw and fewer constructions succeed than there are elements.
  pub reserve-Holds :
      (n : ℕ)
      → Fresh g s.vec p n
      → Gives (reserve t p n s) (λ r. Holds g r xs × (n ≤ r.vec.capacity)) (Refused t xs s)
  unfolding reserve
  reserve-Holds n fresh = elim (Bool-cases (leb n s.vec.capacity)) [
    | inl enough ↦ rw enough (holds, leb→le _ _ enough)
    | inr more ↦ rw more (
        Gives-map (reallocate t p n (front_capacity s.vec) s) _ _ _
          (reallocate-Holds g s p n xs holds fresh (front_capacity s.vec)
            (ground (arith, holds.starts, holds.ends, holds.fits)) t)
          (λ r h. (h.0, omega arith)))
  ]

  -- On a vector that holds `xs`, where the allocator answers a request for the size with unused
  -- storage, `shrink_to_fit` does not fault: it leaves a vector that holds `xs` with a capacity of
  -- its size, or throws and leaves vector and memory as they were, which happens only where moving
  -- can throw and fewer constructions succeed than there are elements.
  pub shrink_to_fit-Holds :
      Fresh g s.vec p (length xs)
      → Gives
          (shrink_to_fit t p s)
          (λ r. Holds g r xs × (r.vec.capacity ≡ length xs))
          (Refused t xs s)
  unfolding shrink_to_fit
  shrink_to_fit-Holds fresh = elim (Bool-cases (size s.vec == s.vec.capacity)) [
    | inl full ↦ rw full (holds, ground (arith, size-length))
    | inr more ↦
        rw (more, size-length)
          (Gives-map (reallocate t p (length xs) 0 s) _ _ _
            (reallocate-Holds g s p (length xs) xs holds fresh 0 (omega arith) t)
            (λ r h. (h.0, h.1)))
  ]
