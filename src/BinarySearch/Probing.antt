-- ===== src/BinarySearch/Probing.antt =====
-- The search that halves twice and then probes finds the same bound.
use seq.Prelude.{
  ℕ, zero, suc, ◌+◌, ◌-◌, ◌/◌, ◌≤◌, ◌<◌, ◌≡◌, refl, inl, inr, Bool, false, Bool-cases, Option, List,
  length, get_elem?-lt, arith, ltb,
}
use seq.BinarySearch.{probing, halve, halving_twice, lower_bound_arithmetic}
use seq.BinarySearch.Bound.{
  Partitioned, Within, Within-all, Within-right, Within-left, Finds, Within-move,
}

module _ {A : Type 0} (le : A → Bool) (xs : List A) (part : Partitioned le xs) where
  probing-Finds :
      (fuel low size : ℕ)
      → size ≤ low + fuel
      → Within le xs low size
      → Finds le xs (probing fuel le xs low size)
  unfolding probing
  probing-Finds zero low size h w = (
    low,
    (let z : ltb low size ≡ false = ground arith in rw z refl),
    Within-move le xs low size low (omega (arith, w.order)) w,
  )
  probing-Finds (suc fuel) low size h w = elim (Bool-cases (ltb low size)) [
    | inr done ↦ rw done (low, refl, Within-move le xs low size low (ground (arith, w.order)) w)
    | inl more ↦
        let lt : low < size = ground arith in
        let found = get_elem?-lt xs low (omega (arith, w.fits)) in
        elim (Bool-cases (le (found.0))) [
          | inl before ↦
              rw (probing, more, found.1, before)
                (probing-Finds fuel (low + 1) size (omega arith) (
                  Within-right le xs part low size w low found.0 found.1 (low + 1) before
                    (omega arith) (omega arith)))
          | inr behind ↦
              rw (probing, more, found.1, behind)
                (
                  low,
                  refl,
                  Within-left le xs part low size w low found.0 found.1 low behind (omega arith)
                      (omega arith) (omega arith),
                )
        ]
  ]

  probing_all :
      (low size : ℕ)
      → Within le xs low (low + size)
      → Finds le xs (probing size le xs low (size + low))
  probing_all low size w =
      probing-Finds size low (size + low) (omega arith)
        (Within-move le xs low (low + size) (size + low) (omega arith) w)

  -- A step of halving, and what is done next.
  halve-Finds :
      (next : ℕ → ℕ → Option ℕ) (low size : ℕ)
      → 0 < size
      → Within le xs low (low + size)
      → ((l : ℕ) → Within le xs l (l + size / 2) → Finds le xs (next l (size / 2)))
      → Finds le xs (halve le xs next low size)
  unfolding halve
  halve-Finds next low size h w f =
      let half = size / 2 in
      let found = get_elem?-lt xs (low + half) (omega (arith, w.fits)) in
      elim (Bool-cases (le (found.0))) [
        | inl before ↦
            rw (halve, found.1, before)
              (f (low + size - half) (
                Within-move le xs (low + size - half) (low + size) (low + size - half + half)
                  (omega arith)
                  (Within-right le xs part low (low + size) w (low + half) found.0 found.1
                    (low + size - half) before (omega arith) (omega arith))))
        | inr behind ↦
            rw (halve, found.1, behind)
              (f low (
                Within-left le xs part low (low + size) w (low + half) found.0 found.1 (low + half)
                  behind (omega arith) (omega arith) (omega arith)))
      ]

  halving_twice-Finds :
      (end_of_probe fuel low size : ℕ)
      → 1 ≤ end_of_probe
      → size ≤ fuel
      → Within le xs low (low + size)
      → Finds le xs (halving_twice end_of_probe fuel le xs low size)
  unfolding halving_twice
  halving_twice-Finds n zero low size k h w =
      rw (let z : ltb n size ≡ false = ground arith in z) (probing_all low size w)
  halving_twice-Finds n (suc fuel) low size k h w = elim (Bool-cases (ltb n size)) [
    | inr small ↦ rw (halving_twice, small) (probing_all low size w)
    | inl large ↦
        rw (halving_twice, large)
          (halve-Finds (halve le xs (halving_twice n fuel le xs)) low size (ground arith) w (λ l w'.
            halve-Finds (halving_twice n fuel le xs) l (size / 2) (ground arith) w'
              (λ l' w''. halving_twice-Finds n fuel l' (size / 2 / 2) k (omega arith) w'')))
  ]

  -- On a list in which the elements that satisfy `le` stand before the others, with `end_of_probe`
  -- at least 1, the `lower_bound` of arithmetic keys, which halves twice a round and then probes,
  -- returns, reads inside the list only, and gives the index before which all elements satisfy `le`
  -- and from which on none does.
  pub lower_bound_arithmetic-Finds :
      (end_of_probe : ℕ)
      → 1 ≤ end_of_probe
      → Finds le xs (lower_bound_arithmetic end_of_probe le xs)
  lower_bound_arithmetic-Finds n k =
      halving_twice-Finds n (length xs) 0 (length xs) k (omega arith)
        (Within-move le xs 0 (length xs) (0 + length xs) (omega arith) (Within-all le xs))
