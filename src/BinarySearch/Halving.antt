-- ===== src/BinarySearch/Halving.antt =====
-- The search by halving finds the bound.
use seq.Prelude.{
  ℕ, zero, suc, ◌+◌, ◌-◌, ◌/◌, ◌≤◌, ◌<◌, ◌≡◌, refl, inl, inr, Bool, true, Bool-cases, List, length,
  get_elem?-lt, arith, ◌==◌,
}
use seq.BinarySearch.{halving, lower_bound}
use seq.BinarySearch.Bound.{
  Partitioned, Within, Within-all, Within-right, Within-left, Finds, Within-move,
}

module _ {A : Type 0} (le : A → Bool) (xs : List A) (part : Partitioned le xs) where
  halving-Finds :
      (fuel p count : ℕ)
      → count ≤ fuel
      → Within le xs p (p + count)
      → Finds le xs (halving fuel le xs p count)
  unfolding halving
  halving-Finds zero p count h w = (
    p,
    (let z : (count == 0) ≡ true = ground arith in rw z refl),
    Within-move le xs p (p + count) p (omega arith) w,
  )
  halving-Finds (suc fuel) p count h w = elim (Bool-cases (count == 0)) [
    | inl done ↦ rw done (p, refl, Within-move le xs p (p + count) p (ground arith) w)
    | inr more ↦
        let half = count / 2 in
        let lt : half < count = ground arith in
        let found = get_elem?-lt xs (p + half) (omega (arith, w.fits)) in
        elim (Bool-cases (le (found.0))) [
          | inl before ↦
              rw (halving, more, found.1, before)
                (halving-Finds fuel (p + half + 1) (count - (half + 1)) (omega arith) (
                  Within-move le xs (p + half + 1) (p + count) (p + half + 1 + (count - (half + 1)))
                    (omega arith)
                    (Within-right le xs part p (p + count) w (p + half) found.0 found.1
                      (p + half + 1) before (omega arith) (omega arith))))
          | inr behind ↦
              rw (halving, more, found.1, behind)
                (halving-Finds fuel p half (omega arith) (
                  Within-left le xs part p (p + count) w (p + half) found.0 found.1 (p + half)
                    behind (omega arith) (omega arith) (omega arith)))
        ]
  ]

  -- On a list in which the elements that satisfy `le` stand before the others, `lower_bound` with
  -- only a test returns, reads inside the list only, and gives the index before which all elements
  -- satisfy `le` and from which on none does.
  pub lower_bound-Finds : Finds le xs (lower_bound le xs)
  lower_bound-Finds =
      halving-Finds (length xs) 0 (length xs) (omega arith)
        (Within-move le xs 0 (length xs) (0 + length xs) (omega arith) (Within-all le xs))
