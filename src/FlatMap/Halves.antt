-- ===== src/FlatMap/Halves.antt =====
-- The search in the half of a bucket's ring.
use Prim.Native.Nat.{bit_and}
use native.Mathlib.Nat.{mod-eq_of_lt, mod-eq-sub-mod}
use seq.Prelude.{
  ℕ, ◌+◌, ◌-◌, ◌%◌, ◌^◌, ◌≤◌, ◌<◌, ◌≡◌, refl, ap, sym, ◌∙◌, subst, inl, inr, Bool, true, false, not,
  ◌&&◌, Bool-cases, some, List, ◌++◌, length, length-drop, length-take_le, take, drop,
  take-append-drop, take-length_le, get_elem?, get_elem?-lt, get_elem?-append_left,
  get_elem?-append_right, arith, ltb, ◌==◌, if◌then◌else◌,
}
use seq.CircularBuffer.Masks.{mask-mod}
use seq.BinarySearch.Bound.{Partitioned, IsBound, Finds}
use seq.FlatMap.{low_half, search_bucket}
use seq.FlatMap.Comparison.{TreeTraits, Lawful}
use seq.FlatMap.Criterion.{
  Partitioned-IsBound, Partitioned-left, Partitioned-right, get_elem?-within,
}

module _ {A : Type 0} (le : A → Bool) (b : List A) (part : Partitioned le b) (d : ℕ)
    (fits : d ≤ length b) where
  abbrev low_part : List A
  low_part = drop d b

  front_length : length (take d b) ≡ d
  front_length = length-take_le d b fits

  parts : take d b ++ drop d b ≡ b
  parts = take-append-drop d b

  at_drop : (i : ℕ) → get_elem? b (i + d) ≡ get_elem? (drop d b) i
  at_drop i =
      ap (λ l. get_elem? l (i + d)) (sym parts)
      ∙ ap (get_elem? (take d b ++ drop d b)) (omega (arith, front_length))
      ∙ get_elem?-append_right (take d b) (drop d b) i

  drop-Partitioned : Partitioned le (drop d b)
  drop-Partitioned =
      Partitioned-right le (take d b) (drop d b) (subst (Partitioned le) (sym parts) part)

  take-Partitioned : Partitioned le (take d b)
  take-Partitioned =
      Partitioned-left le (take d b) (drop d b) (subst (Partitioned le) (sym parts) part)

  -- A bound behind a front whose last element satisfies `le`.
  behind-IsBound :
      (r : ℕ)
      → IsBound le (drop d b) r
      → ((x : A) → get_elem? b (d - 1) ≡ some x → le x ≡ true)
      → IsBound le b (r + d)
  behind-IsBound r w last =
      Partitioned-IsBound le b (r + d) part (omega (arith, w.fits, length-drop d b))
        (λ x h at. before x h at) (λ x at. w.above r x (sym (at_drop r) ∙ at) (omega arith))
    where
      before : (x : A) → 0 < r + d → get_elem? b (r + d - 1) ≡ some x → le x ≡ true
      before x h at = elim (Bool-cases (r == 0)) [
        | inl zero_r ↦ let e : d - 1 ≡ r + d - 1 = ground arith in last x (ap (get_elem? b) e ∙ at)
        | inr more ↦
            let lt : 0 < r = ground arith in
            let e : (r - 1) + d ≡ r + d - 1 = omega arith in
            w.below (r - 1) x (sym (at_drop (r - 1)) ∙ ap (get_elem? b) e ∙ at) (omega arith)
      ]

  -- A bound in a front that is all, or whose last element does not satisfy `le`.
  front-IsBound :
      (r : ℕ)
      → IsBound le (take d b) r
      → ((x : A) → d < length b → get_elem? b (d - 1) ≡ some x → (0 < d) × (le x ≡ false))
      → IsBound le b r
  front-IsBound r w last =
      Partitioned-IsBound le b r part (omega (arith, w.fits, front_length))
        (λ x h at.
          w.below (r - 1) x (in_front (r - 1) (omega (arith, w.fits, front_length)) ∙ at)
            (omega arith))
        (λ x at. next x at)
    where
      in_front : (i : ℕ) → i < d → get_elem? (take d b) i ≡ get_elem? b i
      in_front i h =
          sym (get_elem?-append_left (take d b) (drop d b) i (omega (arith, front_length)))
          ∙ ap (λ l. get_elem? l i) parts

      next : (x : A) → get_elem? b r ≡ some x → le x ≡ false
      next x at = elim (Bool-cases (ltb r d)) [
        | inl inside ↦ w.above r x (in_front r (ground arith) ∙ at) (omega arith)
        | inr outside ↦
            let full : r ≡ d = ground (arith, w.fits, front_length) in
            let more : d < length b = omega (arith, get_elem?-within b r x at, full) in
            let end = get_elem?-lt b (d - 1) (omega arith) in
            let l = last end.0 more end.1 in
            let both : true ≡ false =
              sym (
                w.below (d - 1) end.0 (in_front (d - 1) (omega (arith, l.0)) ∙ end.1)
                  (omega (arith, l.0, full)))
              ∙ l.1 in
            absurd cc
      ]

module _ {K : Type 0} {A : Type 0} (t : TreeTraits K A) (lawful : Lawful t) (le : A → Bool)
    (b : List A) (part : Partitioned le b) (n n1 k begin : ℕ) (power : n ≡ 2 ^ k)
    (mask : n1 + 1 ≡ n) (start : begin < n) (fits : length b ≤ n) where
  -- The ring goes round.
  round_all : n < begin + length b → bit_and (begin + length b) n1 ≡ length (drop (n - begin) b)
  round_all h =
      mask-mod k n1 (begin + length b) (mask ∙ power)
      ∙ ap (λ q. (begin + length b) % q) (sym power)
      ∙ mod-eq-sub-mod (omega arith)
      ∙ mod-eq_of_lt (omega arith)
      ∙ (let e : begin + length b - n ≡ length (drop (n - begin) b) =
            omega (arith, length-drop (n - begin) b) in
          e)

  low_half-Finds :
      n < begin + length b
      → ((x : A) → get_elem? b (n1 - begin) ≡ some x → le x ≡ true)
      → (r : ℕ) × (t.lower_bound le (take (bit_and (begin + length b) n1) (drop (n - begin) b))
          ≡ some r)
        × IsBound le b (r + (n - begin))
  low_half-Finds h last =
      let found =
        lawful.finds le (drop (n - begin) b)
          (drop-Partitioned le b part (n - begin) (omega arith)) in
      let all : take (bit_and (begin + length b) n1) (drop (n - begin) b) ≡ drop (n - begin) b =
        ap (λ q. take q (drop (n - begin) b)) (round_all h)
        ∙ take-length_le (length (drop (n - begin) b)) (drop (n - begin) b) (omega arith) in
      let e : n1 - begin ≡ n - begin - 1 = omega arith in
      (
        found.0,
        ap (t.lower_bound le) all ∙ found.1,
        behind-IsBound le b part (n - begin) (omega arith) found.0 found.2
            (λ x at. last x (ap (get_elem? b) e ∙ at)),
      )

  high_half-Finds :
      ((x : A)
        → n < begin + length b
        → 0 < begin
        → get_elem? b (n1 - begin) ≡ some x
        → le x ≡ false)
      → Finds le b
          (t.lower_bound le (take (if ltb (length b) (n - begin) then length b else n - begin) b))
  high_half-Finds last =
      let d = if ltb (length b) (n - begin) then length b else n - begin in
      let short : d ≤ length b = ground arith in
      let found = lawful.finds le (take d b) (take-Partitioned le b part d short) in
      (
        found.0,
        found.1,
        front-IsBound le b part d short found.0 found.2 (λ x h at.
            let whole : d ≡ n - begin = ground arith in
            let e : d - 1 ≡ n1 - begin = omega arith in
            (omega arith, last x (omega arith) (omega arith) (sym (ap (get_elem? b) e) ∙ at))),
      )

  -- The search in a bucket finds the bound, wherever its ring starts.
  pub search_bucket-Finds : Finds le b (search_bucket t n n1 begin le b)
  unfolding search_bucket low_half
  search_bucket-Finds = elim (Bool-cases (not (begin == 0) && ltb n (begin + length b))) [
    | inr inside ↦
        rw (search_bucket, low_half, inside)
          (high_half-Finds (λ x h g at.
            let over : (not (begin == 0) && ltb n (begin + length b)) ≡ true = ground arith in
            absurd cc))
    | inl over ↦
        let round : n < begin + length b = ground arith in
        let end = get_elem?-lt b (n1 - begin) (omega arith) in
        elim (Bool-cases (le end.0)) [
          | inl low ↦
              let found = low_half-Finds round (λ x at. let same = end.1 in cc) in
              rw (search_bucket, low_half, over, end.1, low, found.1)
                (found.0 + (n - begin), refl, found.2)
          | inr high ↦
              rw (search_bucket, low_half, over, end.1, high)
                (high_half-Finds (λ x h g at. let same = end.1 in cc))
        ]
  ]
