-- ===== src/FlatMap/Search.antt =====
-- `tvector_lower_bound` finds the bound in the elements of the buckets.
use mathlib.Core.Option.{some-injective}
use seq.Prelude.{
  ℕ, ◌+◌, ◌-◌, ◌≤◌, ◌<◌, ◌≡◌, refl, ap, ap₂, sym, ◌∙◌, subst, ◌⊎◌, inl, inr, Bool, true, Bool-cases,
  some, List, [], ◌∷◌, ◌++◌, append_assoc, append-nil, length, length-append, concat, concat-append,
  focus, focus-append, get_elem?, get_elem?-append_left, get_elem?-append_right, arith, ◌==◌, ltb,
}
use seq.BinarySearch.Bound.{Partitioned, IsBound, Finds}
use seq.BucketManager.{Manager}
use seq.BucketManager.Spine.{Spine, Spine-within}
use seq.BucketManager.Propagate.{unsnoc-Ends}
use seq.BucketManager.Locate.{sizes, Represents}
use seq.BucketManager.Insertion.{sizes-append}
use seq.BucketManager.Ends.{Represents-positive}
use seq.FlatMap.{search_bucket, bucket_start, tvector_lower_bound}
use seq.FlatMap.Comparison.{TreeTraits, Lawful}
use seq.FlatMap.Criterion.{
  Partitioned-IsBound, Partitioned-left, Partitioned-right, get_elem?-within, get_elem?-left,
}
use seq.FlatMap.Halves.{search_bucket-Finds}
use seq.FlatMap.Backs.{Filled, Backs, Filled-Backs, length-Backs, Backs-at, Backs-Partitioned}
use seq.FlatMap.Start.{split-lt, Spine-Filled, bucket_start-concat, Filled-at, concat-length}

module _ {A : Type 0} (le : A → Bool) (bs : List (List A)) (ys : List A) (filled : Filled bs)
    (ends : Backs bs ys) where
  -- The last element before a bucket satisfies `le` when the back values before it do.
  before_bucket :
      (before rest : List (List A)) (x : A)
      → bs ≡ before ++ rest
      → IsBound le ys (length before)
      → 0 < length (concat before)
      → get_elem? (concat bs) (length (concat before) - 1) ≡ some x
      → le x ≡ true
  before_bucket before rest x e w h at =
      let some_bucket : 0 < length before = concat-length before h in
      let last = unsnoc-Ends before some_bucket in
      let spread : bs ≡ last.0 ++ last.1 ∷ rest =
        e ∙ ap (λ l. l ++ rest) last.3 ∙ append_assoc last.0 (last.1 ∷ []) rest in
      let back = Backs-at last.0 last.1 rest ys (subst (λ l. Backs l ys) spread ends) in
      let z : 0 < length last.1 = Filled-at last.0 last.1 rest (subst Filled spread filled) in
      let count : length before ≡ length last.0 + 1 =
        ap length last.3 ∙ length-append last.0 (last.1 ∷ []) in
      let size : length (concat before) ≡ length (concat last.0) + length last.1 =
        ap (λ l. length (concat l)) last.3
        ∙ ap length (concat-append last.0 (last.1 ∷ []))
        ∙ (let k : length (concat last.0 ++ (last.1 ++ []))
                ≡ length (concat last.0) + length last.1 =
              omega
                (arith, length-append (concat last.0) (last.1 ++ []), length-append last.1 []) in
            k) in
      let here : get_elem? (concat bs) (length (concat before) - 1) ≡ some back.0 =
        ap₂ get_elem? (ap concat spread ∙ concat-append last.0 (last.1 ∷ rest)) (
          let k : length (concat before) - 1 ≡ length (concat last.0) + (length last.1 - 1) =
            omega arith in
          k)
        ∙ get_elem?-append_right (concat last.0) (last.1 ++ concat rest) (length last.1 - 1)
        ∙ get_elem?-left last.1 (concat rest) (length last.1 - 1) back.0 back.2 in
      ap le (some-injective x back.0 (sym at ∙ here))
      ∙ w.below (length last.0) back.0 back.1 (omega arith)

  module _ (part : Partitioned le (concat bs)) where
    -- All back values satisfy `le`.
    all_before : IsBound le ys (length bs) → IsBound le (concat bs) (length (concat bs))
    all_before w =
        Partitioned-IsBound le (concat bs) (length (concat bs)) part (omega arith)
          (λ x h at. before_bucket bs [] x (sym (append-nil bs)) w h at)
          (λ x at. absurd (omega (arith, get_elem?-within (concat bs) (length (concat bs)) x at)))

    -- The bound in a bucket whose back value is the first that does not satisfy `le`.
    in_bucket :
        (before : List (List A)) (c : List A) (behind : List (List A)) (k : ℕ)
        → bs ≡ before ++ c ∷ behind
        → IsBound le ys (length before)
        → IsBound le c k
        → IsBound le (concat bs) (length (concat before) + k)
    in_bucket before c behind k e w v =
        Partitioned-IsBound le (concat bs) (length (concat before) + k) part
          (omega (arith, v.fits, total)) last (λ x at. v.above k x (inside k lt ∙ at) (omega arith))
      where
        spread : concat bs ≡ concat before ++ (c ++ concat behind)
        spread = ap concat e ∙ concat-append before (c ∷ behind)

        total : length (concat bs) ≡ length (concat before) + (length c + length (concat behind))
        total =
            ap length spread
            ∙ length-append (concat before) (c ++ concat behind)
            ∙ ap (λ l. length (concat before) + l) (length-append c (concat behind))

        inside :
            (i : ℕ)
            → i < length c
            → get_elem? c i ≡ get_elem? (concat bs) (length (concat before) + i)
        inside i h = sym (
            ap (λ l. get_elem? l (length (concat before) + i)) spread
            ∙ get_elem?-append_right (concat before) (c ++ concat behind) i
            ∙ get_elem?-append_left c (concat behind) i h)

        lt : k < length c
        lt = elim (Bool-cases (ltb k (length c))) [
          | inl inner ↦ ground arith
          | inr outer ↦
              let back = Backs-at before c behind ys (subst (λ l. Backs l ys) e ends) in
              let z : 0 < length c = Filled-at before c behind (subst Filled e filled) in
              let holds = v.below (length c - 1) back.0 back.2 (ground arith) in
              let fails = w.above (length before) back.0 back.1 (omega arith) in absurd cc
        ]

        last :
            (x : A)
            → 0 < length (concat before) + k
            → get_elem? (concat bs) (length (concat before) + k - 1) ≡ some x
            → le x ≡ true
        last x h at = elim (Bool-cases (k == 0)) [
          | inl first ↦
              let q : length (concat before) - 1 ≡ length (concat before) + k - 1 = ground arith in
              before_bucket before (c ∷ behind) x e w (ground arith)
                (ap (get_elem? (concat bs)) q ∙ at)
          | inr later ↦
              let q : length (concat before) + (k - 1) ≡ length (concat before) + k - 1 =
                ground arith in
              v.below (k - 1) x
                (inside (k - 1) (omega (arith, lt)) ∙ ap (get_elem? (concat bs)) q ∙ at)
                (ground arith)
        ]

module _ {K : Type 0} {A : Type 0} (t : TreeTraits K A) (lawful : Lawful t) (le : A → Bool)
    (m : Manager A) (xs : List A) (holds : Represents m xs) (part : Partitioned le xs)
    (begins : ℕ → ℕ) (starts : (i : ℕ) → begins i < m.bucket_size) where
  bucket-Finds :
      (ys : List A) (i : ℕ) (before : List (List A)) (c : List A) (behind : List (List A))
      → Filled m.buckets
      → Backs m.buckets ys
      → IsBound le ys i
      → m.buckets ≡ before ++ c ∷ behind
      → length before ≡ i
      → (k : ℕ) × (search_bucket t m.bucket_size m.bucket_size1 (begins i) le c ≡ some k)
        × IsBound le xs (k + bucket_start m i)
  bucket-Finds ys i before c behind filled ends w split index =
      let spread : Partitioned le (concat before ++ (c ++ concat behind)) =
        subst (Partitioned le)
          (sym holds.elements ∙ ap concat split ∙ concat-append before (c ∷ behind)) part in
      let inner : Partitioned le c =
        Partitioned-left le c (concat behind)
          (Partitioned-right le (concat before) (c ++ concat behind) spread) in
      let fits : length c ≤ m.bucket_size =
        Spine-within m.bucket_size (sizes before) (length c) (sizes behind) (
          subst (Spine m.bucket_size) (ap sizes split ∙ sizes-append before (c ∷ behind))
            holds.spine) in
      let found =
        search_bucket-Finds t lawful le c inner m.bucket_size m.bucket_size1 m.bucket_size_bits
          (begins i) holds.power holds.mask (starts i) fits in
      let whole =
        in_bucket le m.buckets ys filled ends (subst (Partitioned le) (sym holds.elements) part)
          before c behind found.0 split (subst (IsBound le ys) (sym index) w) found.2 in
      let start : length (concat before) + found.0 ≡ found.0 + bucket_start m i = omega (
        arith,
        sym (bucket_start-concat m before c behind split holds.spine) ∙ ap (bucket_start m) index,
      ) in
      (
        found.0,
        found.1,
        subst (IsBound le xs) start
            (subst (λ l. IsBound le l (length (concat before) + found.0)) holds.elements whole),
      )

  -- On a manager that represents a list in which the elements that satisfy `le` stand before the
  -- others, with no bucket or with an element, and wherever the rings of its buckets start,
  -- `tvector_lower_bound` with lawful traits returns, reads no bucket that is not there, and gives
  -- the position before which all elements satisfy `le` and from which on none does.
  pub tvector_lower_bound-Finds :
      (m.buckets ≡ []) ⊎ (0 < length xs) → Finds le xs (tvector_lower_bound t begins le m)
  unfolding tvector_lower_bound
  tvector_lower_bound-Finds h =
      let filled =
        Spine-Filled m.bucket_size m.buckets (Represents-positive m xs holds) holds.spine
          (subst (λ l. (m.buckets ≡ []) ⊎ (0 < length l)) (sym holds.elements) h) in
      let ends = Filled-Backs m.buckets filled in
      let count = length-Backs m.buckets ends.0 ends.2 in
      let found = lawful.finds le ends.0 (
        Backs-Partitioned le m.buckets ends.0 (subst (Partitioned le) (sym holds.elements) part)
          ends.2) in
      let w = found.2 in
      elim (Bool-cases (found.0 == length m.buckets)) [
        | inl none_left ↦
            let e : found.0 ≡ length m.buckets = ground arith in
            let whole =
              all_before le m.buckets ends.0 filled ends.2
                (subst (Partitioned le) (sym holds.elements) part)
                (subst (IsBound le ends.0) e w) in
            rw (tvector_lower_bound, ends.1, found.1, none_left)
              (
                m.size,
                refl,
                subst (IsBound le xs) (sym holds.count)
                    (subst (λ l. IsBound le l (length l)) holds.elements whole),
              )
        | inr more ↦
            let s = split-lt m.buckets found.0 (ground (arith, w.fits, count)) in
            let here : focus found.0 m.buckets ≡ some (s.0, s.1, s.2) =
              ap₂ focus (sym s.4) s.3 ∙ focus-append s.0 s.1 s.2 in
            let inner = bucket-Finds ends.0 found.0 s.0 s.1 s.2 filled ends.2 w s.3 s.4 in
            rw (tvector_lower_bound, ends.1, found.1, more, here, inner.1)
              (inner.0 + bucket_start m found.0, refl, inner.2)
      ]
