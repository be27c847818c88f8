-- ===== src/BucketManager/Locate.antt =====
-- The bucket and the index of a position.
use Prim.Native.Nat.{bit_and}
use native.Mathlib.Nat.{div-eq_of_lt, mod-eq_of_lt, div-eq-sub-div, mod-eq-sub-mod}
use seq.Prelude.{
  ℕ, ◌+◌, ◌-◌, ◌/◌, ◌%◌, ◌^◌, ◌≤◌, ◌<◌, ◌≡◌, refl, ap, ap₂, sym, ◌∙◌, inl, inr, Bool-cases, arith,
  ltb, if◌then◌else◌, List, [], ◌∷◌, ◌++◌, some, subst, length, length-append, map, concat, focus,
  focus-append, get_elem?, concat-append, get_elem?-append_left, get_elem?-append_right,
}
use seq.CircularBuffer.Masks.{mask-mod}
use seq.BucketManager.{Manager, front_size, bucket_index, bucket_pos, at}
use seq.BucketManager.Spine.{Tail, Spine}

abbrev pub sizes : {A : Type 0} → List (List A) → List ℕ
sizes bs = map length bs

module _ {A : Type 0} where
  -- The manager represents the list.
  pub record Represents (m : Manager A) (xs : List A) : Type 0 where
    pub power : m.bucket_size ≡ 2 ^ m.bucket_size_bits
    pub mask : m.bucket_size1 + 1 ≡ m.bucket_size
    pub spine : Spine m.bucket_size (sizes m.buckets)
    pub elements : concat m.buckets ≡ xs
    pub count : m.size ≡ length xs

  -- A bucket with an index, and a position in it.
  pub record Located (bs : List (List A)) (pos index inside : ℕ) : Type 0 where
    pub before : List (List A)
    pub bucket : List A
    pub behind : List (List A)
    pub split : bs ≡ before ++ bucket ∷ behind
    pub found : length before ≡ index
    pub position : pos ≡ length (concat before) + inside
    pub within : inside < length bucket

  Located-first :
      (b : List A) (bs : List (List A)) (pos index inside : ℕ)
      → index ≡ 0
      → inside ≡ pos
      → pos < length b
      → Located (b ∷ bs) pos index inside
  Located-first b bs pos index inside e f h = record {
    before = [];
    bucket = b;
    behind = bs;
    split = refl;
    found = sym e;
    position = omega (arith, f);
    within = omega (arith, f);
  }

  Located-next :
      (b : List A) (bs : List (List A)) (pos index inside p i : ℕ)
      → Located bs p i inside
      → index ≡ i + 1
      → pos ≡ length b + p
      → Located (b ∷ bs) pos index inside
  Located-next b bs pos index inside p i l e f = record {
    before = b ∷ l.before;
    bucket = l.bucket;
    behind = l.behind;
    split = ap (λ k. b ∷ k) l.split;
    found = omega (arith, l.found, e);
    position = omega (arith, l.position, f, length-append b (concat l.before));
    within = l.within;
  }

  -- In full buckets, quotient and remainder.
  Tail-Located :
      (n : ℕ) (bs : List (List A)) (pos : ℕ)
      → 0 < n
      → Tail n (sizes bs)
      → pos < length (concat bs)
      → Located bs pos (pos / n) (pos % n)
  Tail-Located n [] pos z t h = absurd t
  Tail-Located n (b ∷ []) pos z t h =
      let l = length-append b [] in
      Located-first b [] pos (pos / n) (pos % n) (div-eq_of_lt (omega (arith, l, t.1)))
        (mod-eq_of_lt (omega (arith, l, t.1))) (omega (arith, l))
  Tail-Located n (b ∷ c ∷ bs) pos z t h = elim (Bool-cases (ltb pos n)) [
    | inl front ↦
        Located-first b (c ∷ bs) pos (pos / n) (pos % n) (div-eq_of_lt (ground arith))
          (mod-eq_of_lt (ground arith)) (ground (arith, t.0))
    | inr later ↦
        let far : n ≤ pos = ground arith in
        Located-next b (c ∷ bs) pos (pos / n) (pos % n) (pos - n) ((pos - n) / n)
          (subst (Located (c ∷ bs) (pos - n) ((pos - n) / n)) (sym (mod-eq-sub-mod far)) (
            Tail-Located n (c ∷ bs) (pos - n) z t.1
              (omega (arith, t.0, length-append b (concat (c ∷ bs))))))
          (div-eq-sub-div z far) (omega (arith, t.0))
  ]

  Spine-Located :
      (n n1 k : ℕ) (bs : List (List A)) (pos : ℕ)
      → n ≡ 2 ^ k
      → n1 + 1 ≡ n
      → Spine n (sizes bs)
      → pos < length (concat bs)
      → Located bs pos
          ((pos + (n - front_size bs)) / 2 ^ k)
          (bit_and (pos - (if ltb pos (front_size bs) then 0 else front_size bs)) n1)
  Spine-Located n n1 k bs pos e mask spine h =
      subst
        (λ q.
          Located bs pos ((pos + (n - front_size bs)) / q)
            (bit_and (pos - (if ltb pos (front_size bs) then 0 else front_size bs)) n1))
        e
        (subst (Located bs pos ((pos + (n - front_size bs)) / n))
          (sym (
            mask-mod k n1 (pos - (if ltb pos (front_size bs) then 0 else front_size bs)) (mask ∙ e)
            ∙ ap (λ q. (pos - (if ltb pos (front_size bs) then 0 else front_size bs)) % q) (sym e)))
          (by_quotient bs spine h))
    where
      in_first :
          (b : List A) (bs : List (List A))
          → length b ≤ n
          → pos < length b
          → Located
              (b ∷ bs)
              pos
              ((pos + (n - length b)) / n)
              ((pos - (if ltb pos (length b) then 0 else length b)) % n)
      in_first b bs fits inside =
          let zero_off : pos - (if ltb pos (length b) then 0 else length b) ≡ pos = ground arith in
          Located-first b bs pos _ _ (div-eq_of_lt (omega arith))
            (ap (λ q. q % n) zero_off ∙ mod-eq_of_lt (omega arith)) inside

      by_quotient :
          (bs : List (List A))
          → Spine n (sizes bs)
          → pos < length (concat bs)
          → Located bs pos
              ((pos + (n - front_size bs)) / n)
              ((pos - (if ltb pos (front_size bs) then 0 else front_size bs)) % n)
      by_quotient [] spine h = absurd (omega arith)
      by_quotient (b ∷ []) spine h = in_first b [] spine (omega (arith, length-append b []))
      by_quotient (b ∷ c ∷ bs) spine h = elim (Bool-cases (ltb pos (length b))) [
        | inl first ↦ in_first b (c ∷ bs) spine.1 (ground arith)
        | inr later ↦
            let far : length b ≤ pos = ground arith in
            let z : 0 < n = omega arith in
            let off : pos - (if ltb pos (length b) then 0 else length b) ≡ pos - length b =
              ground arith in
            let turn : pos + (n - length b) ≡ (pos - length b) + n = omega (arith, spine.1) in
            let less : n ≤ (pos - length b) + n = omega arith in
            Located-next b (c ∷ bs) pos _ _ (pos - length b) ((pos - length b) / n)
              (subst (Located (c ∷ bs) (pos - length b) ((pos - length b) / n))
                (sym (ap (λ q. q % n) off))
                (Tail-Located n (c ∷ bs) (pos - length b) z spine.2
                  (omega (arith, length-append b (concat (c ∷ bs))))))
              (ap (λ q. q / n) turn
                ∙ div-eq-sub-div z less
                ∙ ap (λ q. q / n + 1)
                    (let k : (pos - length b) + n - n ≡ pos - length b = omega arith in k))
              (omega arith)
      ]

  module _ (m : Manager A) (xs : List A) (holds : Represents m xs) where
    pub Represents-Located :
        (pos : ℕ) → pos < length xs → Located m.buckets pos (bucket_index m pos) (bucket_pos m pos)
    unfolding bucket_index bucket_pos
    Represents-Located pos h =
        Spine-Located m.bucket_size m.bucket_size1 m.bucket_size_bits m.buckets pos holds.power
          holds.mask holds.spine (omega (arith, ap length holds.elements))

    -- On a manager that represents `xs`, `at` a position less than the length of `xs`, by shift and
    -- mask, gives the element of `xs` at the position.
    pub at-get_elem? : (pos : ℕ) → pos < length xs → at m pos ≡ get_elem? xs pos
    unfolding at
    at-get_elem? pos h =
        let l = Represents-Located pos h in
        let spread : xs ≡ concat l.before ++ (l.bucket ++ concat l.behind) =
          sym holds.elements ∙ ap concat l.split ∙ concat-append l.before (l.bucket ∷ l.behind) in
        let here : focus (bucket_index m pos) m.buckets ≡ some (l.before, l.bucket, l.behind) =
          ap₂ focus (sym l.found) l.split ∙ focus-append l.before l.bucket l.behind in
        rw (at, here)
          (sym (
            ap₂ get_elem? spread l.position
            ∙ get_elem?-append_right (concat l.before) (l.bucket ++ concat l.behind)
                (bucket_pos m pos)
            ∙ get_elem?-append_left l.bucket (concat l.behind) (bucket_pos m pos) l.within))
