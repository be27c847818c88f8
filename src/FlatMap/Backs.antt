-- ===== src/FlatMap/Backs.antt =====
-- The back values of the buckets.
use mathlib.Core.Option.{some-injective}
use seq.Prelude.{
  ℕ, zero, suc, ◌+◌, ◌-◌, ◌≤◌, ◌<◌, ◌≡◌, refl, ap, sym, ◌∙◌, Bool, some, List, [], ◌∷◌, ◌++◌,
  length, length-append, concat, get_elem?, get_elem?-append_right, arith,
}
use seq.BinarySearch.Bound.{Partitioned}
use seq.BucketManager.Propagate.{unsnoc-Ends}
use seq.FlatMap.{backs}
use seq.FlatMap.Criterion.{Partitioned-right, get_elem?-left}

module _ {A : Type 0} where
  -- Every bucket has an element.
  abbrev pub Filled : List (List A) → Type 0
  Filled [] = 0 ≤ 0
  Filled (b ∷ bs) = (0 < length b) × Filled bs

  -- Each back value is the last element of its bucket.
  pub data Backs : List (List A) → List A → Type 0 where
    no_bucket : Backs [] []
    next_bucket :
        {b : List A} {y : A} {bs : List (List A)} {ys : List A} (zs : List A)
        → b ≡ zs ++ y ∷ []
        → Backs bs ys
        → Backs (b ∷ bs) (y ∷ ys)

  pub Filled-Backs :
      (bs : List (List A)) → Filled bs → (ys : List A) × (backs bs ≡ some ys) × Backs bs ys
  unfolding backs
  Filled-Backs [] h = ([], refl, no_bucket)
  Filled-Backs (b ∷ bs) h =
      let last = unsnoc-Ends b h.0 in
      let rest = Filled-Backs bs h.1 in
      (last.1 ∷ rest.0, rw (backs, last.2, rest.1) refl, next_bucket last.0 last.3 rest.2)

  pub length-Backs : (bs : List (List A)) (ys : List A) → Backs bs ys → length ys ≡ length bs
  length-Backs [] [] no_bucket = refl
  length-Backs [] (y ∷ ys) k = elim k [ ]
  length-Backs (b ∷ bs) [] k = elim k [ ]
  length-Backs (b ∷ bs) (y ∷ ys) (next_bucket zs e k) = ap suc (length-Backs bs ys k)

  last_elem : (zs : List A) (y : A) → get_elem? (zs ++ y ∷ []) (length (zs ++ y ∷ []) - 1) ≡ some y
  last_elem zs y =
      ap (get_elem? (zs ++ y ∷ [])) (
        let k : length (zs ++ y ∷ []) - 1 ≡ length zs + 0 =
          omega (arith, length-append zs (y ∷ [])) in
        k)
      ∙ get_elem?-append_right zs (y ∷ []) 0

  -- The back value at an index.
  pub Backs-at :
      (before : List (List A)) (c : List A) (behind : List (List A)) (ys : List A)
      → Backs (before ++ c ∷ behind) ys
      → (y : A) × (get_elem? ys (length before) ≡ some y) × (get_elem? c (length c - 1) ≡ some y)
  Backs-at [] c behind [] k = elim k [ ]
  Backs-at (b ∷ before) c behind [] k = elim k [ ]
  Backs-at [] c behind (y ∷ ys) (next_bucket zs e k) =
      (y, refl, ap (λ l. get_elem? l (length l - 1)) e ∙ last_elem zs y)
  Backs-at (b ∷ before) c behind (y ∷ ys) (next_bucket zs e k) = Backs-at before c behind ys k

  -- A back value is an element.
  Backs-elem :
      (bs : List (List A)) (ys : List A)
      → Backs bs ys
      → (j : ℕ) (y : A) → get_elem? ys j ≡ some y
      → (p : ℕ) × (get_elem? (concat bs) p ≡ some y)
  Backs-elem [] (z ∷ ys) k j y at = elim k [ ]
  Backs-elem (b ∷ bs) [] k j y at = elim k [ ]
  Backs-elem [] [] no_bucket j y at = absurd cc
  Backs-elem (b ∷ bs) (z ∷ ys) (next_bucket zs e k) zero y at = (
    length b - 1,
    get_elem?-left b (concat bs) (length b - 1) y
        (ap (λ l. get_elem? l (length l - 1)) e ∙ last_elem zs z ∙ at),
  )
  Backs-elem (b ∷ bs) (z ∷ ys) (next_bucket zs e k) (suc j) y at =
      let r = Backs-elem bs ys k j y at in
      (length b + r.0, get_elem?-append_right b (concat bs) r.0 ∙ r.1)

  pub Backs-Partitioned :
      (le : A → Bool) (bs : List (List A)) (ys : List A)
      → Partitioned le (concat bs)
      → Backs bs ys
      → Partitioned le ys
  Backs-Partitioned le [] (z ∷ ys) part k i j x y ai aj h holds = elim k [ ]
  Backs-Partitioned le (b ∷ bs) [] part k i j x y ai aj h holds = elim k [ ]
  Backs-Partitioned le [] [] part no_bucket i j x y ai aj h holds = absurd cc
  Backs-Partitioned le (b ∷ bs) (z ∷ ys) part (next_bucket zs e k) zero zero x y ai aj h holds =
      ap le (some-injective x y (sym ai ∙ aj)) ∙ holds
  Backs-Partitioned le (b ∷ bs) (z ∷ ys) part (next_bucket zs e k) zero (suc j) x y ai aj h holds =
      let r = Backs-elem bs ys k j y aj in
      let last : get_elem? b (length b - 1) ≡ some x =
        ap (λ l. get_elem? l (length l - 1)) e ∙ last_elem zs z ∙ ai in
      part (length b - 1) (length b + r.0) x y (get_elem?-left b (concat bs) (length b - 1) x last)
        (get_elem?-append_right b (concat bs) r.0 ∙ r.1) (omega arith) holds
  Backs-Partitioned le (b ∷ bs) (z ∷ ys) part (next_bucket zs e k) (suc i) zero x y ai aj h holds =
      absurd (omega arith)
  Backs-Partitioned le (b ∷ bs) (z ∷ ys) part (next_bucket zs e k) (suc i) (suc j) x y ai aj h
        holds =
      Backs-Partitioned le bs ys (Partitioned-right le b (concat bs) part) k i j x y ai aj
        (omega arith) holds
