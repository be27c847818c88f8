-- ===== src/BucketManager/Propagate.antt =====
-- The loops that hand one value on through full buckets.
use seq.Prelude.{
  ℕ, ◌<◌, ◌≡◌, refl, ap, ap₂, sym, ◌∙◌, arith, List, [], ◌∷◌, ◌++◌, append_assoc, some, length,
  length-append, concat, unsnoc, unsnoc-append,
}
use seq.BucketManager.{propagate_left, propagate_right}
use seq.BucketManager.Spine.{Tail, Tail-head}
use seq.BucketManager.Locate.{sizes}

module _ {A : Type 0} where
  last_of : (x : A) (xs : List A) → (ys : List A) × (y : A) × (x ∷ xs ≡ ys ++ y ∷ [])
  last_of x [] = ([], x, refl)
  last_of x (z ∷ xs) = let e = last_of z xs in (x ∷ e.0, e.1, ap (λ l. x ∷ l) e.2)

  -- The last element of a list that has one.
  pub unsnoc-Ends :
      (xs : List A)
      → 0 < length xs
      → (ys : List A) × (y : A) × (unsnoc xs ≡ some (ys, y)) × (xs ≡ ys ++ y ∷ [])
  unsnoc-Ends [] h = absurd (omega arith)
  unsnoc-Ends (x ∷ xs) h =
      let e = last_of x xs in (e.0, e.1, ap unsnoc e.2 ∙ unsnoc-append e.0 e.1, e.2)

  module _ (n : ℕ) (positive : 0 < n) (k : ℕ) (rs : List ℕ) where
    pub propagate_left_lem :
        (bs : List (List A)) (tmp : A)
        → Tail n (sizes bs ++ k ∷ rs)
        → (r : List (List A) × A) × (propagate_left bs tmp ≡ some r)
          × (sizes r.0 ≡ sizes bs)
          × (r.1 ∷ concat r.0 ≡ concat bs ++ tmp ∷ [])
    unfolding propagate_left
    propagate_left_lem [] tmp t = (([], tmp), refl, refl, refl)
    propagate_left_lem ([] ∷ bs) tmp t = absurd (omega (arith, (Tail-head n 0 (sizes bs) k rs t).0))
    propagate_left_lem ((y ∷ ys) ∷ bs) tmp t =
        let e = propagate_left_lem bs tmp (Tail-head n (length (y ∷ ys)) (sizes bs) k rs t).1 in
        let v = e.0.1 in
        (
          ((ys ++ v ∷ []) ∷ e.0.0, y),
          rw (propagate_left, e.1) refl,
          ap₂ (λ l ls. l ∷ ls) (omega (arith, length-append ys (v ∷ []))) e.2,
          ap (λ l. y ∷ l)
              (append_assoc ys (v ∷ []) (concat e.0.0)
                ∙ ap (λ l. ys ++ l) e.3
                ∙ sym (append_assoc ys (concat bs) (tmp ∷ []))),
        )

    pub propagate_right_lem :
        (bs : List (List A)) (tmp : A)
        → Tail n (sizes bs ++ k ∷ rs)
        → (r : List (List A) × A) × (propagate_right bs tmp ≡ some r)
          × (sizes r.0 ≡ sizes bs)
          × (concat r.0 ++ r.1 ∷ [] ≡ tmp ∷ concat bs)
    unfolding propagate_right
    propagate_right_lem [] tmp t = (([], tmp), refl, refl, refl)
    propagate_right_lem (b ∷ bs) tmp t =
        let full = Tail-head n (length b) (sizes bs) k rs t in
        let u = unsnoc-Ends b (omega (arith, full.0)) in
        let e = propagate_right_lem bs u.1 full.1 in
        (
          ((tmp ∷ u.0) ∷ e.0.0, e.0.1),
          rw (propagate_right, u.2, e.1) refl,
          ap₂ (λ l ls. l ∷ ls) (omega (arith, ap length u.3, length-append u.0 (u.1 ∷ []))) e.2,
          ap (λ l. tmp ∷ l)
              (append_assoc u.0 (concat e.0.0) (e.0.1 ∷ [])
                ∙ ap (λ l. u.0 ++ l) e.3
                ∙ sym (append_assoc u.0 (u.1 ∷ []) (concat bs))
                ∙ ap (λ l. l ++ concat bs) (sym u.3)),
        )
