-- ===== src/BucketManager/Erasure/Shrink.antt =====
-- The sizes of the buckets when the first or the last one loses an element.
use seq.Prelude.{
  ℕ, ◌+◌, ◌-◌, ◌<◌, ◌≡◌, sym, subst, inl, inr, Bool-cases, ◌==◌, if◌then◌else◌, arith, List, [],
  ◌∷◌, ◌++◌, append_assoc, append-nil,
}
use seq.BucketManager.Spine.{
  Tail, Spine, Tail-head, Tail-positive, Spine-Tail, Tail-cons, Spine-cons,
}

module _ (n : ℕ) (positive : 0 < n) where
  Tail-init : (j : ℕ) (ls : List ℕ) (l : ℕ) → Tail n ((j ∷ ls) ++ l ∷ []) → Tail n (j ∷ ls)
  Tail-init j [] l t = (omega (arith, t.0), omega (arith, t.0))
  Tail-init j (m ∷ ls) l t = (t.0, Tail-init m ls l t.1)

  -- Without the last bucket, or without the first.
  Spine-init : (j : ℕ) (ls : List ℕ) (l : ℕ) → Spine n ((j ∷ ls) ++ l ∷ []) → Spine n (j ∷ ls)
  Spine-init j [] l t = t.1
  Spine-init j (m ∷ ls) l t = (t.0, t.1, Tail-init m ls l t.2)

  Spine-rest : (l k : ℕ) (ls : List ℕ) → Spine n (l ∷ k ∷ ls) → Spine n (k ∷ ls)
  Spine-rest l k [] t = t.2.1
  Spine-rest l k (m ∷ ls) t = (omega (arith, t.2.0), omega (arith, t.2.0), t.2.1)

  Tail-less : (ls : List ℕ) (l : ℕ) → 0 < l → Tail n (ls ++ (l + 1) ∷ []) → Tail n (ls ++ l ∷ [])
  Tail-less [] l h t = (h, omega (arith, t.1))
  Tail-less (k ∷ ls) l h t =
      let u = Tail-head n k ls (l + 1) [] t in Tail-cons n k ls l [] u.0 (Tail-less ls l h u.1)

  -- The last bucket has one element less, and goes if it has none.
  pub Spine-less :
      (ls : List ℕ) (l : ℕ) → 0 < l → Spine n (ls ++ (l + 1) ∷ []) → Spine n (ls ++ l ∷ [])
  Spine-less [] l h t = omega (arith, t)
  Spine-less (k ∷ ls) l h t =
      let u = Spine-Tail n k ls (l + 1) [] t in
      Spine-cons n k ls l [] u.0 u.1 (Tail-less ls l h u.2)

  pub Spine-shrink_back :
      (j : ℕ) (ls : List ℕ) (l : ℕ)
      → Spine n ((j ∷ ls) ++ (l + 1) ∷ [])
      → Spine n ((j ∷ ls) ++ (if l == 0 then [] else l ∷ []))
  Spine-shrink_back j ls l t = elim (Bool-cases (l == 0)) [
    | inl empty ↦ rw empty (subst (Spine n) (sym (append-nil (j ∷ ls))) (Spine-init j ls (l + 1) t))
    | inr other ↦ rw other (Spine-less (j ∷ ls) l (ground arith) t)
  ]

  pub Spine-shrink_front :
      (l k : ℕ) (ls : List ℕ)
      → Spine n ((l + 1) ∷ k ∷ ls)
      → Spine n (if l == 0 then k ∷ ls else l ∷ k ∷ ls)
  Spine-shrink_front l k ls t = elim (Bool-cases (l == 0)) [
    | inl empty ↦ rw empty (Spine-rest (l + 1) k ls t)
    | inr other ↦ rw other (ground arith, omega (arith, t.1), t.2)
  ]

  pub Tail-suffix : (ls : List ℕ) (l : ℕ) (rs : List ℕ) → Tail n (ls ++ l ∷ rs) → Tail n (l ∷ rs)
  Tail-suffix [] l rs t = t
  Tail-suffix (k ∷ ls) l rs t = Tail-suffix ls l rs (Tail-head n k ls l rs t).1

  -- After a bucket takes from the next one, and so on.
  abbrev pub shrunk : ℕ → List ℕ → List ℕ
  shrunk l [] = if l == 0 then [] else l ∷ []
  shrunk l (k ∷ ks) = (l + 1) ∷ shrunk (k - 1) ks

  pub shrunk-Spine :
      (j : ℕ) (ls : List ℕ) (l : ℕ) (ks : List ℕ)
      → Spine n ((j ∷ ls) ++ (l + 1) ∷ ks)
      → Spine n ((j ∷ ls) ++ shrunk l ks)
  shrunk-Spine j ls l [] t = Spine-shrink_back j ls l t
  shrunk-Spine j ls l (k ∷ ks) t =
      let regroup = append_assoc (j ∷ ls) ((l + 1) ∷ []) in
      let behind : Tail n (ls ++ (l + 1) ∷ k ∷ ks) = (Spine-Tail n j ls (l + 1) (k ∷ ks) t).2 in
      let some_left : 0 < k =
        Tail-positive n (ls ++ (l + 1) ∷ []) k ks positive
          (subst (Tail n) (sym (append_assoc ls ((l + 1) ∷ []) (k ∷ ks))) behind) in
      subst (Spine n) (regroup (shrunk (k - 1) ks)) (
        shrunk-Spine j (ls ++ (l + 1) ∷ []) (k - 1) ks (
          subst (λ q. Spine n (((j ∷ ls) ++ (l + 1) ∷ []) ++ q ∷ ks))
            (let e : k ≡ k - 1 + 1 = omega arith in e)
            (subst (Spine n) (sym (regroup (k ∷ ks))) t)))

  pub Spine-front_less : (l : ℕ) (ls : List ℕ) → 0 < l → Spine n ((l + 1) ∷ ls) → Spine n (l ∷ ls)
  Spine-front_less l [] h t = omega (arith, t)
  Spine-front_less l (k ∷ ls) h t = (h, omega (arith, t.1), t.2)
