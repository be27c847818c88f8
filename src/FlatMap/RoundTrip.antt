-- ===== src/FlatMap/RoundTrip.antt =====
-- seq/flat_map.hpp: erasures that follow an insertion.
use seq.Prelude.{
  ℕ, zero, suc, ◌≤◌, ◌<◌, ◌≡◌, refl, ap, ◌∙◌, subst, inl, inr, true, some, List, [], ◌∷◌, length,
  get_elem?, arith,
}
use seq.BucketManager.{Manager}
use seq.BucketManager.Locate.{Represents}
use seq.BucketManager.Bucket.{emplace_at, erase_at}
use seq.BucketManager.Insertion.{length-emplace_at}
use seq.BucketManager.Ends.{Represents-positive}
use seq.BucketManager.Erasure.RoundTrip.{erase_at-emplace_at}
use seq.FlatMap.{emplace_pos, erase_key}
use seq.FlatMap.Comparison.{TreeTraits, Lawful}
use seq.FlatMap.Order.{Equivalent, Absent, Equivalent-self, Equivalent-unique}
use seq.FlatMap.Find.{Holds, erase_key-Erased}
use seq.FlatMap.Emplace.{emplace_pos-Emplaced}

module _ {A : Type 0} where
  emplace_at-elem :
      (pos : ℕ) (v : A) (xs : List A)
      → pos ≤ length xs
      → get_elem? (emplace_at pos v xs) pos ≡ some v
  emplace_at-elem zero v xs h = refl
  emplace_at-elem (suc pos) v [] h = absurd (omega arith)
  emplace_at-elem (suc pos) v (x ∷ xs) h = emplace_at-elem pos v xs (omega arith)

module _ {K : Type 0} {A : Type 0} (t : TreeTraits K A) (lawful : Lawful t) where
  Absent-not :
      (k : K) (xs : List A) (i : ℕ) (x : A)
      → Absent t k xs
      → get_elem? xs i ≡ some x
      → Equivalent t k x
      → ⊥
  Absent-not k xs i x absent at same = elim (absent i x at) [
    | inl less ↦ let no = same.1 in absurd cc
    | inr more ↦ let no = same.0 in absurd cc
  ]

  -- On a tree that represents a sorted list of different keys, with no bucket or with an element,
  -- and with lawful traits, in which no element has the key of `v`, `emplace_pos` of `v` inserts it
  -- and `erase_key` of its key then erases one element and leaves a tree that represents the first
  -- list, wherever the rings then start.
  pub erase_key-emplace_pos :
      (m : Manager A) (xs : List A) (begins : ℕ → ℕ) (v : A) (begins_of : Manager A → ℕ → ℕ)
      → Holds t m xs begins
      → Absent t (t.key v) xs
      → ((q : Manager A) (i : ℕ) → 0 < q.bucket_size → begins_of q i < q.bucket_size)
      → (pos : ℕ) × (q : Manager A) × (r : Manager A) × (emplace_pos t begins v m
          ≡ some (pos, true, q))
        × (erase_key t (begins_of q) (t.key v) q ≡ some (1, r))
        × Represents r xs
  erase_key-emplace_pos m xs begins v begins_of holds absent starts =
      elim (emplace_pos-Emplaced t lawful m xs begins holds v) [
        | inr there ↦ absurd (Absent-not (t.key v) xs there.0 there.1 absent there.3 there.4)
        | inl new ↦
            let pos = new.0 in
            let q = new.1 in
            let ys = emplace_at pos v xs in
            let here = emplace_at-elem pos v xs new.3 in
            let after : Holds t q ys (begins_of q) = record {
              represents = new.4;
              sorted = new.5;
              searchable = inr (omega (arith, length-emplace_at pos v xs new.3));
              starts = λ i. starts q i (Represents-positive q ys new.4);
            } in
            elim (erase_key-Erased t lawful q ys (begins_of q) after (t.key v)) [
              | inr none_there ↦
                  absurd
                    (Absent-not (t.key v) ys pos v none_there.1 here (Equivalent-self t lawful v))
              | inl there ↦
                  let same : there.0 ≡ pos =
                    Equivalent-unique t lawful ys there.0 pos (t.key v) there.1 v new.5 there.4 here
                      there.5 (Equivalent-self t lawful v) in
                  (
                    pos,
                    q,
                    there.2,
                    new.2,
                    there.3,
                    subst (Represents there.2)
                        (ap (λ k. erase_at k ys) same ∙ erase_at-emplace_at pos v xs new.3) there.6,
                  )
            ]
      ]
