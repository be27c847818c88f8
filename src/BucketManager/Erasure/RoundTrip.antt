-- ===== src/BucketManager/Erasure/RoundTrip.antt =====
-- A removal after an insertion.
use seq.Prelude.{ℕ, zero, suc, ◌≤◌, ◌≡◌, refl, ap, ◌∙◌, arith, subst, List, [], ◌∷◌, length, some}
use seq.BucketManager.{Manager, insert}
use seq.BucketManager.Bucket.{emplace_at, erase_at}
use seq.BucketManager.Locate.{Represents}
use seq.BucketManager.Insertion.{length-emplace_at}
use seq.BucketManager.Anywhere.{insert-Represents}
use seq.BucketManager.Erasure.{erase}
use seq.BucketManager.Erasure.Parts.{erase_at-suc}
use seq.BucketManager.Erasure.Removal.{erase-Represents}

module _ {A : Type 0} where
  pub erase_at-emplace_at :
      (i : ℕ) (v : A) (xs : List A) → i ≤ length xs → erase_at i (emplace_at i v xs) ≡ xs
  erase_at-emplace_at zero v xs h = refl
  erase_at-emplace_at (suc i) v [] h = absurd (omega arith)
  erase_at-emplace_at (suc i) v (x ∷ xs) h =
      erase_at-suc i x (emplace_at i v xs)
      ∙ ap (λ l. x ∷ l) (erase_at-emplace_at i v xs (omega arith))

  -- On a manager that represents `xs`, `insert` of `v` at a position that is at most the length of
  -- `xs` and then `erase` of that position both succeed, and leave a manager that represents `xs`.
  pub erase-insert :
      (m : Manager A) (xs : List A) (pos : ℕ) (v : A)
      → Represents m xs
      → pos ≤ length xs
      → (r : Manager A) × (q : Manager A) × (insert pos v m ≡ some r)
        × (erase pos r ≡ some q)
        × Represents q xs
  erase-insert m xs pos v holds h =
      let i = insert-Represents m xs holds pos v h in
      let e =
        erase-Represents i.0 (emplace_at pos v xs) i.2 (omega (arith, length-emplace_at pos v xs h))
          pos (omega (arith, length-emplace_at pos v xs h)) in
      (i.0, e.0, i.1, e.1, subst (Represents e.0) (erase_at-emplace_at pos v xs h) e.2)
