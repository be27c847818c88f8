-- ===== src/TieredVector/Operations.antt =====
-- The operations of `tiered_vector` at one position, on the list that it represents.
use seq.Prelude.{
  ℕ, ◌-◌, ◌^◌, ◌≤◌, ◌<◌, ◌≡◌, refl, ap, sym, ◌∙◌, subst, Option, none, some, List, [], ◌∷◌, ◌++◌,
  length, arith,
}
use seq.CircularBuffer.Masks.{two_pow-pos}
use seq.BucketManager
use seq.BucketManager.{Manager, new_manager, insert}
use seq.BucketManager.Bucket.{emplace_at, erase_at}
use seq.BucketManager.Locate.{Represents}
use seq.BucketManager.Ends.{emplace_back-Represents, emplace_front-Represents}
use seq.BucketManager.Anywhere.{insert-Represents}
use seq.BucketManager.Erasure.Removal.{erase-Represents, pop_back-Represents, pop_front-Represents}
use seq.TieredVector.{
  Config, update_bucket_size, make_manager_if_null, emplace, emplace_back, emplace_front, erase,
  pop_back, pop_front,
}
use seq.TieredVector.BucketSize.{IsValid}
use seq.TieredVector.Rebuild.{update_bucket_size-Rearranged}

module _ {A : Type 0} where
  -- A null pointer is the empty vector.
  abbrev pub Contains : Option (Manager A) → List A → Type 0
  Contains none xs = xs ≡ []
  Contains (some m) xs = Represents m xs

  -- An operation returns a vector of the list.
  abbrev pub Makes : Option (Manager A) → List A → Type 0
  Makes o xs = (r : Manager A) × (o ≡ some r) × Represents r xs

module _ {A : Type 0} (c : Config) (valid : IsValid c) where
  ready-Represents :
      (d : Option (Manager A)) (xs : List A)
      → Contains d xs
      → Represents (make_manager_if_null c d) xs
  unfolding make_manager_if_null
  ready-Represents none xs e = subst (Represents _) (sym e) record {
    power =
        valid.least.1
        ∙ ap (λ k. 2 ^ k) (sym (ap c.bit_scan_reverse valid.least.1 ∙ valid.scan valid.least.0));
    mask = (let z = two_pow-pos valid.least.0 in omega (arith, z, valid.least.1));
    spine = omega arith;
    elements = refl;
    count = refl;
  }
  ready-Represents (some m) xs holds = holds

  module _ (d : Option (Manager A)) (xs : List A) (holds : Contains d xs) where
    -- The manager that the operation works on.
    ready : Makes (update_bucket_size c (make_manager_if_null c d)) xs
    ready =
        update_bucket_size-Rearranged c valid (make_manager_if_null c d) xs
          (ready-Represents d xs holds)

    -- On a null pointer as the empty list, or on a manager that represents `xs`, `emplace` of `v`
    -- at a position that is at most the length of `xs`, after a change of the bucket size or
    -- without, succeeds and gives a manager that represents `xs` with `v` inserted at the position.
    pub emplace-Makes :
        (pos : ℕ) (v : A) → pos ≤ length xs → Makes (emplace c pos v d) (emplace_at pos v xs)
    unfolding emplace
    emplace-Makes pos v h =
        let r = ready in
        let q = insert-Represents r.0 xs r.2 pos v h in (q.0, rw (emplace, r.1) q.1, q.2)

    pub emplace_ends-Makes :
        (v : A) → Makes (emplace_back c v d) (xs ++ v ∷ []) × Makes (emplace_front c v d) (v ∷ xs)
    unfolding emplace_back emplace_front
    emplace_ends-Makes v =
        let r = ready in
        (
          (
            BucketManager.emplace_back v r.0,
            rw (emplace_back, r.1) refl,
            emplace_back-Represents r.0 xs v r.2,
          ),
          (
            BucketManager.emplace_front v r.0,
            rw (emplace_front, r.1) refl,
            emplace_front-Represents r.0 xs v r.2,
          ),
        )

    pub pop-Makes :
        0 < length xs
        → Makes (pop_back c d) (erase_at (length xs - 1) xs) × Makes (pop_front c d) (erase_at 0 xs)
    unfolding pop_back pop_front
    pop-Makes h =
        let r = ready in
        let back = pop_back-Represents r.0 xs r.2 h in
        let front = pop_front-Represents r.0 xs r.2 h in
        (
          (back.0, rw (pop_back, r.1) back.1, back.2),
          (front.0, rw (pop_front, r.1) front.1, front.2),
        )

  pub erase-Makes :
      (m : Manager A) (xs : List A) (pos : ℕ)
      → Represents m xs
      → pos < length xs
      → Makes (erase c pos (some m)) (erase_at pos xs)
  unfolding erase
  erase-Makes m xs pos holds h =
      let r = update_bucket_size-Rearranged c valid m xs holds in
      let q = erase-Represents r.0 xs r.2 (omega arith) pos h in (q.0, rw (erase, r.1) q.1, q.2)
