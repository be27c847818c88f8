-- ===== src/TieredVector/Rebuild.antt =====
-- A manager with another bucket size has the same values.
use seq.Prelude.{
  ℕ, ◌+◌, ◌-◌, ◌*◌, ◌^◌, ◌≤◌, ◌<◌, ◌≡◌, refl, ap, sym, ◌∙◌, subst, inl, inr, false, Bool-cases,
  Option, some, map, List, [], ◌∷◌, append-nil, length, length-take_le, length-drop, take, drop,
  take-length_le, concat, arith, ltb, ◌==◌,
}
use seq.CircularBuffer.Masks.{two_pow-pos}
use seq.BucketManager.{Manager, bucket_index}
use seq.BucketManager.Spine.{Spine, Tail}
use seq.BucketManager.Locate.{sizes, Represents}
use seq.TieredVector.{
  Config, buckets_for, fill, rebuilt, rebuild, rebuild_range, set_bucket_size, check_bucket_size,
  due, update_bucket_size, find_bucket_size,
}
use seq.TieredVector.BucketSize.{IsPower, IsValid, find_bucket_size-IsPower}
use seq.TieredVector.Fill.{
  Tail-Spine, buckets_for_lem, buckets_for-pos, read_range-take, place_of, fill-Fills,
}
use seq.TieredVector.ForEach.{Old, destroy_before}
use seq.TieredVector.ForEach.Visited.{destroy_before-bucket_at}

module _ {A : Type 0} where
  -- The result represents the same list.
  abbrev pub Rearranged : List A → Option (Manager A) → Type 0
  Rearranged xs o = (r : Manager A) × (o ≡ some r) × Represents r xs

module _ {A : Type 0} (c : Config) (valid : IsValid c) (m : Manager A) (xs : List A)
    (holds : Represents m xs) where
  rebuilt-Represents :
      (n : ℕ) (bs : List (List A)) (ys : List A)
      → IsPower n
      → Spine n (sizes bs)
      → concat bs ≡ ys
      → Represents (rebuilt c n (length ys) bs) ys
  rebuilt-Represents n bs ys power spine same = record {
    power = power.1 ∙ ap (λ k. 2 ^ k) (sym (ap c.bit_scan_reverse power.1 ∙ valid.scan power.0));
    mask = (let z = two_pow-pos power.0 in omega (arith, z, power.1));
    spine = spine;
    elements = same;
    count = refl;
  }

  -- The loop, behind the destruction of the buckets before the first value.
  refill :
      (n start size : ℕ)
      → 0 < n
      → start + size ≤ length xs
      → 0 < size
      → (slots : List (Option (List A))) × (bs : List (List A)) × (last : Old A) × (destroy_before
            (bucket_index m start)
            (map some m.buckets)
          ≡ some slots)
        × (fill
              (buckets_for size n)
              n
              start
              (start + size)
              m
              (record { slots = slots; bindex = bucket_index m start })
            ≡ some (bs, last))
        × (concat bs ≡ take (start + size - start) (drop start xs))
        × Tail n (n ∷ sizes bs)
  refill n start size z h some_left =
      let p = place_of m xs holds start (omega arith) in
      let before = destroy_before-bucket_at (bucket_index m start) m.buckets (omega (arith, p.0)) in
      let f =
        fill-Fills m xs holds (buckets_for size n) n start (start + size)
          (record { slots = before.0; bindex = bucket_index m start }) z h
          (omega (arith, buckets_for_lem size n z)) (before.2, p.1) in
      (before.0, f.0, f.1, before.1, f.2, f.3, f.4)

  rebuild_range-Represents :
      (n start size : ℕ)
      → IsPower n
      → start + size ≤ length xs
      → (r : Manager A) × (rebuild_range c n start size m ≡ some r)
        × Represents r (take size (drop start xs))
        × (r.bucket_size ≡ n)
  unfolding rebuild_range
  rebuild_range-Represents n start size power h =
      let z : 0 < n = omega (arith, two_pow-pos power.0, power.1) in
      let enough = buckets_for_lem size n z in
      let ys = take size (drop start xs) in
      let count : length ys ≡ size =
        length-take_le size (drop start xs) (omega (arith, length-drop start xs)) in
      elim (Bool-cases (buckets_for size n == 0)) [
        | inl no_bucket ↦
            let nothing : size ≡ 0 =
              (let k : buckets_for size n * n ≡ 0 * n = ap (λ k. k * n) (ground arith) in
                omega (arith, enough, k)) in
            (
              rebuilt c n 0 [],
              rw (rebuild_range, no_bucket) refl,
              subst (Represents (rebuilt c n 0 [])) (sym (ap (λ k. take k (drop start xs)) nothing))
                  (rebuilt-Represents n [] [] power (omega arith) refl),
              refl,
            )
        | inr some_bucket ↦ elim (Bool-cases (buckets_for size n == 1)) [
          | inl single ↦
              let fits : size ≤ n =
                (let k : buckets_for size n * n ≡ 1 * n = ap (λ k. k * n) (ground arith) in
                  omega (arith, enough, k)) in
              let read = read_range-take m xs holds start size h in
              (
                rebuilt c n size (ys ∷ []),
                rw (rebuild_range, some_bucket, single, read) refl,
                subst (λ k. Represents (rebuilt c n k (ys ∷ [])) ys) count
                    (rebuilt-Represents n (ys ∷ []) ys power (omega (arith, count))
                      (append-nil ys)),
                refl,
              )
          | inr several ↦
              let several_values : 0 < size = buckets_for-pos size n z some_bucket in
              let filled = refill n start size z h several_values in
              let off : start + size - start ≡ size = omega arith in
              let same : concat filled.1 ≡ ys = filled.5 ∙ ap (λ k. take k (drop start xs)) off in
              (
                rebuilt c n size filled.1,
                rw (rebuild_range, some_bucket, several, filled.3, filled.4) refl,
                subst (λ k. Represents (rebuilt c n k filled.1) ys) count
                    (rebuilt-Represents n filled.1 ys power
                      (Tail-Spine n (sizes filled.1) z filled.6) same),
                refl,
              )
        ]
      ]

  -- On a manager that represents `xs`, `rebuild` of `size` values from `start` on, which lie in
  -- `xs`, into buckets of a power of two ends with the buckets that it computes beforehand, reads
  -- no old bucket that it has destroyed and no value behind the end of one, and gives a manager
  -- with that bucket size that represents these values.
  pub rebuild-Represents :
      (n start size : ℕ)
      → IsPower n
      → start + size ≤ length xs
      → (r : Manager A) × (rebuild c n start size m ≡ some r)
        × Represents r (take size (drop start xs))
        × (r.bucket_size ≡ n)
  unfolding rebuild
  rebuild-Represents n start size power h =
      let all : ltb m.size size ≡ false = ground (arith, holds.count) in
      let r = rebuild_range-Represents n start size power h in
      (r.0, rw (rebuild, all) r.1, r.2, r.3)

  set_bucket_size-Rearranged : (n : ℕ) → IsPower n → Rearranged xs (set_bucket_size c n m)
  unfolding set_bucket_size
  set_bucket_size-Rearranged n power = elim (Bool-cases (n == m.bucket_size)) [
    | inl same ↦ (m, rw (set_bucket_size, same) refl, holds)
    | inr other ↦
        let r = rebuild-Represents n 0 m.size power (omega (arith, holds.count)) in
        (
          r.0,
          rw (set_bucket_size, other) r.1,
          subst (Represents r.0) (take-length_le m.size xs (omega (arith, holds.count))) r.2,
        )
  ]

  check_bucket_size-Rearranged : Rearranged xs (check_bucket_size c m)
  unfolding check_bucket_size
  check_bucket_size-Rearranged = elim (Bool-cases (find_bucket_size c m.size == m.bucket_size)) [
    | inl same ↦ (m, rw (check_bucket_size, same) refl, holds)
    | inr other ↦
        let r =
          set_bucket_size-Rearranged (find_bucket_size c m.size)
            (find_bucket_size-IsPower c m.size valid).0 in
        (r.0, rw (check_bucket_size, other) r.1, r.2)
  ]

  pub update_bucket_size-Rearranged : Rearranged xs (update_bucket_size c m)
  unfolding update_bucket_size
  update_bucket_size-Rearranged = elim (Bool-cases (due c m.size)) [
    | inl now ↦ let r = check_bucket_size-Rearranged in (r.0, rw (update_bucket_size, now) r.1, r.2)
    | inr later ↦ (m, rw (update_bucket_size, later) refl, holds)
  ]
