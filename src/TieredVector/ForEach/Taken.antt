-- ===== src/TieredVector/ForEach/Taken.antt =====
-- `for_each_bucket` gives the values between two positions.
use seq.Prelude.{
  ℕ, zero, suc, ◌+◌, ◌-◌, ◌≤◌, ◌<◌, ◌≡◌, refl, ap, ap₂, sym, ◌∙◌, subst, ◌⊎◌, inl, inr, Bool-cases,
  some, ◌==◌, ltb, List, [], ◌∷◌, ◌++◌, append-nil, length, concat, take, drop, get_elem?,
  get_elem?-lt, arith,
}
use seq.TieredVector.ForEach.{Old, bucket_at, moved, visit, to_copy, visit_buckets}
use seq.TieredVector.ForEach.Parts.{drop-elem, drop-drop, take-split}
use seq.TieredVector.ForEach.Visited.{
  offset, get_elem?-offset, offset-suc, offset-lt, Alive, destroy_bucket-bucket_at,
}

elem-lt : {A : Type 0} (xs : List A) (i : ℕ) (x : A) → get_elem? xs i ≡ some x → i < length xs
elem-lt [] i x e = absurd cc
elem-lt (y ∷ xs) zero x e = omega arith
elem-lt (y ∷ xs) (suc i) x e = omega (arith, elem-lt xs i x e)

to_copy-cases :
    (r size p : ℕ)
    → p ≤ size
    → (p + to_copy r size p ≤ size)
      × (to_copy r size p ≤ r)
      × ((to_copy r size p ≡ r) ⊎ ((p + to_copy r size p ≡ size) × (to_copy r size p < r)))
to_copy-cases r size p h = elim (Bool-cases (ltb size p)) [
  | inl wrapped ↦ absurd (ground arith)
  | inr inside ↦ elim (Bool-cases (ltb (size - p) r)) [
    | inl few ↦ rw (inside, few) (omega arith, ground arith, inr (omega arith, ground arith))
    | inr enough ↦ rw (inside, enough) (ground arith, omega arith, inl refl)
  ]
]

module _ {A : Type 0} (bs : List (List A)) (xs : List A) (same : concat bs ≡ xs) where
  -- The buckets from the one that is moved from are there, and it is not behind the position.
  record Ready (old : Old A) (j pos : ℕ) : Type 0 where
    alive : Alive bs old
    index : old.bindex ≤ j
    start : offset old.bindex bs ≤ pos

  moved-Alive :
      (j : ℕ) (old : Old A) (b : List A)
      → Alive bs old
      → old.bindex ≤ j
      → get_elem? bs j ≡ some b
      → (next : Old A) × (moved j old ≡ some next) × Alive bs next × (next.bindex ≡ j)
  moved-Alive j old b alive le e = elim (Bool-cases (j == old.bindex)) [
    | inl here ↦ (old, rw here refl, alive, ground arith)
    | inr there ↦
        let within : old.bindex < length bs = omega (arith, elem-lt bs j b e) in
        let current = get_elem?-lt bs old.bindex within in
        let r =
          destroy_bucket-bucket_at old.bindex old.slots current.0
            (alive old.bindex (omega arith) ∙ current.1) in
        (
          record { slots = r.0; bindex = j },
          rw (there, r.1) refl,
          (λ k l. r.2 k (ground arith) ∙ alive k (omega arith)),
          refl,
        )
  ]

  visit-take :
      (count j p pos : ℕ) (old : Old A) (b : List A)
      → get_elem? bs j ≡ some b
      → p + count ≤ length b
      → pos ≡ offset j bs + p
      → Ready old j pos
      → (next : Old A) × (visit j p count old ≡ some (take count (drop pos xs), next))
        × Ready next j (pos + count)
  visit-take zero j p pos old b e h at ready = (
    old,
    refl,
    record { alive = ready.alive; index = ready.index; start = omega (arith, ready.start) },
  )
  visit-take (suc count) j p pos old b e h at ready =
      let x = get_elem?-lt b p (omega arith) in
      let value : get_elem? xs pos ≡ some x.0 =
        ap₂ get_elem? (sym same) at ∙ get_elem?-offset j bs b p e (omega arith) ∙ x.1 in
      let next = moved-Alive j old b ready.alive ready.index e in
      let after : Ready next.0 j (pos + 1) = record {
        alive = next.2;
        index = omega (arith, next.3);
        start = subst (λ i. offset i bs ≤ pos + 1) (sym next.3) (omega arith);
      } in
      let rest =
        visit-take count j (p + 1) (pos + 1) next.0 b e (omega arith) (omega (arith, at)) after in
      (
        rest.0,
        rw (ready.alive j ready.index ∙ e, x.1, next.1, rest.1, drop-elem xs pos x.0 value) refl,
        record {
          alive = (rest.2).alive;
          index = (rest.2).index;
          start = (let s = (rest.2).start in omega (arith, s));
        },
      )

  visit_buckets_done : (fuel j p : ℕ) (old : Old A) → visit_buckets fuel 0 j p old ≡ some ([], old)
  visit_buckets_done zero j p old = refl
  visit_buckets_done (suc fuel) j p old = refl

  visit_buckets_step :
      (fuel r j p : ℕ) (old next last : Old A) (b ys zs : List A)
      → bucket_at j old.slots ≡ some b
      → visit j p (to_copy (suc r) (length b) p) old ≡ some (ys, next)
      → visit_buckets fuel (suc r - to_copy (suc r) (length b) p) (j + 1) 0 next ≡ some (zs, last)
      → visit_buckets (suc fuel) (suc r) j p old ≡ some (ys ++ zs, last)
  visit_buckets_step fuel r j p old next last b ys zs e f g = rw (e, f, g) refl

  pub visit_buckets-take :
      (fuel r j p pos : ℕ) (old : Old A) (b : List A)
      → get_elem? bs j ≡ some b
      → p ≤ length b
      → pos ≡ offset j bs + p
      → pos + r ≤ length xs
      → length bs ≤ fuel + j
      → Alive bs old
      → old.bindex ≤ j
      → offset old.bindex bs ≤ pos
      → (next : Old A) × (visit_buckets fuel r j p old ≡ some (take r (drop pos xs), next))
        × Alive bs next
        × (offset next.bindex bs ≤ pos + r)
  visit_buckets-take fuel zero j p pos old b e h at fits enough alive index start =
      (old, visit_buckets_done fuel j p old, alive, omega arith)
  visit_buckets-take zero (suc r) j p pos old b e h at fits enough alive index start =
      absurd (omega (arith, elem-lt bs j b e))
  visit_buckets-take (suc fuel) (suc r) j p pos old b e h at fits enough alive index start =
      let t = to_copy (suc r) (length b) p in
      let cases = to_copy-cases (suc r) (length b) p h in
      let v =
        visit-take t j p pos old b e cases.0 at
          (record { alive = alive; index = index; start = start }) in
      let here = alive j index ∙ e in
      elim cases.2 [
        | inl all ↦
            let none_left : suc r - t ≡ 0 = omega (arith, all) in
            let rest : visit_buckets fuel (suc r - t) (j + 1) 0 v.0 ≡ some ([], v.0) =
              ap (λ n. visit_buckets fuel n (j + 1) 0 v.0) none_left
              ∙ visit_buckets_done fuel (j + 1) 0 v.0 in
            (
              v.0,
              visit_buckets_step fuel r j p old v.0 v.0 b _ [] here v.1 rest
                  ∙ ap (λ l. some (l, v.0))
                      (append-nil (take t (drop pos xs)) ∙ ap (λ n. take n (drop pos xs)) all),
              (v.2).alive,
              (let s = (v.2).start in omega (arith, s, all)),
            )
        | inr through ↦
            let behind : offset (suc j) bs ≡ pos + t =
              omega (arith, at, through.0, offset-suc j bs b e) in
            let further =
              offset-lt (suc j) bs (omega (arith, behind, through.1, ap length same))
                (omega (arith, elem-lt bs j b e)) in
            let one : suc j ≡ j + 1 = omega arith in
            let rest =
              visit_buckets-take fuel (suc r - t) (j + 1) 0 (pos + t) v.0 further.0
                (subst (λ i. get_elem? bs i ≡ some further.0) one further.1) (omega arith)
                (omega (arith, behind, ap (λ i. offset i bs) one)) (omega (arith, through.1))
                (omega arith) (v.2).alive (let i = (v.2).index in omega (arith, i)) (v.2).start in
            (
              rest.0,
              visit_buckets_step fuel r j p old v.0 rest.0 b _ _ here v.1 rest.1
                  ∙ ap (λ l. some (l, rest.0))
                      (ap (λ l. take t (drop pos xs) ++ take (suc r - t) l)
                          (sym (drop-drop t pos xs))
                        ∙ take-split t (suc r) (drop pos xs) cases.1),
              rest.2,
              omega (arith, rest.3, through.1),
            )
      ]
