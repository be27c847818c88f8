-- ===== src/TieredVector/Fill.antt =====
-- The loop that fills the buckets of a new manager.
use native.Mathlib.Nat.{div-add-mod', div-eq_of_lt, mod-eq_of_lt, mod-lt}
use seq.Prelude.{
  ℕ, zero, suc, ◌+◌, ◌-◌, ◌*◌, ◌/◌, ◌%◌, ◌≤◌, ◌<◌, ◌≡◌, refl, ap, ap₂, sym, ◌∙◌, subst, inl, inr,
  true, false, Bool-cases, Option, some, List, [], ◌∷◌, ◌++◌, append-nil, length, length-append,
  length-take_le, length-drop, take, drop, concat, get_elem?, get_elem?-lt, arith, ltb, ltb-false,
  ◌==◌, if◌then◌else◌,
}
use seq.BucketManager.{Manager, bucket_index, bucket_pos}
use seq.BucketManager.Spine.{Tail, Spine}
use seq.BucketManager.Locate.{sizes, Represents, Represents-Located, at-get_elem?}
use seq.TieredVector.{read_range, fill, buckets_for}
use seq.TieredVector.ForEach.{Old, for_each_bucket}
use seq.TieredVector.ForEach.Parts.{drop-elem, drop-drop, take-split}
use seq.TieredVector.ForEach.Visited.{offset, offset-le, Alive}
use seq.TieredVector.ForEach.Taken.{visit_buckets-take}

-- Buckets behind a full one.
pub Tail-Spine : (n : ℕ) (ls : List ℕ) → 0 < n → Tail n (n ∷ ls) → Spine n ls
Tail-Spine n [] h t = omega arith
Tail-Spine n (l ∷ []) h t = t.1.1
Tail-Spine n (l ∷ k ∷ ls) h t = (omega (arith, t.1.0), omega (arith, t.1.0), t.1.1)

-- So many buckets are enough.
pub buckets_for_lem : (size n : ℕ) → 0 < n → size ≤ buckets_for size n * n
unfolding buckets_for
buckets_for_lem size n z = elim (Bool-cases (size % n == 0)) [
  | inl even ↦
      let e : (size / n + 0) * n ≡ size / n * n = omega arith in
      rw (buckets_for, even) (ground (arith, div-add-mod' size n, e))
  | inr odd ↦
      let e : (size / n + 1) * n ≡ size / n * n + n = omega arith in
      let rest : size % n < n = mod-lt size z in
      rw (buckets_for, odd) (ground (arith, div-add-mod' size n, e, rest))
]

pub buckets_for-pos : (size n : ℕ) → 0 < n → (buckets_for size n == 0) ≡ false → 0 < size
unfolding buckets_for
buckets_for-pos zero n z some_bucket =
    let quotient : 0 / n ≡ 0 = div-eq_of_lt z in
    let remainder : 0 % n ≡ 0 = mod-eq_of_lt z in
    let e : buckets_for 0 n ≡ 0 = rw (buckets_for, quotient, remainder) refl in
    absurd (ground arith)
buckets_for-pos (suc size) n z some_bucket = omega arith

module _ {A : Type 0} where
  elem-append :
      (l : List (List A)) (b : List A) (r : List (List A))
      → get_elem? (l ++ b ∷ r) (length l) ≡ some b
  elem-append [] b r = refl
  elem-append (c ∷ l) b r = elem-append l b r

  offset-append :
      (l : List (List A)) (b : List A) (r : List (List A))
      → offset (length l) (l ++ b ∷ r) ≡ length (concat l)
  offset-append [] b r = refl
  offset-append (c ∷ l) b r = omega (arith, offset-append l b r, length-append c (concat l))

module _ {A : Type 0} (m : Manager A) (xs : List A) (holds : Represents m xs) where
  pub read_range-take :
      (pos count : ℕ)
      → pos + count ≤ length xs
      → read_range m pos count ≡ some (take count (drop pos xs))
  unfolding read_range
  read_range-take pos zero h = refl
  read_range-take pos (suc count) h =
      let e = get_elem?-lt xs pos (omega arith) in
      let here = at-get_elem? m xs holds pos (omega arith) ∙ e.1 in
      rw (read_range, here, read_range-take (pos + 1) count (omega arith), drop-elem xs pos e.0 e.1)
        refl

  -- The old manager is read behind a position only.
  abbrev pub Left : Old A → ℕ → Type 0
  Left old pos = Alive m.buckets old × (offset old.bindex m.buckets ≤ pos)

  -- The bucket of a position is there, and does not begin behind it.
  pub place_of :
      (start : ℕ)
      → start < length xs
      → (bucket_index m start < length m.buckets)
        × (offset (bucket_index m start) m.buckets ≤ start)
  place_of start h =
      let l = Represents-Located m xs holds start h in
      let place : offset (bucket_index m start) m.buckets ≡ length (concat l.before) =
        ap₂ offset (sym l.found) l.split ∙ offset-append l.before l.bucket l.behind in
      (
        omega (arith, l.found, ap length l.split, length-append l.before (l.bucket ∷ l.behind)),
        omega (arith, l.position, place),
      )

  for_each_bucket-take :
      (start end : ℕ) (old : Old A)
      → start < end
      → end ≤ length xs
      → Left old start
      → (next : Old A) × (for_each_bucket m start end old
          ≡ some (take (end - start) (drop start xs), next))
        × Left next (start + (end - start))
  unfolding for_each_bucket
  for_each_bucket-take start end old some_left fits left =
      let l = Represents-Located m xs holds start (omega arith) in
      let j = bucket_index m start in
      let e : get_elem? m.buckets j ≡ some l.bucket =
        ap₂ get_elem? l.split (sym l.found) ∙ elem-append l.before l.bucket l.behind in
      let place : offset j m.buckets ≡ length (concat l.before) =
        ap₂ offset (sym l.found) l.split ∙ offset-append l.before l.bucket l.behind in
      let at : start ≡ offset j m.buckets + bucket_pos m start = omega (arith, l.position, place) in
      let within = l.within in
      let r =
        visit_buckets-take m.buckets xs holds.elements (length m.buckets) (end - start) j
          (bucket_pos m start) start old l.bucket e (omega (arith, within)) at (omega arith)
          (omega arith) left.0
          (offset-le old.bindex j m.buckets l.bucket start left.1 (omega (arith, at, within)) e)
          left.1 in
      (r.0, r.1, (r.2, r.3))

  fill_done :
      (fuel n pos end_pos : ℕ) (old : Old A)
      → ltb pos end_pos ≡ false
      → fill fuel n pos end_pos m old ≡ some ([], old)
  unfolding fill
  fill_done zero n pos end_pos old h = rw (fill, h) refl
  fill_done (suc fuel) n pos end_pos old h = rw (fill, h) refl

  -- The buckets that the loop fills.
  abbrev pub Fills : ℕ → ℕ → ℕ → Option (List (List A) × Old A) → Type 0
  Fills n pos end_pos o =
      (bs : List (List A)) × (last : Old A) × (o ≡ some (bs, last))
      × (concat bs ≡ take (end_pos - pos) (drop pos xs))
      × Tail n (n ∷ sizes bs)

  done_Fills :
      (fuel n pos end_pos : ℕ) (old : Old A)
      → 0 < n
      → ltb pos end_pos ≡ false
      → Fills n pos end_pos (fill fuel n pos end_pos m old)
  done_Fills fuel n pos end_pos old z done =
      let nothing : end_pos - pos ≡ 0 = ground arith in
      (
        [],
        old,
        fill_done fuel n pos end_pos old done,
        sym (ap (λ k. take k (drop pos xs)) nothing),
        (z, omega arith),
      )

  fill_step :
      (fuel n pos end_pos end : ℕ) (old next last : Old A) (b : List A) (bs : List (List A))
      → ltb pos end_pos ≡ true
      → (if ltb end_pos (pos + n) then end_pos else pos + n) ≡ end
      → for_each_bucket m pos end old ≡ some (b, next)
      → fill fuel n (pos + (end - pos)) end_pos m next ≡ some (bs, last)
      → fill (suc fuel) n pos end_pos m old ≡ some (b ∷ bs, last)
  unfolding fill
  fill_step fuel n pos end_pos end old next last b bs more to read rest =
      rw (fill, more, to, read, rest) refl

  pub fill-Fills :
      (fuel n pos end_pos : ℕ) (old : Old A)
      → 0 < n
      → end_pos ≤ length xs
      → end_pos ≤ pos + fuel * n
      → Left old pos
      → Fills n pos end_pos (fill fuel n pos end_pos m old)
  fill-Fills zero n pos end_pos old z h enough left =
      done_Fills zero n pos end_pos old z (ltb-false pos end_pos (omega arith))
  fill-Fills (suc fuel) n pos end_pos old z h enough left = elim (Bool-cases (ltb pos end_pos)) [
    | inr done ↦ done_Fills (suc fuel) n pos end_pos old z done
    | inl more ↦ elim (Bool-cases (ltb end_pos (pos + n))) [
      | inl last ↦
          let read = for_each_bucket-take pos end_pos old (ground arith) h left in
          let count =
            length-take_le (end_pos - pos) (drop pos xs) (ground (arith, length-drop pos xs)) in
          let stop = ltb-false (pos + (end_pos - pos)) end_pos (ground arith) in
          (
            take (end_pos - pos) (drop pos xs) ∷ [],
            read.0,
            fill_step fuel n pos end_pos end_pos old read.0 read.0 _ [] more (rw last refl) read.1
                (fill_done fuel n (pos + (end_pos - pos)) end_pos read.0 stop),
            append-nil (take (end_pos - pos) (drop pos xs)),
            (refl, (ground (arith, count), ground (arith, count))),
          )
      | inr full ↦
          let within : pos + n ≤ end_pos = ground arith in
          let step : suc fuel * n ≡ n + fuel * n = omega arith in
          let size : pos + n - pos ≡ n = omega arith in
          let read = for_each_bucket-take pos (pos + n) old (omega arith) (omega arith) left in
          let next = pos + (pos + n - pos) in
          let rest = fill-Fills fuel n next end_pos read.0 z h (omega arith) read.2 in
          let b = take (pos + n - pos) (drop pos xs) in
          let count : length b ≡ n =
            length-take_le (pos + n - pos) (drop pos xs) (omega (arith, length-drop pos xs))
            ∙ size in
          let left : end_pos - next ≡ end_pos - pos - (pos + n - pos) = omega arith in
          (
            b ∷ rest.0,
            rest.1,
            fill_step fuel n pos end_pos (pos + n) old read.0 rest.1 b rest.0 more (rw full refl)
                read.1 rest.2,
            ap (λ l. b ++ l) (rest.3 ∙ ap₂ take left (sym (drop-drop (pos + n - pos) pos xs)))
                ∙ take-split (pos + n - pos) (end_pos - pos) (drop pos xs) (omega arith),
            (refl, subst (λ l. Tail n (l ∷ sizes rest.0)) (sym count) rest.4),
          )
    ]
  ]
