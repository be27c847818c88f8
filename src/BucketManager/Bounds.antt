-- ===== src/BucketManager/Bounds.antt =====
-- How much storage the buckets take.
use native.Mathlib.Nat.{add-mul}
use seq.Prelude.{
  ℕ, suc, ◌+◌, ◌*◌, ◌<◌, ◌≡◌, refl, ap, ◌∙◌, arith, List, [], ◌∷◌, length, length-append,
  length-map, concat,
}
use seq.BucketManager.{Manager}
use seq.BucketManager.Spine.{Tail, Spine}
use seq.BucketManager.Locate.{sizes, Represents}
use seq.BucketManager.Ends.{Represents-positive}

abbrev total : List ℕ → ℕ
total [] = 0
total (l ∷ ls) = l + total ls

total-sizes : {A : Type 0} (bs : List (List A)) → total (sizes bs) ≡ length (concat bs)
total-sizes [] = refl
total-sizes (b ∷ bs) = omega (arith, total-sizes bs, length-append b (concat bs))

suc-times : (k n : ℕ) → suc k * n ≡ k * n + n
suc-times k n =
    ap (λ j. j * n) (let e : suc k ≡ k + 1 = omega arith in e) ∙ add-mul k 1 n ∙ omega arith

Tail-total : (n : ℕ) (ls : List ℕ) → Tail n ls → length ls * n < total ls + n
Tail-total n [] t = absurd t
Tail-total n (l ∷ []) t = omega (arith, t.0, suc-times 0 n)
Tail-total n (l ∷ k ∷ ls) t =
    omega (arith, t.0, suc-times (length (k ∷ ls)) n, Tail-total n (k ∷ ls) t.1)

Spine-total : (n : ℕ) (ls : List ℕ) → 0 < n → Spine n ls → length ls * n < total ls + 2 * n
Spine-total n [] h t = omega arith
Spine-total n (l ∷ []) h t = omega (arith, suc-times 0 n)
Spine-total n (l ∷ k ∷ ls) h t =
    omega (arith, t.0, suc-times (length (k ∷ ls)) n, Tail-total n (k ∷ ls) t.2)

-- The buckets of a manager that represents `xs` have room for fewer elements than the length of
-- `xs` and two buckets.
pub buckets-length_lt :
    {A : Type 0} (m : Manager A) (xs : List A)
    → Represents m xs
    → length m.buckets * m.bucket_size < length xs + 2 * m.bucket_size
buckets-length_lt m xs holds = omega (
  arith,
  Spine-total m.bucket_size (sizes m.buckets) (Represents-positive m xs holds) holds.spine,
  ap (λ k. k * m.bucket_size) (length-map length m.buckets),
  total-sizes m.buckets,
  ap length holds.elements,
)
