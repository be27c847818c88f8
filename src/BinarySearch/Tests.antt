-- ===== src/BinarySearch/Tests.antt =====
-- seq/internal/binary_search.hpp: searches in a small list.
use mathlib.Core.Option.{some-injective}
use seq.Prelude.{
  ap, sym, ◌∙◌, ℕ, zero, suc, ◌≡◌, refl, Bool, true, false, not, some, List, [], ◌∷◌, get_elem?,
  arith, ltb, if◌then◌else◌,
}
use seq.BinarySearch.{halving, Sign, negative, null, positive, lower_bound, lower_bound_arithmetic}
use seq.BinarySearch.Bound.{Partitioned, Finds}
use seq.BinarySearch.Comparing.{Sorted, is_positive, is_negative}
use seq.BinarySearch.Halving.{lower_bound-Finds}
use seq.BinarySearch.Probing.{lower_bound_arithmetic-Finds}

abbrev keys : List ℕ
keys = 1 ∷ 3 ∷ 3 ∷ 5 ∷ []

-- The searched key is 3.
abbrev before_three : ℕ → Bool
before_three x = ltb x 3

abbrev compare_three : ℕ → Sign
compare_three x = if ltb x 3 then negative else if ltb 3 x then positive else null

module _ (le : ℕ → Bool) where
  abbrev Behind : List ℕ → Type 0
  Behind xs = (i : ℕ) (x : ℕ) → get_elem? xs i ≡ some x → le x ≡ false

  nil-Behind : Behind []
  nil-Behind i x at = cc

  cons-Behind : (y : ℕ) (xs : List ℕ) → le y ≡ false → Behind xs → Behind (y ∷ xs)
  cons-Behind y xs f b zero x at = ap le (sym (some-injective y x at)) ∙ f
  cons-Behind y xs f b (suc i) x at = b i x at

  Behind-Partitioned : (xs : List ℕ) → Behind xs → Partitioned le xs
  Behind-Partitioned xs b i j x y ai aj h k = let f = b j y aj in cc

  cons-Partitioned :
      (z : ℕ) (xs : List ℕ) → le z ≡ true → Partitioned le xs → Partitioned le (z ∷ xs)
  cons-Partitioned z xs f p zero j x y ai aj h k = ap le (sym (some-injective z x ai)) ∙ f
  cons-Partitioned z xs f p (suc i) zero x y ai aj h k = absurd (omega arith)
  cons-Partitioned z xs f p (suc i) (suc j) x y ai aj h k = p i j x y ai aj (omega arith) k

  none_of : (a b c : ℕ) → le a ≡ false → le b ≡ false → le c ≡ false → Behind (a ∷ b ∷ c ∷ [])
  none_of a b c f g h =
      cons-Behind a (b ∷ c ∷ []) f (cons-Behind b (c ∷ []) g (cons-Behind c [] h nil-Behind))

keys-Partitioned : Partitioned before_three keys
keys-Partitioned =
    cons-Partitioned before_three 1 (3 ∷ 3 ∷ 5 ∷ []) refl
      (Behind-Partitioned before_three (3 ∷ 3 ∷ 5 ∷ []) (none_of before_three 3 3 5 refl refl refl))

abbrev less_three : ℕ → Bool
less_three x = is_negative (compare_three x)

abbrev upto_three : ℕ → Bool
upto_three x = not (is_positive (compare_three x))

keys-Sorted : Sorted compare_three keys
keys-Sorted = record {
  first =
      cons-Partitioned less_three 1 (3 ∷ 3 ∷ 5 ∷ []) refl
        (Behind-Partitioned less_three (3 ∷ 3 ∷ 5 ∷ []) (none_of less_three 3 3 5 refl refl refl));
  last = cons-Partitioned upto_three 1 (3 ∷ 3 ∷ 5 ∷ []) refl (
      cons-Partitioned upto_three 3 (3 ∷ 5 ∷ []) refl (
        cons-Partitioned upto_three 3 (5 ∷ []) refl (
          Behind-Partitioned upto_three (5 ∷ [])
            (cons-Behind upto_three 5 [] refl (nil-Behind upto_three)))));
}

lower_bound_found : lower_bound before_three keys ≡ some 1
unfolding halving
lower_bound_found = refl

lower_bound-Finds_example : Finds before_three keys (lower_bound before_three keys)
lower_bound-Finds_example = lower_bound-Finds before_three keys keys-Partitioned

lower_bound_arithmetic-Finds_example :
    Finds before_three keys (lower_bound_arithmetic 1 before_three keys)
lower_bound_arithmetic-Finds_example =
    lower_bound_arithmetic-Finds before_three keys keys-Partitioned 1 (omega arith)
