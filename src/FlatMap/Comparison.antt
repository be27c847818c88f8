-- ===== src/FlatMap/Comparison.antt =====
-- seq/flat_map.hpp: what the template arguments of `flat_tree` supply, and the laws that a user's
-- comparison has to keep.
use seq.Prelude.{ℕ, ◌≡◌, Bool, true, false, Option, List}
use seq.TieredVector.{Config}
use seq.TieredVector.BucketSize.{IsValid}
use seq.BinarySearch.{lower_bound, lower_bound_arithmetic}
use seq.BinarySearch.Bound.{Partitioned, Finds}

-- `less` is the comparison, `key` the key in an element, `lower_bound` the search in a range, and
-- `deque` what configures the `tiered_vector`.
pub record TreeTraits (K A : Type 0) : Type 0 where
  pub less : K → K → Bool
  pub key : A → K
  pub lower_bound : (A → Bool) → List A → Option ℕ
  pub deque : Config

module _ {K : Type 0} {A : Type 0} where
  -- `less` is a strict weak order, and the search finds the bound.
  pub record Lawful (t : TreeTraits K A) : Type 0 where
    pub asymmetric : (a b : K) → t.less a b ≡ true → t.less b a ≡ false
    pub cotransitive : (a b c : K) → t.less a b ≡ true → t.less a c ≡ false → t.less c b ≡ true
    pub finds :
        (le : A → Bool) (xs : List A) → Partitioned le xs → Finds le xs (t.lower_bound le xs)
    pub valid : IsValid t.deque

  -- The traits with one of the two searches that need no comparison to a sign.
  abbrev pub halving_traits : Config → (K → K → Bool) → (A → K) → TreeTraits K A
  halving_traits c less key = record {
    less = less;
    key = key;
    lower_bound = lower_bound;
    deque = c;
  }

  abbrev pub probing_traits : Config → ℕ → (K → K → Bool) → (A → K) → TreeTraits K A
  probing_traits c end_of_probe less key = record {
    less = less;
    key = key;
    lower_bound = lower_bound_arithmetic end_of_probe;
    deque = c;
  }
