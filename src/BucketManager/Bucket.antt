-- ===== src/BucketManager/Bucket.antt =====
-- The operations of `CircularBuffer`, on the list that a bucket contains.
use seq.Prelude.{ℕ, ◌+◌, ◌-◌, Option, none, some, List, [], ◌∷◌, ◌++◌, take, drop, unsnoc}

module _ {A : Type 0} where
  abbrev pub emplace_at : ℕ → A → List A → List A
  emplace_at i v xs = take i xs ++ v ∷ drop i xs

  abbrev pub insert_pop_back : ℕ → A → List A → Option (A × List A)
  insert_pop_back i v xs = elim (unsnoc xs) [
    | none ↦ none
    | some r ↦ some (r.1, emplace_at i v r.0)
  ]

  abbrev pub insert_pop_front : ℕ → A → List A → Option (A × List A)
  insert_pop_front i v [] = none
  insert_pop_front i v (x ∷ xs) = some (x, emplace_at (i - 1) v xs)

  abbrev pub push_front_pop_back : A → List A → Option (A × List A)
  push_front_pop_back v xs = elim (unsnoc xs) [ none ↦ none | some r ↦ some (r.1, v ∷ r.0) ]

  abbrev pub push_back_pop_front : A → List A → Option (A × List A)
  push_back_pop_front v [] = none
  push_back_pop_front v (x ∷ xs) = some (x, xs ++ v ∷ [])

  abbrev pub erase_at : ℕ → List A → List A
  erase_at i xs = take i xs ++ drop (i + 1) xs
