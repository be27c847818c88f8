-- ===== src/Algorithm/Network/Booleans.antt =====
-- The sorting network of seq/algorithm.hpp on eight Boolean values, all of which are tried.
use seq.Prelude.{
  ◌≡◌, refl, Bool, true, false, not, ◌&&◌, ℕ, zero, suc, List, [], ◌∷◌, length, arith,
}
use seq.Algorithm.Network.{network_sort_8}

abbrev pub below : Bool → Bool → Bool
below a b = not a && b

-- A property of all lists of a length.
abbrev every : ℕ → (List Bool → Bool) → Bool
every zero p = p []
every (suc n) p = every n (λ bs. p (true ∷ bs)) && every n (λ bs. p (false ∷ bs))

pub and-left : (a b : Bool) → (a && b) ≡ true → a ≡ true
and-left true b e = refl
and-left false b e = e

pub and-right : (a b : Bool) → (a && b) ≡ true → b ≡ true
and-right true b e = e
and-right false b e = absurd cc

every-holds :
    (n : ℕ) (p : List Bool → Bool) (bs : List Bool) → every n p ≡ true → length bs ≡ n → p bs ≡ true
every-holds zero p [] e h = e
every-holds zero p (b ∷ bs) e h = absurd (omega arith)
every-holds (suc n) p [] e h = absurd (omega arith)
every-holds (suc n) p (true ∷ bs) e h =
    every-holds n (λ l. p (true ∷ l)) bs (and-left _ _ e) (omega arith)
every-holds (suc n) p (false ∷ bs) e h =
    every-holds n (λ l. p (false ∷ l)) bs (and-right _ _ e) (omega arith)

abbrev pub all_true : List Bool → Bool
all_true [] = true
all_true (b ∷ bs) = b && all_true bs

-- Nothing but `true` stands behind a `true`.
abbrev pub rising : List Bool → Bool
rising [] = true
rising (true ∷ bs) = all_true bs
rising (false ∷ bs) = rising bs

all_rising : every 8 (λ bs. rising (network_sort_8 below bs)) ≡ true
all_rising = refl

pub network_sort_8-rising :
    (bs : List Bool) → length bs ≡ 8 → rising (network_sort_8 below bs) ≡ true
network_sort_8-rising bs h = every-holds 8 (λ l. rising (network_sort_8 below l)) bs all_rising h
