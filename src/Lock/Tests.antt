-- ===== src/Lock/Tests.antt =====
-- seq/lock.hpp: two threads that write and one that reads.
use seq.Prelude.{ℕ, ◌≡◌, refl, List, [], ◌∷◌, replicate, arith}
use seq.Lock.{Call, lock, lock_shared, idle, writing, refused, leaving, run}
use seq.Lock.Exclusion.{Exclusive, run-Exclusive, run-Released}

-- The first thread takes the lock, between the load and the `fetch_add` of the third; the second
-- fails.
abbrev schedule : List (ℕ × Call)
schedule = (2, lock_shared) ∷ (0, lock) ∷ (0, lock) ∷ (1, lock) ∷ (1, lock) ∷ (2, lock_shared) ∷ []

late_reader : run 65536 schedule (replicate 3 idle) 0 ≡ (writing ∷ refused 1 ∷ leaving ∷ [], 5)
late_reader = refl

run-Exclusive_example : Exclusive ((run 65536 schedule (replicate 3 idle) 0).0)
run-Exclusive_example = run-Exclusive 65536 3 schedule (omega arith)

-- Both writers take the lock, one after the other.
abbrev turns : List (ℕ × Call)
turns =
    (0, lock)
    ∷ (0, lock)
    ∷ (1, lock)
    ∷ (1, lock)
    ∷ (1, lock)
    ∷ (0, lock)
    ∷ (1, lock)
    ∷ (1, lock)
    ∷ (1, lock)
    ∷ (1, lock)
    ∷ []

run-Released_example : (run 65536 turns (replicate 2 idle) 0).1 ≡ 0
run-Released_example = run-Released 65536 2 2 turns (omega arith) refl
