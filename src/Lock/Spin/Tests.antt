-- ===== src/Lock/Spin/Tests.antt =====
-- `spinlock` of seq/lock.hpp: three threads.
use seq.Prelude.{ℕ, ◌≡◌, refl, Bool, true, false, List, [], ◌∷◌, replicate, arith}
use seq.Lock.Spin.{SpinCall, lock, try_lock_until, idle, holding, waiting, spin_run}
use seq.Lock.Spin.Holders.{holders, value}
use seq.Lock.Spin.Progress.{Gets, spin_run-Gets}

-- The first thread takes the lock, the second waits for it, and the third reaches its time limit.
abbrev turns : List (ℕ × SpinCall × Bool)
turns =
    (0, lock, false)
    ∷ (1, lock, false)
    ∷ (0, lock, false)
    ∷ (1, lock, false)
    ∷ (2, try_lock_until, false)
    ∷ (2, try_lock_until, false)
    ∷ (2, try_lock_until, true)
    ∷ []

waits_and_gives_up :
    spin_run turns (replicate 3 idle) false ≡ (holding ∷ waiting false ∷ idle ∷ [], true)
waits_and_gives_up = refl

spin_run-Gets_example :
    (holders ((spin_run turns (replicate 3 idle) false).0)
      ≡ value ((spin_run turns (replicate 3 idle) false).1))
    × Gets 3 1
        ((spin_run turns (replicate 3 idle) false).0)
        ((spin_run turns (replicate 3 idle) false).1)
spin_run-Gets_example = spin_run-Gets 3 1 turns (omega arith)
