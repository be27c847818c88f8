-- ===== src/Lock/Spin.antt =====
-- seq/lock.hpp: `spinlock`. A step of a thread is one atomic operation on the lock's Boolean, with
-- what the clock says at that moment; a schedule says which thread takes the next step.
-- `try_lock_for` is `try_lock_until`, and the shared operations are the others.
pub mod Holders
pub mod Progress
mod Tests
use seq.Prelude.{Bool, true, false, ◌&&◌, ℕ, zero, suc, List, [], ◌∷◌, if◌then◌else◌}

-- What a thread that does not hold the lock calls next.
pub data SpinCall : Type 0 where
  lock try_lock try_lock_until : SpinCall

-- Where a thread is: outside; before the `exchange` of `try_lock`; before the one of `lock` or of
-- `try_lock_until`, which has a time limit; in the inner loop of these; with the lock.
pub data SpinPhase : Type 0 where
  idle trying holding : SpinPhase
  exchanging waiting : Bool → SpinPhase

-- The next atomic operation: `late` is whether the time limit is over.
abbrev pub spin_step : SpinCall → Bool → SpinPhase → Bool → SpinPhase × Bool
spin_step lock late idle locked = (exchanging false, locked)
spin_step try_lock late idle locked = (if locked then idle else trying, locked)
spin_step try_lock_until late idle locked = (exchanging true, locked)
spin_step call late trying locked = (if locked then idle else holding, true)
spin_step call late (exchanging timed) locked = (if locked then waiting timed else holding, true)
spin_step call late (waiting timed) locked =
    (if locked then (if timed && late then idle else waiting timed) else exchanging timed, locked)
spin_step call late holding locked = (idle, false)

-- The thread at an index takes a step.
abbrev pub spin_step_at : ℕ → SpinCall → Bool → List SpinPhase → Bool → List SpinPhase × Bool
spin_step_at i call late [] locked = ([], locked)
spin_step_at zero call late (p ∷ ps) locked =
    let r = spin_step call late p locked in (r.0 ∷ ps, r.1)
spin_step_at (suc i) call late (p ∷ ps) locked =
    let r = spin_step_at i call late ps locked in (p ∷ r.0, r.1)

abbrev pub spin_run : List (ℕ × SpinCall × Bool) → List SpinPhase → Bool → List SpinPhase × Bool
spin_run [] ps locked = (ps, locked)
spin_run (t ∷ ts) ps locked = let r = spin_step_at t.0 t.1 t.2 ps locked in spin_run ts r.0 r.1
