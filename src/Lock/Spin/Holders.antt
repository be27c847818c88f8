-- ===== src/Lock/Spin/Holders.antt =====
-- `spinlock` of seq/lock.hpp: how many threads hold the lock.
use seq.Prelude.{
  ◌≡◌, refl, Bool, true, false, ℕ, zero, suc, ◌+◌, List, [], ◌∷◌, replicate, if◌then◌else◌, arith,
}
use seq.Lock.Spin.{
  SpinCall, lock, try_lock, try_lock_until, SpinPhase, idle, trying, holding, exchanging, waiting,
  spin_step, spin_step_at, spin_run,
}

abbrev pub holds : SpinPhase → ℕ
holds holding = 1
holds _ = 0

abbrev pub holders : List SpinPhase → ℕ
holders [] = 0
holders (p ∷ ps) = holds p + holders ps

abbrev pub value : Bool → ℕ
value locked = if locked then 1 else 0

spin_step-holds :
    (call : SpinCall) (late : Bool) (p : SpinPhase) (locked : Bool) (k : ℕ)
    → holds p + k ≡ value locked
    → holds ((spin_step call late p locked).0) + k ≡ value ((spin_step call late p locked).1)
spin_step-holds lock late idle locked k e = e
spin_step-holds try_lock late idle true k e = e
spin_step-holds try_lock late idle false k e = e
spin_step-holds try_lock_until late idle locked k e = e
spin_step-holds call late trying true k e = e
spin_step-holds call late trying false k e = omega (arith, e)
spin_step-holds call late (exchanging timed) true k e = e
spin_step-holds call late (exchanging timed) false k e = omega (arith, e)
spin_step-holds call late (waiting timed) false k e = e
spin_step-holds call late (waiting false) true k e = e
spin_step-holds call true (waiting true) true k e = e
spin_step-holds call false (waiting true) true k e = e
spin_step-holds call late holding true k e = omega (arith, e)
spin_step-holds call late holding false k e = absurd (omega (arith, e))

spin_step_at-holders :
    (i : ℕ) (call : SpinCall) (late : Bool) (ps : List SpinPhase) (locked : Bool) (k : ℕ)
    → holders ps + k ≡ value locked
    → holders ((spin_step_at i call late ps locked).0) + k
      ≡ value ((spin_step_at i call late ps locked).1)
spin_step_at-holders i call late [] locked k e = e
spin_step_at-holders zero call late (p ∷ ps) locked k e =
    let next = spin_step-holds call late p locked (holders ps + k) (omega (arith, e)) in
    omega (arith, next)
spin_step_at-holders (suc i) call late (p ∷ ps) locked k e =
    let next = spin_step_at-holders i call late ps locked (holds p + k) (omega (arith, e)) in
    omega (arith, next)

pub spin_run-holders :
    (ts : List (ℕ × SpinCall × Bool)) (ps : List SpinPhase) (locked : Bool)
    → holders ps ≡ value locked
    → holders ((spin_run ts ps locked).0) ≡ value ((spin_run ts ps locked).1)
spin_run-holders [] ps locked e = e
spin_run-holders (t ∷ ts) ps locked e =
    let next = spin_step_at-holders t.0 t.1 t.2 ps locked 0 (omega (arith, e)) in
    spin_run-holders ts _ _ (omega (arith, next))

pub holders-replicate : (n : ℕ) → holders (replicate n idle) ≡ 0
holders-replicate zero = refl
holders-replicate (suc n) = omega (arith, holders-replicate n)
