-- ===== src/Lock/Spin/Progress.antt =====
-- `spinlock` of seq/lock.hpp: the steps of one thread and of another, and how a thread gets the
-- lock.
use mathlib.Core.Option.{some-injective}
use seq.Prelude.{
  ◌≡◌, refl, ap, sym, subst, ◌∙◌, ◌⊎◌, inl, inr, Bool, true, false, Bool-cases, ℕ, zero, suc, ◌≤◌,
  ◌<◌, some, List, [], ◌∷◌, length, get_elem?, get_elem?-lt, replicate, length-replicate, ◌==◌,
  arith,
}
use seq.Lock.Spin.Holders.{holds, holders, value, spin_run-holders, holders-replicate}
use seq.Lock.Spin.{
  SpinCall, lock, SpinPhase, idle, trying, holding, exchanging, waiting, spin_step, spin_step_at,
  spin_run,
}

spin_step_at-own :
    (i : ℕ) (call : SpinCall) (late : Bool) (ps : List SpinPhase) (locked : Bool) (p : SpinPhase)
    → get_elem? ps i ≡ some p
    → (get_elem? ((spin_step_at i call late ps locked).0) i
        ≡ some ((spin_step call late p locked).0))
      × ((spin_step_at i call late ps locked).1 ≡ (spin_step call late p locked).1)
spin_step_at-own i call late [] locked p at = absurd cc
spin_step_at-own zero call late (q ∷ ps) locked p at =
    let same = some-injective q p at in
    (
      ap (λ r. some ((spin_step call late r locked).0)) same,
      ap (λ r. (spin_step call late r locked).1) same,
    )
spin_step_at-own (suc i) call late (q ∷ ps) locked p at =
    spin_step_at-own i call late ps locked p at

spin_step_at-other :
    (i j : ℕ) (call : SpinCall) (late : Bool) (ps : List SpinPhase) (locked : Bool)
    → ((i < j) ⊎ (j < i))
    → get_elem? ((spin_step_at j call late ps locked).0) i ≡ get_elem? ps i
spin_step_at-other i j call late [] locked h = refl
spin_step_at-other zero zero call late (p ∷ ps) locked h = absurd (ground (arith, h))
spin_step_at-other zero (suc j) call late (p ∷ ps) locked h = refl
spin_step_at-other (suc i) zero call late (p ∷ ps) locked h = refl
spin_step_at-other (suc i) (suc j) call late (p ∷ ps) locked h =
    spin_step_at-other i j call late ps locked (ground (arith, h))

some_holder : (ps : List SpinPhase) → holders ps ≡ 1 → (j : ℕ) × (get_elem? ps j ≡ some holding)
some_holder [] e = absurd (omega (arith, e))
some_holder (holding ∷ ps) e = (0, refl)
some_holder (idle ∷ ps) e = let r = some_holder ps (omega (arith, e)) in (suc r.0, r.1)
some_holder (trying ∷ ps) e = let r = some_holder ps (omega (arith, e)) in (suc r.0, r.1)
some_holder (exchanging timed ∷ ps) e = let r = some_holder ps (omega (arith, e)) in (suc r.0, r.1)
some_holder (waiting timed ∷ ps) e = let r = some_holder ps (omega (arith, e)) in (suc r.0, r.1)

-- A schedule after which a thread has the lock.
abbrev pub Gets : ℕ → ℕ → List SpinPhase → Bool → Type 0
Gets n i ps locked =
    (ts : List (ℕ × SpinCall × Bool)) × (length ts ≤ n)
    × (get_elem? ((spin_run ts ps locked).0) i ≡ some holding)

Gets-next :
    (n i : ℕ) (t : ℕ × SpinCall × Bool) (ps : List SpinPhase) (locked : Bool)
    → Gets n i ((spin_step_at t.0 t.1 t.2 ps locked).0) ((spin_step_at t.0 t.1 t.2 ps locked).1)
    → Gets (suc n) i ps locked
Gets-next n i t ps locked g = (t ∷ g.0, omega (arith, g.1), g.2)

-- A thread whose next operation takes a free lock.
Gets-now :
    (i : ℕ) (ps : List SpinPhase) (p : SpinPhase)
    → get_elem? ps i ≡ some p
    → (spin_step lock false p false).0 ≡ holding
    → Gets 1 i ps false
Gets-now i ps p at e =
    let own = spin_step_at-own i lock false ps false p at in
    Gets-next 0 i (i, lock, false) ps false ([], omega arith, own.0 ∙ ap some e)

-- A thread whose next operation leads to the `exchange`.
Gets-after :
    (i : ℕ) (ps : List SpinPhase) (p : SpinPhase) (timed : Bool)
    → get_elem? ps i ≡ some p
    → spin_step lock false p false ≡ (exchanging timed, false)
    → Gets 2 i ps false
Gets-after i ps p timed at e =
    let own = spin_step_at-own i lock false ps false p at in
    let free = own.1 ∙ ap (λ r. r.1) e in
    Gets-next 1 i (i, lock, false) ps false
      (subst (Gets 1 i _) (sym free)
        (Gets-now i _ (exchanging timed) (own.0 ∙ ap (λ r. some r.0) e) refl))

Gets-free :
    (i : ℕ) (ps : List SpinPhase) (p : SpinPhase)
    → get_elem? ps i ≡ some p
    → holds p ≡ 0
    → Gets 2 i ps false
Gets-free i ps idle at e = Gets-after i ps idle false at refl
Gets-free i ps (waiting timed) at e = Gets-after i ps (waiting timed) timed at refl
Gets-free i ps trying at e = let g = Gets-now i ps trying at refl in (g.0, omega (arith, g.1), g.2)
Gets-free i ps (exchanging timed) at e =
    let g = Gets-now i ps (exchanging timed) at refl in (g.0, omega (arith, g.1), g.2)
Gets-free i ps holding at e = absurd (omega (arith, e))

holds-cases : (p : SpinPhase) → (p ≡ holding) ⊎ (holds p ≡ 0)
holds-cases idle = inr refl
holds-cases trying = inr refl
holds-cases holding = inl refl
holds-cases (exchanging timed) = inr refl
holds-cases (waiting timed) = inr refl

-- Two threads in different phases are different.
apart :
    (i j : ℕ) (ps : List SpinPhase) (p : SpinPhase)
    → get_elem? ps i ≡ some p
    → get_elem? ps j ≡ some holding
    → holds p ≡ 0
    → (i < j) ⊎ (j < i)
apart i j ps p ai aj e = elim (Bool-cases (i == j)) [
  | inr differ ↦ ground arith
  | inl same ↦
      let k : i ≡ j = ground arith in
      let both = some-injective p holding (sym ai ∙ ap (get_elem? ps) k ∙ aj) in
      let one = ap holds both in absurd (omega (arith, e, one))
]

Gets-always :
    (i : ℕ) (ps : List SpinPhase) (locked : Bool)
    → holders ps ≡ value locked
    → i < length ps
    → Gets 3 i ps locked
Gets-always i ps locked e h =
    let p = get_elem?-lt ps i h in
    elim (holds-cases p.0) [
      | inl held ↦ ([], omega arith, p.1 ∙ ap some held)
      | inr none_held ↦ from_free locked e p.0 p.1 none_held
    ]
  where
    from_free :
        (b : Bool)
        → holders ps ≡ value b
        → (p : SpinPhase) → get_elem? ps i ≡ some p
        → holds p ≡ 0
        → Gets 3 i ps b
    from_free false e' p at z = let g = Gets-free i ps p at z in (g.0, omega (arith, g.1), g.2)
    from_free true e' p at z =
        let j = some_holder ps e' in
        let own = spin_step_at-own j.0 lock false ps true holding j.1 in
        let still = spin_step_at-other i j.0 lock false ps true (apart i j.0 ps p at j.1 z) in
        Gets-next 2 i (j.0, lock, false) ps true
          (subst (Gets 2 i _) (sym own.1) (Gets-free i _ p (still ∙ at) z))

length-spin_step_at :
    (i : ℕ) (call : SpinCall) (late : Bool) (ps : List SpinPhase) (locked : Bool)
    → length ((spin_step_at i call late ps locked).0) ≡ length ps
length-spin_step_at i call late [] locked = refl
length-spin_step_at zero call late (p ∷ ps) locked = refl
length-spin_step_at (suc i) call late (p ∷ ps) locked =
    ap suc (length-spin_step_at i call late ps locked)

length-spin_run :
    (ts : List (ℕ × SpinCall × Bool)) (ps : List SpinPhase) (locked : Bool)
    → length ((spin_run ts ps locked).0) ≡ length ps
length-spin_run [] ps locked = refl
length-spin_run (t ∷ ts) ps locked =
    length-spin_run ts _ _ ∙ length-spin_step_at t.0 t.1 t.2 ps locked

-- For `n` threads that start outside a free `spinlock`, after every schedule of their calls, atomic
-- operations and answers of the clock, the lock is taken if and only if a thread holds it, at most
-- one thread does, and each thread can get the lock: there is a schedule of at most three further
-- steps after which it holds it.
pub spin_run-Gets :
    (n i : ℕ) (ts : List (ℕ × SpinCall × Bool))
    → i < n
    → (holders ((spin_run ts (replicate n idle) false).0)
        ≡ value ((spin_run ts (replicate n idle) false).1))
      × Gets 3 i
          ((spin_run ts (replicate n idle) false).0)
          ((spin_run ts (replicate n idle) false).1)
spin_run-Gets n i ts h =
    let count = spin_run-holders ts (replicate n idle) false (holders-replicate n) in
    let size = length-spin_run ts (replicate n idle) false in
    (count, Gets-always i _ _ count (omega (arith, size, length-replicate n idle)))
