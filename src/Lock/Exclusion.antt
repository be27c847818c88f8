-- ===== src/Lock/Exclusion.antt =====
-- A writer excludes all others, and a lock that nobody holds or waits for is free.
use seq.Prelude.{
  ℕ, zero, suc, ◌+◌, ◌*◌, ◌≤◌, ◌<◌, ◌≡◌, ◌⊎◌, ◌∙◌, ap, refl, inl, List, [], ◌∷◌, length, replicate,
  length-replicate, arith,
}
use seq.Lock.{
  Call, Phase, idle, attempting, writing, arriving, leaving, reading, trying, refused, step_at, run,
}
use seq.Lock.Consistent.{waits, writes, reads, claims, total, Consistent, step-Consistent}

claims-le_one : (p : Phase) → claims p ≤ 1
claims-le_one idle = omega arith
claims-le_one attempting = omega arith
claims-le_one writing = omega arith
claims-le_one arriving = omega arith
claims-le_one leaving = omega arith
claims-le_one reading = omega arith
claims-le_one (trying b) = omega arith
claims-le_one (refused e) = omega arith

reads-le-claims : (p : Phase) → reads p ≤ claims p
reads-le-claims idle = omega arith
reads-le-claims attempting = omega arith
reads-le-claims writing = omega arith
reads-le-claims arriving = omega arith
reads-le-claims leaving = omega arith
reads-le-claims reading = omega arith
reads-le-claims (trying b) = omega arith
reads-le-claims (refused e) = omega arith

claims-length : (ps : List Phase) → total claims ps ≤ length ps
claims-length [] = omega arith
claims-length (p ∷ ps) = omega (arith, claims-le_one p, claims-length ps)

reads-claims : (ps : List Phase) → total reads ps ≤ total claims ps
reads-claims [] = omega arith
reads-claims (p ∷ ps) = omega (arith, reads-le-claims p, reads-claims ps)

Consistent-same :
    (v v' w w' r r' c c' word : ℕ)
    → v ≡ v'
    → w ≡ w'
    → r ≡ r'
    → c ≡ c'
    → Consistent v w r c word
    → Consistent v' w' r' c' word
Consistent-same v v' w w' r r' c c' word d e f h i =
    coe 0 1 (k. Consistent (d k) (e k) (f k) (h k) word) i

-- The threads `ps`, beside others with `w` writers, `r` readers and `c` claims.
abbrev Beside : ℕ → ℕ → ℕ → ℕ → List Phase → ℕ → Type 0
Beside v w r c ps word =
    Consistent (total waits ps + v) (total writes ps + w) (total reads ps + r) (total claims ps + c)
      word

split :
    (v w r c : ℕ) (p : Phase) (ps : List Phase) (word : ℕ)
    → Beside v w r c (p ∷ ps) word
    → Consistent
        (waits p + (total waits ps + v))
        (writes p + (total writes ps + w))
        (reads p + (total reads ps + r))
        (claims p + (total claims ps + c))
        word
split v w r c p ps word i =
    Consistent-same _ _ _ _ _ _ _ _ word (omega arith) (omega arith) (omega arith) (omega arith) i

join :
    (v w r c : ℕ) (p : Phase) (ps : List Phase) (word : ℕ)
    → Consistent
        (waits p + (total waits ps + v))
        (writes p + (total writes ps + w))
        (reads p + (total reads ps + r))
        (claims p + (total claims ps + c))
        word
    → Beside v w r c (p ∷ ps) word
join v w r c p ps word i =
    Consistent-same _ _ _ _ _ _ _ _ word (omega arith) (omega arith) (omega arith) (omega arith) i

step_at-Beside :
    (max i : ℕ) (call : Call) (ps : List Phase) (word v w r c : ℕ)
    → 4 * (c + length ps) + 3 < max
    → r ≤ c
    → Beside v w r c ps word
    → Beside v w r c ((step_at max i call ps word).0) ((step_at max i call ps word).1)
step_at-Beside max i call [] word v w r c h k b = b
step_at-Beside max zero call (p ∷ ps) word v w r c h k b = join v w r c _ ps _ (
    step-Consistent max call p (total waits ps + v) (total writes ps + w) (total reads ps + r)
      (total claims ps + c) word (omega (arith, claims-length ps)) (omega (arith, reads-claims ps))
      (split v w r c p ps word b))
step_at-Beside max (suc i) call (p ∷ ps) word v w r c h k b =
    let rest =
      step_at-Beside max i call ps word (waits p + v) (writes p + w) (reads p + r) (claims p + c)
        (omega (arith, claims-le_one p)) (omega (arith, reads-le-claims p))
        (Consistent-same _ _ _ _ _ _ _ _ word (omega arith) (omega arith) (omega arith)
          (omega arith) b) in
    Consistent-same _ _ _ _ _ _ _ _ _ (omega arith) (omega arith) (omega arith) (omega arith) rest

length-step_at :
    (max i : ℕ) (call : Call) (ps : List Phase) (word : ℕ)
    → length ((step_at max i call ps word).0) ≡ length ps
length-step_at max i call [] word = refl
length-step_at max zero call (p ∷ ps) word = refl
length-step_at max (suc i) call (p ∷ ps) word = ap suc (length-step_at max i call ps word)

run-Beside :
    (max : ℕ) (schedule : List (ℕ × Call)) (ps : List Phase) (word : ℕ)
    → 4 * length ps + 3 < max
    → Beside 0 0 0 0 ps word
    → Beside 0 0 0 0 ((run max schedule ps word).0) ((run max schedule ps word).1)
run-Beside max [] ps word h b = b
run-Beside max (c ∷ cs) ps word h b =
    run-Beside max cs _ _ (omega (arith, length-step_at max c.0 c.1 ps word))
      (step_at-Beside max c.0 c.1 ps word 0 0 0 0 (omega arith) (omega arith) b)

-- At most one thread may write, and then no thread may read.
abbrev pub Exclusive : List Phase → Type 0
Exclusive ps = (total writes ps ≤ 1) × ((total writes ps ≡ 0) ⊎ (total reads ps ≡ 0))

outside : (f : Phase → ℕ) (n : ℕ) → f idle ≡ 0 → total f (replicate n idle) ≡ 0
outside f zero z = refl
outside f (suc n) z = omega (arith, z, outside f n z)

idle-Beside : (n : ℕ) → Beside 0 0 0 0 (replicate n idle) 0
idle-Beside n = record {
  need = 0;
  wanted = omega arith;
  flag = omega arith;
  reads_as = omega (arith, outside writes n refl, outside claims n refl);
  one = omega (arith, outside writes n refl);
  alone = inl (omega (arith, outside writes n refl));
}

Beside-Exclusive : (ps : List Phase) (word : ℕ) → Beside 0 0 0 0 ps word → Exclusive ps
Beside-Exclusive ps word b = (omega (arith, b.one), ground (arith, b.alone))

-- For `n` threads that start outside a free `shared_spinner`, where four times `n` and 3 are less
-- than the number of values of the lock type, every schedule of their calls and atomic operations
-- leaves at most one thread with permission to write, and none with permission to read if there is
-- one.
pub run-Exclusive :
    (max n : ℕ) (schedule : List (ℕ × Call))
    → 4 * n + 3 < max
    → Exclusive ((run max schedule (replicate n idle) 0).0)
run-Exclusive max n schedule h = Beside-Exclusive _ _ (
    run-Beside max schedule (replicate n idle) 0 (omega (arith, length-replicate n idle))
      (idle-Beside n))

Beside-Released :
    (ps : List Phase) (n word : ℕ) → ps ≡ replicate n idle → Beside 0 0 0 0 ps word → word ≡ 0
Beside-Released ps n word e b =
    let none_wait : total waits ps ≡ 0 = ap (total waits) e ∙ outside waits n refl in
    let none_write : total writes ps ≡ 0 = ap (total writes) e ∙ outside writes n refl in
    let none_claim : total claims ps ≡ 0 = ap (total claims) e ∙ outside claims n refl in
    omega (arith, b.reads_as, b.wanted)

-- For `n` threads that start outside a free `shared_spinner`, where four times `n` and 3 are less
-- than the number of values of the lock type, after every schedule that ends with all threads
-- outside, the lock word is 0: no permission and no `need_lock` is left behind.
pub run-Released :
    (max n m : ℕ) (schedule : List (ℕ × Call))
    → 4 * n + 3 < max
    → (run max schedule (replicate n idle) 0).0 ≡ replicate m idle
    → (run max schedule (replicate n idle) 0).1 ≡ 0
run-Released max n m schedule h e = Beside-Released _ m _ e (
    run-Beside max schedule (replicate n idle) 0 (omega (arith, length-replicate n idle))
      (idle-Beside n))
