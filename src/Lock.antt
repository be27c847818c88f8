-- ===== src/Lock.antt =====
-- seq/lock.hpp: `shared_spinner` for lock types of more than one byte. A step of a thread is one
-- atomic operation on the lock word; a schedule says which thread takes the next step. `max` is
-- the number of values of the lock type. `write` is 1, `need_lock` is 2 and `read` is 4, so a test
-- of the first two bits is one of the remainder by 4. Every operation is on the one word, so the
-- order of the steps is the order of its modifications.
pub mod Consistent
pub mod Exclusion
pub mod Spin
mod Tests
use seq.Prelude.{
  Bool, true, false, ℕ, zero, suc, ◌+◌, ◌-◌, ◌/◌, ◌%◌, List, [], ◌∷◌, ltb, ◌==◌, if◌then◌else◌,
}

-- What a thread that holds nothing calls next.
pub data Call : Type 0 where
  lock try_lock lock_shared : Call

-- Where a thread is: outside; before the `compare_exchange_strong` of `lock` or of `try_lock`;
-- in `failed_lock`, with the value that the exchange found; with permission to write; before the
-- `fetch_add` of `try_lock_shared`; before the one that takes it back; with permission to read.
pub data Phase : Type 0 where
  idle attempting writing arriving leaving reading : Phase
  trying : Bool → Phase
  refused : ℕ → Phase

-- The value that `lock` expects: 0 at first, then `need_lock`.
abbrev pub expected : Bool → ℕ
expected first = if first then 0 else 2

abbrev pub fetch_or_need : ℕ → ℕ
fetch_or_need word = if word / 2 % 2 == 1 then word else word + 2

-- `fetch_and(~(write | need_lock))`
abbrev pub clear_flags : ℕ → ℕ
clear_flags word = word - word % 4

-- `fetch_add(read)` and `fetch_sub(read)`, with their wrap-around.
abbrev pub add_read : ℕ → ℕ → ℕ
add_read max word = if ltb (word + 4) max then word + 4 else word + 4 - max

abbrev pub sub_read : ℕ → ℕ → ℕ
sub_read max word = if ltb word 4 then word + max - 4 else word - 4

-- The next atomic operation of a thread: its phase and the word afterwards.
abbrev pub step : ℕ → Call → Phase → ℕ → Phase × ℕ
step max lock idle word = (trying true, word)
step max try_lock idle word = (if word % 4 == 0 then attempting else idle, word)
step max lock_shared idle word = (if word % 4 == 0 then arriving else idle, word)
step max call attempting word = if word == 0 then (writing, 1) else (idle, word)
step max call (trying first) word =
    if word == expected first then (writing, 1) else (refused word, word)
step max call (refused expect) word =
    (trying false, if expect / 2 % 2 == 1 then word else fetch_or_need word)
step max call writing word = (idle, clear_flags word)
step max call arriving word = (if word % 4 == 0 then reading else leaving, add_read max word)
step max call leaving word = (idle, sub_read max word)
step max call reading word = (idle, sub_read max word)

-- The thread at an index takes a step.
abbrev pub step_at : ℕ → ℕ → Call → List Phase → ℕ → List Phase × ℕ
step_at max i call [] word = ([], word)
step_at max zero call (p ∷ ps) word = let r = step max call p word in (r.0 ∷ ps, r.1)
step_at max (suc i) call (p ∷ ps) word = let r = step_at max i call ps word in (p ∷ r.0, r.1)

abbrev pub run : ℕ → List (ℕ × Call) → List Phase → ℕ → List Phase × ℕ
run max [] ps word = (ps, word)
run max (c ∷ cs) ps word = let r = step_at max c.0 c.1 ps word in run max cs r.0 r.1
