-- ===== src/Lock/Consistent.antt =====
-- What the lock word says of the threads, and that each step keeps it true.
use seq.Prelude.{
  ℕ, ◌+◌, ◌*◌, ◌/◌, ◌%◌, ◌≤◌, ◌<◌, ◌≡◌, ◌⊎◌, inl, inr, Bool, true, false, Bool-cases, List, [], ◌∷◌,
  arith, ◌==◌,
}
use seq.Lock.{
  Call, lock, try_lock, lock_shared, Phase, idle, attempting, writing, arriving, leaving, reading,
  trying, refused, expected, fetch_or_need, step,
}

-- What a phase adds to the writers, to the readers, and to the claims in the lock word.
abbrev pub writes : Phase → ℕ
writes writing = 1
writes _ = 0

abbrev pub reads : Phase → ℕ
reads reading = 1
reads _ = 0

abbrev pub claims : Phase → ℕ
claims reading = 1
claims leaving = 1
claims _ = 0

abbrev pub waits : Phase → ℕ
waits (trying first) = 1
waits (refused found) = 1
waits _ = 0

abbrev pub total : (Phase → ℕ) → List Phase → ℕ
total f [] = 0
total f (p ∷ ps) = f p + total f ps

-- The lock word says how many threads write and how many have a claim, and a writer is alone.
pub record Consistent (v w r c word : ℕ) : Type 0 where
  pub need : ℕ
  pub flag : need ≤ 1
  pub wanted : need ≤ v
  pub reads_as : word ≡ w + 2 * need + 4 * c
  pub one : w ≤ 1
  pub alone : (w ≡ 0) ⊎ (r ≡ 0)

-- The exchange succeeds on a word without writers and claims.
entered :
    (u v w r c word : ℕ)
    → Consistent u (0 + w) (0 + r) (0 + c) word
    → (word ≡ 0) ⊎ (word ≡ 2)
    → r ≤ c
    → Consistent v (1 + w) (0 + r) (0 + c) 1
entered u v w r c word i free k =
    let none_in : (w ≡ 0) × (c ≡ 0) = ground (arith, i.reads_as, i.flag, i.one, free) in
    record {
      need = 0;
      wanted = omega arith;
      flag = omega arith;
      reads_as = omega (arith, none_in);
      one = omega (arith, none_in);
      alone = inr (omega (arith, none_in));
    }

as_expected : (word : ℕ) (first : Bool) → word ≡ expected first → (word ≡ 0) ⊎ (word ≡ 2)
as_expected word true e = inl e
as_expected word false e = inr e

flagged :
    (v w r c word : ℕ)
    → Consistent (1 + v) w r c word
    → Consistent (1 + v) w r c (fetch_or_need word)
flagged v w r c word i = elim (Bool-cases (word / 2 % 2 == 1)) [
  | inl set ↦ rw set i
  | inr unset ↦ rw unset (record {
    need = 1;
    wanted = omega arith;
    flag = omega arith;
    reads_as = ground (arith, i.reads_as, i.flag, i.one);
    one = i.one;
    alone = i.alone;
  })
]

pub step-Consistent :
    (max : ℕ) (call : Call) (p : Phase) (v w r c word : ℕ)
    → 4 * (c + 1) + 3 < max
    → r ≤ c
    → Consistent (waits p + v) (writes p + w) (reads p + r) (claims p + c) word
    → Consistent
        (waits ((step max call p word).0) + v)
        (writes ((step max call p word).0) + w)
        (reads ((step max call p word).0) + r)
        (claims ((step max call p word).0) + c)
        ((step max call p word).1)
step-Consistent max lock idle v w r c word h k i = record {
  need = i.need;
  flag = i.flag;
  wanted = omega (arith, i.wanted);
  reads_as = i.reads_as;
  one = i.one;
  alone = i.alone;
}
step-Consistent max try_lock idle v w r c word h k i = elim (Bool-cases (word % 4 == 0)) [
  | inl free ↦ rw free i
  | inr taken ↦ rw taken i
]
step-Consistent max lock_shared idle v w r c word h k i = elim (Bool-cases (word % 4 == 0)) [
  | inl free ↦ rw free i
  | inr taken ↦ rw taken i
]
step-Consistent max call attempting v w r c word h k i = elim (Bool-cases (word == 0)) [
  | inl free ↦ rw free (entered (0 + v) (0 + v) w r c word i (inl (ground arith)) k)
  | inr taken ↦ rw taken i
]
step-Consistent max call writing v w r c word h k i = record {
  need = 0;
  wanted = omega arith;
  flag = omega arith;
  reads_as = omega (arith, i.reads_as, i.flag, i.one);
  one = omega (arith, i.one);
  alone = inl (omega (arith, i.one));
}
step-Consistent max call arriving v w r c word h k i = elim (Bool-cases (word % 4 == 0)) [
  | inl free ↦ rw free (record {
    need = i.need;
    wanted = i.wanted;
    flag = i.flag;
    reads_as = ground (arith, i.reads_as, i.flag, i.one);
    one = i.one;
    alone = inl (ground (arith, i.reads_as, i.flag, i.one));
  })
  | inr taken ↦ rw taken (record {
    need = i.need;
    wanted = i.wanted;
    flag = i.flag;
    reads_as = ground (arith, i.reads_as, i.flag, i.one);
    one = i.one;
    alone = i.alone;
  })
]
step-Consistent max call leaving v w r c word h k i = record {
  need = i.need;
  wanted = i.wanted;
  flag = i.flag;
  reads_as = ground (arith, i.reads_as);
  one = i.one;
  alone = i.alone;
}
step-Consistent max call reading v w r c word h k i = record {
  need = i.need;
  wanted = i.wanted;
  flag = i.flag;
  reads_as = ground (arith, i.reads_as);
  one = i.one;
  alone = ground (arith, i.alone);
}
step-Consistent max call (trying first) v w r c word h k i =
    elim (Bool-cases (word == expected first)) [
      | inl free ↦
          rw free (entered (1 + v) (0 + v) w r c word i (as_expected word first (ground arith)) k)
      | inr taken ↦ rw taken i
    ]
step-Consistent max call (refused e) v w r c word h k i = elim (Bool-cases (e / 2 % 2 == 1)) [
  | inl set ↦ rw set i
  | inr unset ↦ rw unset (flagged v (0 + w) (0 + r) (0 + c) word i)
]
