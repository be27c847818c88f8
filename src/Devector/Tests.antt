-- ===== src/Devector/Tests.antt =====
-- seq/devector.hpp: runs of the operations on small vectors.
use seq.Prelude.{ℕ, ◌+◌, ◌≡◌, refl, inl, inr, true, false, List, [], ◌∷◌, arith}
use seq.Memory.{Cell, unmapped, fault, overlay, raws, Traits, Gives}
use seq.Devector.{State, value, ref, front_capacity, reallocate}
use seq.Devector.Layout.{block, Holds, Fresh, Refused}
use seq.Devector.Transfer.{copy_destroy_input}
use seq.Devector.Transfer.Copy.{Transferred, copy_destroy_input_lem}
use seq.Devector.Transfer.Loops.{Before, After}
use seq.Devector.Reallocate.{reallocate-Holds}
use seq.Devector.Grow.{emplace_back, emplace_front}
use seq.Devector.Grow.EmplaceBack.{emplace_back-Holds}
use seq.Devector.Grow.EmplaceFront.{emplace_front-Holds}
use seq.Devector.Grow.Alias.{emplace_back_alias}
use seq.Devector.Resize.{resize, resize_front}
use seq.Devector.Resize.Back.{resize-Holds}
use seq.Devector.Resize.Front.{resize_front-Holds}
use seq.Devector.Lifetime.{destruct}
use seq.Devector.Lifetime.Destruct.{destruct-cell}

-- Memory with nothing in it but the vector.
abbrev nowhere : ℕ → Cell ℕ
nowhere q = unmapped

-- Two objects, with a free cell at either side.
abbrev two : List ℕ
two = 7 ∷ 8 ∷ []

abbrev pair : State ℕ
pair = record {
  vec = record { buffer = 10; start = 11; end = 13; capacity = 4 };
  world = record { cell = overlay 10 (block 1 two 1) nowhere; fuse = 5 };
}

-- One object, at the end of storage for three.
abbrev one : List ℕ
one = 7 ∷ []

abbrev late : State ℕ
late = record {
  vec = record { buffer = 10; start = 12; end = 13; capacity = 3 };
  world = record { cell = overlay 10 (block 2 one 0) nowhere; fuse = 5 };
}

-- Two objects that fill their storage.
abbrev packed : State ℕ
packed = record {
  vec = record { buffer = 10; start = 10; end = 12; capacity = 2 };
  world = record { cell = overlay 10 (block 0 two 0) nowhere; fuse = 5 };
}

-- Copies may throw, or moves do not.
abbrev copies : Traits
copies = record { relocatable = false; nothrow_move = false }

abbrev moves : Traits
moves = record { relocatable = false; nothrow_move = true }

abbrev double : ℕ → ℕ
double c = c + c

pair-Holds : Holds nowhere pair two
pair-Holds = record {
  starts = omega arith;
  ends = refl;
  fits = omega arith;
  layout = refl;
  free = λ q lo hi. refl;
  null = λ e. absurd (omega arith);
}

packed-Holds : Holds nowhere packed two
packed-Holds = record {
  starts = omega arith;
  ends = refl;
  fits = omega arith;
  layout = refl;
  free = λ q lo hi. refl;
  null = λ e. absurd (omega arith);
}

late-Holds : Holds nowhere late one
late-Holds = record {
  starts = omega arith;
  ends = refl;
  fits = omega arith;
  layout = refl;
  free = λ q lo hi. refl;
  null = λ e. absurd (omega arith);
}

packed_fresh : Fresh nowhere packed.vec 20 4
packed_fresh = record {
  positive = omega arith;
  unused = λ q lo hi. refl;
  apart = inr (omega arith);
}

fresh : (n : ℕ) → Fresh nowhere pair.vec 20 n
fresh n = record { positive = omega arith; unused = λ q lo hi. refl; apart = inr (omega arith) }

copy_destroy_input_lem_example :
    copy_destroy_input copies 11 13 21 (record { cell = Before 11 21 two nowhere; fuse = 1 })
    ≡ Transferred copies 2
        (record { cell = Before 11 21 two nowhere; fuse = 1 })
        (After 11 21 two nowhere)
        (Before 11 21 two nowhere)
copy_destroy_input_lem_example =
    copy_destroy_input_lem two nowhere 11 21 13
      (record { cell = Before 11 21 two nowhere; fuse = 1 }) (inl (omega arith)) refl refl copies

reallocate-Holds_example :
    Gives
      (reallocate copies 20 6 3 pair)
      (λ r. Holds nowhere r two × (r.vec.capacity ≡ 6) × (front_capacity r.vec ≡ 3))
      (Refused copies two pair)
reallocate-Holds_example =
    reallocate-Holds nowhere pair 20 6 two pair-Holds (fresh 6) 3 (omega arith) copies

-- A reference to an object of the vector itself, which moves to new storage.
emplace_back-Holds_example :
    Gives
      (emplace_back copies double 20 (ref 10) packed)
      (λ r. Holds nowhere r (7 ∷ 8 ∷ 7 ∷ []))
      (λ r. Holds nowhere r two)
emplace_back-Holds_example =
    emplace_back-Holds nowhere packed two packed-Holds copies double 20 (ref 10) 7 (omega arith)
      packed_fresh (refl, refl)

emplace_front-Holds_example :
    Gives
      (emplace_front copies double 20 (value 3) packed)
      (λ r. Holds nowhere r (3 ∷ 7 ∷ 8 ∷ []))
      (λ r. Holds nowhere r two)
emplace_front-Holds_example =
    emplace_front-Holds nowhere packed two packed-Holds copies double 20 (value 3) 3 (omega arith)
      packed_fresh refl

emplace_back_alias_example : emplace_back moves double 20 (ref 12) late ≡ fault
emplace_back_alias_example =
    emplace_back_alias nowhere late one late-Holds 7 moves 0 (omega arith) refl double 20 refl refl
      refl

resize-Holds_example :
    Gives
      (resize copies 20 4 9 pair)
      (λ r. Holds nowhere r (7 ∷ 8 ∷ 9 ∷ 9 ∷ []))
      (λ r. Holds nowhere r two)
resize-Holds_example = resize-Holds nowhere pair two pair-Holds copies 20 4 9 (fresh 4)

-- The old storage, four cells at 10, is left allocated.
resize_front-Holds_example :
    Gives
      (resize_front copies 20 4 9 pair)
      (λ r. Holds (overlay 10 (raws 4) nowhere) r (9 ∷ 9 ∷ 7 ∷ 8 ∷ []))
      (λ r. Holds nowhere r two)
resize_front-Holds_example = resize_front-Holds nowhere pair two pair-Holds copies 20 4 9 (fresh 4)

destruct-cell_example : Gives (destruct pair) (λ w. w.cell ≡ nowhere) (λ _. ⊥)
destruct-cell_example = destruct-cell nowhere pair two pair-Holds
