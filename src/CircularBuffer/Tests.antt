-- ===== src/CircularBuffer/Tests.antt =====
-- seq/tiered_vector.hpp: runs of `CircularBuffer` on rings that go around the end of their storage.
use seq.Prelude.{ℕ, zero, suc, ◌≡◌, ◌⊎◌, refl, fun_ext, true, false, [], ◌∷◌, arith}
use seq.Memory.{raw, live, overlay, Gives}
use seq.CircularBuffer.{Ring, State, Element}
use seq.CircularBuffer.View.{Shape, nothing, view}
use seq.CircularBuffer.Cells.{Contains}
use seq.CircularBuffer.Insert.{emplace, insert_pop_back}
use seq.CircularBuffer.Insert.Place.{Kept}
use seq.CircularBuffer.Insert.Emplace.{emplace-Contains}
use seq.CircularBuffer.Insert.Pop.{insert_pop_back-Contains}
use seq.CircularBuffer.Erase.{erase}
use seq.CircularBuffer.Erase.Remove.{erase-Contains}

-- Values that are assigned to, and values of which the bytes move.
abbrev assigned : Element ℕ
assigned = record { relocatable = false; blank = 0; husk = λ x. 0 }

abbrev bitwise : Element ℕ
bitwise = record { relocatable = true; blank = 0; husk = λ x. 0 }

-- A storage of four cells, with the first element in the last of them.
abbrev ring : ℕ → Ring
ring n = record { buffer = 10; size = n; max_size1 = 3; max_size = 4; begin = 3 }

ring-Shape : (n : ℕ) → Shape (ring n)
ring-Shape n = record { bits = 2; power = refl; mask = refl; inside = omega arith }

-- Two elements.
abbrev two : State ℕ
two = record {
  ring = ring 2;
  world = record { cell = overlay 10 (live 8 ∷ raw ∷ raw ∷ live 7 ∷ []) nothing; fuse = 3 };
}

two_cells :
    (i : ℕ)
    → view (ring 2) two.world.cell i ≡ overlay 0 (live 7 ∷ live 8 ∷ raw ∷ raw ∷ []) nothing i
two_cells zero = refl
two_cells (suc zero) = refl
two_cells (suc (suc zero)) = refl
two_cells (suc (suc (suc zero))) = refl
two_cells (suc (suc (suc (suc i)))) = ground arith

two-Contains : Contains nothing two (7 ∷ 8 ∷ [])
two-Contains = record {
  shape = ring-Shape 2;
  count = refl;
  fits = omega arith;
  content = record { cells = fun_ext two_cells; rest = λ p out. ground arith };
}

-- Four elements.
abbrev four : State ℕ
four = record {
  ring = ring 4;
  world = record { cell = overlay 10 (live 8 ∷ live 9 ∷ live 6 ∷ live 7 ∷ []) nothing; fuse = 3 };
}

four_cells :
    (i : ℕ)
    → view (ring 4) four.world.cell i ≡ overlay 0 (live 7 ∷ live 8 ∷ live 9 ∷ live 6 ∷ []) nothing i
four_cells zero = refl
four_cells (suc zero) = refl
four_cells (suc (suc zero)) = refl
four_cells (suc (suc (suc zero))) = refl
four_cells (suc (suc (suc (suc i)))) = ground arith

four-Contains : Contains nothing four (7 ∷ 8 ∷ 9 ∷ 6 ∷ [])
four-Contains = record {
  shape = ring-Shape 4;
  count = refl;
  fits = omega arith;
  content = record { cells = fun_ext four_cells; rest = λ p out. ground arith };
}

emplace-Contains_example :
    Gives
      (emplace assigned 1 5 two)
      (λ r. Contains nothing r (7 ∷ 5 ∷ 8 ∷ []))
      (λ r. Contains nothing r (7 ∷ 8 ∷ []) ⊎ Kept nothing assigned (7 ∷ []) (8 ∷ []) r)
emplace-Contains_example =
    emplace-Contains nothing assigned two (7 ∷ []) (8 ∷ []) two-Contains (omega arith) 5

insert_pop_back-Contains_example :
    Gives
      (insert_pop_back bitwise 1 5 four)
      (λ r. (r.0 ≡ 6) × Contains nothing r.1 (7 ∷ 5 ∷ 8 ∷ 9 ∷ []))
      (λ r. Kept nothing bitwise (7 ∷ []) (8 ∷ 9 ∷ []) r.1)
insert_pop_back-Contains_example =
    insert_pop_back-Contains nothing bitwise four (7 ∷ 8 ∷ 9 ∷ 6 ∷ []) four-Contains refl (7 ∷ [])
      (8 ∷ 9 ∷ []) 6 5 refl

erase-Contains_example :
    Gives
      (erase assigned 1 four)
      (λ r. Contains nothing r (7 ∷ 9 ∷ 6 ∷ []) × (r.ring.max_size ≡ 4))
      (λ _. ⊥)
erase-Contains_example =
    erase-Contains nothing assigned four (7 ∷ 8 ∷ 9 ∷ 6 ∷ []) four-Contains (7 ∷ []) (9 ∷ 6 ∷ []) 8
      refl
