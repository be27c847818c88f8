-- ===== src/Devector/Reallocate.antt =====
-- `reallocate`: the objects move to new storage, or nothing changes.
use seq.Prelude.{
  ℕ, ◌+◌, ◌-◌, ◌≤◌, ◌<◌, ◌≡◌, refl, ap, ap₂, sym, ◌∙◌, inl, inr, List, length, arith, Bool-cases,
  false, leb,
}
use seq.Memory.{Cell, World, overlay, raws, Traits, Gives}
use seq.Memory.Steps.{length-raws}
use seq.Devector.{
  State, size, front_capacity, back_capacity, new_address, allocate, deallocate, reallocate,
}
use seq.Devector.Layout.{block, Holds, Fresh, Refused}
use seq.Devector.Transfer.{copy_destroy_input}
use seq.Devector.Transfer.Copy.{is_safe, Transferred}
use seq.Devector.Relocation.{
  raws-split, allocate-fuse, new_unused, new_null, allocated, restored, grown, moved, transferred,
  returned,
}

module _ {A : Type 0} (g : ℕ → Cell A) (s : State A) (p n : ℕ) (xs : List A) (holds : Holds g s xs)
    (fresh : Fresh g s.vec p n) where
  abbrev new : ℕ
  new = new_address p n

  -- A vector on the new storage, which holds `ys` behind `front` free cells.
  pub settled :
      (ys : List A) (front : ℕ) (w : World A)
      → front + length ys ≤ n
      → w.cell ≡ overlay new (block front ys (n - front - length ys)) g
      → Holds g
          (record {
            vec = record {
              buffer = new;
              start = new + front;
              end = new + front + length ys;
              capacity = n;
            };
            world = w;
          })
          ys
  settled ys front w room e = record {
    starts = omega arith;
    ends = refl;
    fits = omega arith;
    layout = e ∙ ap₂ (λ f b. overlay new (block f ys b) g) (omega arith) (omega arith);
    free = new_unused g s xs p n holds fresh;
    null = new_null g s xs p n holds fresh;
  }

  module _ (off : ℕ) (room : off + length xs ≤ n) where
    abbrev rest : ℕ
    rest = n - off - length xs

    fills : length (raws {A = A} off) + length xs + length (raws {A = A} rest) ≡ n
    fills = omega (arith, length-raws A off, length-raws A rest)

    abbrev before : ℕ → Cell A
    before = grown g s xs p n holds fresh (raws off) (raws rest) fills

    abbrev after : ℕ → Cell A
    after = moved g s xs p n holds fresh (raws off) (raws rest) fills

    empty_storage :
        overlay new
          (raws n)
          (overlay s.vec.buffer (block (front_capacity s.vec) xs (back_capacity s.vec)) g)
        ≡ before
    empty_storage =
        ap
          (λ l.
            overlay new l
              (overlay s.vec.buffer (block (front_capacity s.vec) xs (back_capacity s.vec)) g))
          (raws-split off (length xs) rest n (omega arith))

    there-Holds :
        (w : World A)
        → w.cell ≡ after
        → Holds g
            (record {
              vec = record {
                buffer = new;
                start = new + off;
                end = new + off + size s.vec;
                capacity = n;
              };
              world = deallocate s.vec.buffer s.vec.capacity w;
            })
            xs
    there-Holds w e =
        let k : size s.vec ≡ length xs = omega (arith, holds.ends) in
        rw k
          (settled xs off _ room (returned g s xs p n holds fresh (raws off) (raws rest) fills w e))

    back_out : (w : World A) → w.cell ≡ before → (deallocate new n w).cell ≡ s.world.cell
    back_out w e = restored g s xs p n holds fresh w (e ∙ sym empty_storage)

    short_of : leb (length xs) (allocate p n s.world).fuse ≡ false → s.world.fuse < length xs
    short_of short = let e = allocate-fuse p n s.world in ground arith

    transfer :
        (t : Traits)
        → copy_destroy_input t s.vec.start s.vec.end (new + off) (allocate p n s.world)
          ≡ Transferred t (length xs) (allocate p n s.world) after before
    transfer t =
        ap (λ k. copy_destroy_input t s.vec.start s.vec.end (new + k) (allocate p n s.world))
          (sym (length-raws A off))
        ∙ transferred g s xs p n holds fresh (raws off) (raws rest) fills t (allocate p n s.world)
            (allocated g s xs p n holds fresh ∙ empty_storage)

    -- On a vector that holds `xs`, where the allocator answers a request for `n` cells with unused
    -- storage and `xs` fits behind `off` cells, the reallocation of `reserve` and `shrink_to_fit`
    -- does not fault: it leaves a vector that holds `xs` with capacity `n` and front capacity
    -- `off`, all of the old storage returned, or throws and leaves vector and memory as they were,
    -- which happens only where moving can throw and fewer constructions succeed than there are
    -- elements.
    pub reallocate-Holds :
        (t : Traits)
        → Gives
            (reallocate t p n off s)
            (λ r. Holds g r xs × (r.vec.capacity ≡ n) × (front_capacity r.vec ≡ off))
            (Refused t xs s)
    unfolding reallocate
    reallocate-Holds t =
        rw (reallocate, transfer t)
          (elim (Bool-cases (is_safe t)) [
            | inl safe ↦ rw safe (there-Holds _ refl, refl, omega arith)
            | inr unsafe ↦ elim (Bool-cases (leb (length xs) (allocate p n s.world).fuse)) [
              | inl fits ↦ rw (unsafe, fits) (there-Holds _ refl, refl, omega arith)
              | inr short ↦ rw (unsafe, short) ((refl, back_out _ refl), unsafe, short_of short)
            ]
          ])
