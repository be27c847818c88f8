-- ===== src/Devector/Grow/Front.antt =====
-- The construction before the objects, and `grow_front` within the storage.
use seq.Prelude.{
  ℕ, suc, ◌+◌, ◌-◌, ◌≤◌, ◌<◌, ◌≡◌, refl, ap, sym, ◌∙◌, inl, inr, true, Bool, some, List, [], ◌∷◌,
  ◌++◌, length, append_assoc, append-nil, replicate-append, arith, ◌==◌, ltb, if◌then◌else◌,
  Bool-cases,
}
use seq.Memory.{
  Cell, raw, unmapped, World, Outcome, ok, threw, fault, overlay, lives, raws, Traits, Gives,
}
use seq.Memory.Steps.{length-raws, burnt}
use seq.Devector.{Vector, State, Arg, size, front_capacity, back_capacity}
use seq.Devector.Layout.{block, overlay-block, Holds, Holds-same}
use seq.Devector.Transfer.{copy_destroy_input}
use seq.Devector.Transfer.Copy.{Transferred, Transferred-cases}
use seq.Devector.Grow.{value_of, construct_arg, slide_into, finish, step_start}
use seq.Devector.Grow.Focus.{block-suc_front, construct_at}
use seq.Devector.Grow.Into.{Denotes, value_of_moved}
use seq.Devector.Grow.Slide.{slide_right}

-- `grow_front` moves the objects to the back of the storage.
abbrev pub slides_front : Vector → Bool
slides_front v = ltb (size v) (v.capacity - size v)

module _ {A : Type 0} where
  pub Gives-step_start :
      (o : Outcome (State A)) (P P' Q : State A → Type 0)
      → Gives o P Q
      → ((r : State A) → P r → P' (record r { vec = record r.vec { start = r.vec.start - 1 } }))
      → Gives (step_start o) P' Q
  Gives-step_start (ok s) P P' Q h f = f s h
  Gives-step_start (threw s) P P' Q h f = h
  Gives-step_start fault P P' Q h f = h

  module _ (g : ℕ → Cell A) (xs : List A) (v : A) where
    -- The pointers around `xs`, before `--start`.
    pub record Around (u : Vector) : Type 0 where
      pub starts : u.buffer < u.start
      pub ends : u.end ≡ u.start + length xs
      pub fits : u.end ≤ u.buffer + u.capacity
      pub free : (q : ℕ) → u.buffer ≤ q → q < u.buffer + u.capacity → g q ≡ unmapped
      pub null : u.buffer ≡ 0 → u.capacity ≡ 0

    abbrev pub one_more : Vector → List (Cell A)
    one_more u = block (front_capacity u - 1) (v ∷ xs) (back_capacity u)

    pub cons-Holds :
        (u : Vector) (w : World A)
        → Around u
        → w.cell ≡ overlay u.buffer (one_more u) g
        → Holds g (record { vec = record u { start = u.start - 1 }; world = w }) (v ∷ xs)
    cons-Holds u w a e = record {
      starts = omega (arith, a.starts);
      ends = omega (arith, a.starts, a.ends);
      fits = a.fits;
      layout =
          e
          ∙ overlay-block g u.buffer (v ∷ xs) (front_capacity u - 1) (u.start - 1 - u.buffer)
              (back_capacity u) (back_capacity u) (omega arith) refl;
      free = a.free;
      null = a.null;
    }

    construct_start :
        (u : Vector) (w : World A) (arg : Arg A)
        → Around u
        → value_of arg w ≡ some v
        → w.cell ≡ overlay u.buffer (block (front_capacity u) xs (back_capacity u)) g
        → construct_arg (u.start - 1) arg w
          ≡ (if w.fuse == 0 then threw w else ok (burnt w (overlay u.buffer (one_more u) g)))
    construct_start u w arg a given e =
        let f = front_capacity u - 1 in
        construct_at g u.buffer (u.start - 1) (raws f) (lives xs ++ raws (back_capacity u))
          (omega (arith, length-raws A f, a.starts)) v w arg given
          (e
            ∙ overlay-block g u.buffer xs (front_capacity u) (suc f) (back_capacity u)
                (back_capacity u) (omega (arith, a.starts)) refl
            ∙ ap (λ l. overlay u.buffer l g) (block-suc_front f xs (back_capacity u)))

    -- Constructing there and `--start`: the vector holds one more, or what it held.
    pub emplaced :
        (u : Vector) (w : World A) (arg : Arg A)
        → Around u
        → value_of arg w ≡ some v
        → w.cell ≡ overlay u.buffer (block (front_capacity u) xs (back_capacity u)) g
        → Gives
            (step_start (finish u (construct_arg (u.start - 1) arg w)))
            (λ r. Holds g r (v ∷ xs))
            (λ r. Holds g r xs)
    emplaced u w arg a given e =
        rw (construct_start u w arg a given e) (elim (Bool-cases (w.fuse == 0)) [
          | inl stop ↦ rw stop (record {
            starts = omega (arith, a.starts);
            ends = a.ends;
            fits = a.fits;
            layout = e;
            free = a.free;
            null = a.null;
          })
          | inr more ↦ rw more (cons-Holds u _ a refl)
        ])

    module _ (s : State A) (holds : Holds g s xs) (t : Traits)
        (full : s.vec.start ≡ s.vec.buffer) where
      open s.vec use {buffer, start, end, capacity}

      pub size-length : size s.vec ≡ length xs
      size-length = omega (arith, holds.ends)

      -- The cells that the objects do not take.
      abbrev pub spare : ℕ
      spare = capacity - size s.vec

      abbrev slid : Vector
      slid = record s.vec { start = buffer + spare; end = buffer + spare + size s.vec }

      slid_front :
          size s.vec < spare
          → copy_destroy_input t start end (buffer + spare) s.world
            ≡ Transferred t (length xs) s.world (overlay buffer (block spare xs 0) g) s.world.cell
      slid_front less =
          let n = length xs in
          let m = spare - n in
          let before : s.world.cell ≡ overlay buffer (lives xs ++ (raws m ++ (raws n ++ []))) g =
            holds.layout
            ∙ overlay-block g buffer xs (front_capacity s.vec) 0 (back_capacity s.vec) (m + n)
                (omega arith) (omega (arith, size-length, holds.ends, holds.fits))
            ∙ ap (λ l. overlay buffer (lives xs ++ l) g)
                (sym (replicate-append m n raw)
                  ∙ ap (λ l. raws m ++ l) (sym (append-nil (raws n)))) in
          let behind : raws {A = A} n ++ (raws m ++ (lives xs ++ [])) ≡ block spare xs 0 =
            sym (append_assoc (raws n) (raws m) (lives xs ++ []))
            ∙ ap (λ l. l ++ (lives xs ++ [])) (replicate-append n m raw)
            ∙ ap (λ k. raws k ++ (lives xs ++ []))
                (let k : n + m ≡ spare = omega (arith, size-length) in k) in
          slide_right g buffer xs [] (raws m) [] t s.world start (buffer + spare) end (omega arith)
            (omega (arith, length-raws A m, size-length)) holds.ends before
          ∙ (λ i. Transferred t n s.world (overlay buffer (behind i) g) (sym before i))

      pub slide_front-Holds :
          (arg : Arg A)
          → Denotes s true arg v
          → size s.vec < spare
          → Gives
              (step_start (slide_into t (buffer + spare) (buffer + spare - 1) arg s))
              (λ r. Holds g r (v ∷ xs))
              (λ r. Holds g r xs)
      unfolding slide_into
      slide_front-Holds arg d less =
          let around : Around slid = record {
            starts = omega arith;
            ends = omega (arith, size-length);
            fits = omega (arith, holds.fits, holds.ends);
            free = holds.free;
            null = holds.null;
          } in
          elim (Transferred-cases t (length xs) s.world (overlay buffer (block spare xs 0) g)
            s.world.cell) [
              | inl (w, e, c) ↦
                  rw (slide_into, slid_front less ∙ e)
                    (emplaced slid w arg around (value_of_moved s arg v w d) (
                      c
                      ∙ overlay-block g buffer xs spare (front_capacity slid) 0 (back_capacity slid)
                          (omega arith) (omega (arith, holds.fits, holds.ends))))
              | inr (w, e, c) ↦ rw (slide_into, slid_front less ∙ e) (Holds-same g s xs w holds c)
            ]
