-- ===== src/Devector/Grow/Back.antt =====
-- The construction behind the objects, and `grow_back` within the storage.
use seq.Prelude.{
  ℕ, suc, ◌+◌, ◌-◌, ◌≤◌, ◌<◌, ◌≡◌, refl, ap, sym, ◌∙◌, inl, inr, true, Bool, some, List, [], ◌∷◌,
  ◌++◌, length, length-append, append_assoc, replicate-append, arith, ◌==◌, ltb, if◌then◌else◌,
  Bool-cases,
}
use seq.Memory.{
  Cell, raw, live, unmapped, World, Outcome, ok, threw, fault, overlay, lives, raws, Traits, Gives,
}
use seq.Memory.Steps.{length-raws, burnt}
use seq.Devector.{Vector, State, Arg, size, front_capacity, back_capacity}
use seq.Devector.Layout.{block, overlay-block, Holds, Holds-same}
use seq.Devector.Transfer.Copy.{Transferred, Transferred-cases}
use seq.Devector.Transfer.{copy_destroy_input}
use seq.Devector.Grow.{value_of, construct_arg, slide_into, finish, step_end}
use seq.Devector.Grow.Focus.{block-snoc, block-suc_back, length-prefix, construct_at}
use seq.Devector.Grow.Into.{Denotes, value_of_moved}
use seq.Devector.Grow.Slide.{slide_left}
use seq.Devector.Relocation.{raws-split}

-- `grow_back` moves the objects to the front of the storage.
abbrev pub slides_back : Vector → Bool
slides_back v = ltb (size v) (front_capacity v)

module _ {A : Type 0} where
  pub Gives-step_end :
      (o : Outcome (State A)) (P P' Q : State A → Type 0)
      → Gives o P Q
      → ((r : State A) → P r → P' (record r { vec = record r.vec { end = r.vec.end + 1 } }))
      → Gives (step_end o) P' Q
  Gives-step_end (ok s) P P' Q h f = f s h
  Gives-step_end (threw s) P P' Q h f = h
  Gives-step_end fault P P' Q h f = h

  module _ (g : ℕ → Cell A) (xs : List A) (v : A) where
    -- The pointers around `xs`, before `++end`.
    pub record Around (u : Vector) : Type 0 where
      pub starts : u.buffer ≤ u.start
      pub ends : u.end ≡ u.start + length xs
      pub fits : u.end < u.buffer + u.capacity
      pub free : (q : ℕ) → u.buffer ≤ q → q < u.buffer + u.capacity → g q ≡ unmapped
      pub null : u.buffer ≡ 0 → u.capacity ≡ 0

    -- The free cells behind the new object.
    abbrev pub after : Vector → ℕ
    after u = back_capacity u - 1

    abbrev pub one_more : Vector → List (Cell A)
    one_more u = (raws (front_capacity u) ++ lives xs) ++ live v ∷ raws (after u)

    pub overlay-snoc :
        (p f f' b b' : ℕ)
        → f ≡ f'
        → b ≡ b'
        → overlay p ((raws f ++ lives xs) ++ live v ∷ raws b) g
          ≡ overlay p ((raws f' ++ lives xs) ++ live v ∷ raws b') g
    overlay-snoc p f f' b b' e e' i = overlay p ((raws (e i) ++ lives xs) ++ live v ∷ raws (e' i)) g

    pub snoc-Holds :
        (u : Vector) (w : World A)
        → Around u
        → w.cell ≡ overlay u.buffer (one_more u) g
        → Holds g (record { vec = record u { end = u.end + 1 }; world = w }) (xs ++ v ∷ [])
    snoc-Holds u w a e = record {
      starts = a.starts;
      ends = omega (arith, length-append xs (v ∷ []), a.ends);
      fits = omega (arith, a.fits);
      layout =
          e
          ∙ ap (λ l. overlay u.buffer l g) (sym (block-snoc (front_capacity u) xs v (after u)))
          ∙ ap (λ k. overlay u.buffer (block (front_capacity u) (xs ++ v ∷ []) k) g) (omega arith);
      free = a.free;
      null = a.null;
    }

    -- The construction at the end of `xs`.
    construct_end :
        (u : Vector) (w : World A) (arg : Arg A)
        → Around u
        → value_of arg w ≡ some v
        → w.cell ≡ overlay u.buffer (block (front_capacity u) xs (back_capacity u)) g
        → construct_arg u.end arg w
          ≡ (if w.fuse == 0 then threw w else ok (burnt w (overlay u.buffer (one_more u) g)))
    construct_end u w arg a given e =
        construct_at g u.buffer u.end (raws (front_capacity u) ++ lives xs) (raws (after u))
          (omega (arith, length-prefix (front_capacity u) xs, a.starts, a.ends)) v w arg given
          (e
            ∙ ap (λ k. overlay u.buffer (block (front_capacity u) xs k) g)
                (let k : back_capacity u ≡ suc (after u) = omega (arith, a.fits) in k)
            ∙ ap (λ l. overlay u.buffer l g) (block-suc_back (front_capacity u) xs (after u)))

    -- Constructing there and `++end`: the vector holds one more, or what it held.
    pub emplaced :
        (u : Vector) (w : World A) (arg : Arg A)
        → Around u
        → value_of arg w ≡ some v
        → w.cell ≡ overlay u.buffer (block (front_capacity u) xs (back_capacity u)) g
        → Gives
            (step_end (finish u (construct_arg u.end arg w)))
            (λ r. Holds g r (xs ++ v ∷ []))
            (λ r. Holds g r xs)
    emplaced u w arg a given e =
        rw (construct_end u w arg a given e) (elim (Bool-cases (w.fuse == 0)) [
          | inl stop ↦ rw stop (record {
            starts = a.starts;
            ends = a.ends;
            fits = omega (arith, a.fits);
            layout = e;
            free = a.free;
            null = a.null;
          })
          | inr more ↦ rw more (snoc-Holds u _ a refl)
        ])

    module _ (s : State A) (holds : Holds g s xs) (t : Traits) where
      open s.vec use {buffer, start, end, capacity}

      abbrev slid : Vector
      slid = record s.vec { start = buffer; end = buffer + size s.vec }

      pub size-length : size s.vec ≡ length xs
      size-length = omega (arith, holds.ends)

      slid-Around : size s.vec < front_capacity s.vec → Around slid
      slid-Around less = record {
        starts = omega arith;
        ends = omega (arith, size-length);
        fits = omega (arith, holds.fits, holds.ends, holds.starts);
        free = holds.free;
        null = holds.null;
      }

      -- The free cells between the place the objects go to and the place they leave.
      abbrev pub middle : ℕ
      middle = front_capacity s.vec - length xs

      pub slid_back :
          size s.vec < front_capacity s.vec
          → copy_destroy_input t start end buffer s.world
            ≡ Transferred t
                (length xs)
                s.world
                (overlay buffer (block 0 xs (middle + length xs + back_capacity s.vec)) g)
                s.world.cell
      slid_back less =
          let b = back_capacity s.vec in
          let m = middle in
          let n = length xs in
          let before : s.world.cell
              ≡ overlay buffer (raws n ++ (raws m ++ (lives xs ++ raws b))) g =
            holds.layout
            ∙ ap (λ k. overlay buffer (block k xs b) g)
                (let k : front_capacity s.vec ≡ n + m = omega (arith, size-length) in k)
            ∙ ap (λ l. overlay buffer (l ++ (lives xs ++ raws b)) g)
                (sym (replicate-append n m raw))
            ∙ ap (λ l. overlay buffer l g) (append_assoc (raws n) (raws m) (lives xs ++ raws b)) in
          let after_move : raws m ++ (raws n ++ raws b) ≡ raws {A = A} (m + n + b) =
            sym (raws-split m n b _ refl) in
          slide_left g buffer xs [] (raws m) (raws b) t s.world buffer start end (omega arith)
            (omega (arith, length-raws A m, size-length, holds.starts)) holds.ends before
          ∙ (λ i.
              Transferred t n s.world (overlay buffer (lives xs ++ after_move i) g) (sym before i))

      pub slide_back-Holds :
          (arg : Arg A)
          → Denotes s true arg v
          → size s.vec < front_capacity s.vec
          → Gives
              (step_end (slide_into t buffer (buffer + size s.vec) arg s))
              (λ r. Holds g r (xs ++ v ∷ []))
              (λ r. Holds g r xs)
      unfolding slide_into
      slide_back-Holds arg d less =
          elim (Transferred-cases t (length xs) s.world
            (overlay buffer (block 0 xs (middle + length xs + back_capacity s.vec)) g)
            s.world.cell) [
              | inl (w, e, c) ↦
                  rw (slide_into, slid_back less ∙ e)
                    (emplaced slid w arg (slid-Around less) (value_of_moved s arg v w d) (
                      c
                      ∙ overlay-block g buffer xs 0 (buffer - buffer)
                          (middle + length xs + back_capacity s.vec) (back_capacity slid)
                          (omega arith) (omega (arith, holds.starts, holds.ends, holds.fits))))
              | inr (w, e, c) ↦ rw (slide_into, slid_back less ∙ e) (Holds-same g s xs w holds c)
            ]
