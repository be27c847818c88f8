-- ===== src/Devector/Resize/Back.antt =====
-- `resize` keeps the first objects and adds copies at the end.
use seq.Prelude.{
  ℕ, ◌+◌, ◌-◌, ◌≤◌, ◌<◌, ◌≡◌, refl, ap, sym, ◌∙◌, inl, inr, List, [], ◌++◌, length, length-append,
  resized, resized-longer, resized-shorter, length-replicate, length-take_le, length-drop, take,
  drop, replicate, replicate-append, append-nil, append_assoc, take-append-drop, arith, ◌==◌, ltb,
  leb, Bool-cases,
}
use seq.Memory.{Cell, unmapped, raw, World, overlay, lives, raws, Traits, Gives}
use seq.Memory.Steps.{length-lives, length-raws, lives-append}
use seq.Devector.{Vector, State, size, front_capacity, back_capacity, new_address}
use seq.Devector.Grow.{commit}
use seq.Devector.Grow.Focus.{length-prefix}
use seq.Devector.Layout.{block, overlay-block, Holds, Holds-same, Fresh}
use seq.Devector.Relocation.{raws-split, new_unused, new_null, returned}
use seq.Devector.Resize.Into.{transit, transit-Gives}
use seq.Devector.Resize.{resize, resize_into}
use seq.Devector.Resize.Stretch.{destroy_stretch, construct_stretch}
use seq.Devector.Transfer.Throwing.{Attempt}
use seq.Devector.Transfer.{construct_range, destroy_range}

module _ {A : Type 0} where
  -- A construction that may throw, at the end of an operation.
  pub Attempt-Gives :
      (v u : Vector) (n : ℕ) (w : World A) (h k : ℕ → Cell A) (P Q : State A → Type 0)
      → ((r : World A) → r.cell ≡ h → P (record { vec = u; world = r }))
      → ((r : World A) → r.cell ≡ k → Q (record { vec = v; world = r }))
      → Gives (commit v u (Attempt n w h k)) P Q
  Attempt-Gives v u n w h k P Q f e = elim (Bool-cases (leb n w.fuse)) [
    | inl fits ↦ rw fits (f _ refl)
    | inr short ↦ rw short (e _ refl)
  ]

  -- Two blocks of the same storage, split in different places.
  pub block-append :
      (front : ℕ) (xs ys : List A) (back : ℕ)
      → block front (xs ++ ys) back ≡ (raws front ++ lives xs) ++ (lives ys ++ raws back)
  block-append front xs ys back =
      ap (λ l. raws front ++ (l ++ raws back)) (lives-append xs ys)
      ∙ ap (λ l. raws front ++ l) (append_assoc (lives xs) (lives ys) (raws back))
      ∙ sym (append_assoc (raws front) (lives xs) (lives ys ++ raws back))

  pub block-raws :
      (front : ℕ) (xs : List A) (n back : ℕ)
      → block front xs (n + back) ≡ (raws front ++ lives xs) ++ (raws n ++ raws back)
  block-raws front xs n back =
      ap (λ l. raws front ++ (lives xs ++ l)) (sym (replicate-append n back raw))
      ∙ sym (append_assoc (raws front) (lives xs) (raws n ++ raws back))

  -- New storage holds exactly `ys`.
  pub filled-Holds :
      (h : ℕ → Cell A) (ys : List A) (q n : ℕ) (w : World A)
      → length ys ≡ n
      → w.cell ≡ overlay q (lives ys) h
      → ((a : ℕ) → q ≤ a → a < q + n → h a ≡ unmapped)
      → (q ≡ 0 → n ≡ 0)
      → Holds h
          (record { vec = record { buffer = q; start = q; end = q + n; capacity = n }; world = w })
          ys
  filled-Holds h ys q n w k e unused z = record {
    starts = omega arith;
    ends = omega (arith, k);
    fits = omega arith;
    layout =
        e
        ∙ ap (λ l. overlay q l h) (sym (append-nil (lives ys)))
        ∙ overlay-block h q ys 0 (q - q) 0 (q + n - (q + n)) (omega arith) (omega arith);
    free = unused;
    null = z;
  }

  module _ (g : ℕ → Cell A) (s : State A) (xs : List A) (holds : Holds g s xs) (t : Traits)
      (p : ℕ) where
    open s.vec use {buffer, start, end, capacity}

    size-length : size s.vec ≡ length xs
    size-length = omega (arith, holds.ends)

    abbrev f : ℕ
    f = front_capacity s.vec

    abbrev b : ℕ
    b = back_capacity s.vec

    shrink-Holds :
        (n : ℕ)
        → n ≤ length xs
        → Gives
            (commit s.vec
              (record s.vec { end = start + n })
              (destroy_range (start + n) end s.world))
            (λ r. Holds g r (take n xs))
            (λ r. Holds g r xs)
    shrink-Holds n h =
        let kept = take n xs in
        let gone = drop n xs in
        let k = length-take_le n xs h in
        let m = length-drop n xs in
        rw
          (destroy_stretch g buffer (start + n) end (raws f ++ lives kept) (raws b)
            (omega (arith, length-prefix f kept, holds.starts)) s.world gone
            (omega (arith, holds.ends))
            (holds.layout
              ∙ ap (λ l. overlay buffer (block f l b) g) (sym (take-append-drop n xs))
              ∙ ap (λ l. overlay buffer l g) (block-append f kept gone b)))
          (record {
            starts = holds.starts;
            ends = omega arith;
            fits = omega (arith, holds.ends, holds.fits);
            layout =
                ap (λ l. overlay buffer l g) (sym (block-raws f kept (length gone) b))
                ∙ overlay-block g buffer kept f f (length gone + b)
                    (buffer + capacity - (start + n)) refl (omega (arith, holds.ends, holds.fits));
            free = holds.free;
            null = holds.null;
          })

    extend-Holds :
        (n last : ℕ) (v : A)
        → n ≤ b
        → last ≡ end + n
        → Gives
            (commit s.vec (record s.vec { end = last }) (construct_range end last v s.world))
            (λ r. Holds g r (xs ++ replicate n v))
            (λ r. Holds g r xs)
    extend-Holds n last v h at =
        let r = replicate n v in
        let k = length-replicate n v in
        let c = b - n in
        rw
          (construct_stretch g buffer end last (raws f ++ lives xs) (raws c)
            (omega (arith, length-prefix f xs, holds.starts, holds.ends)) s.world n v at
            (holds.layout
              ∙ overlay-block g buffer xs f f b (n + c) refl (omega arith)
              ∙ ap (λ l. overlay buffer l g) (block-raws f xs n c)))
          (Attempt-Gives s.vec (record s.vec { end = last }) n s.world _ _ _ _
            (λ w e. record {
              starts = holds.starts;
              ends = omega (arith, length-append xs r, holds.ends);
              fits = omega (arith, holds.fits);
              layout =
                  e
                  ∙ ap (λ l. overlay buffer l g) (sym (block-append f xs r c))
                  ∙ overlay-block g buffer (xs ++ r) f f c (buffer + capacity - last) refl
                      (omega arith);
              free = holds.free;
              null = holds.null;
            })
            (λ w e. Holds-same g s xs w holds e))

    module _ (n : ℕ) (v : A) (fresh : Fresh g s.vec p n) (h : length xs ≤ n) where
      abbrev more : ℕ
      more = n - length xs

      abbrev fill : List A
      fill = replicate more v

      abbrev post : List (Cell A)
      post = lives fill ++ []

      fills : length {A = Cell A} [] + length xs + length post ≡ n
      fills =
          omega (arith, length-append (lives fill) [], length-lives fill, length-replicate more v)

      empty : raws {A = A} n ≡ raws (length xs) ++ (raws more ++ [])
      empty = raws-split (length xs) more 0 n (omega arith)

      new_end : new_address p n + n ≡ new_address p n + size s.vec + more
      new_end = omega (arith, size-length)

      at_first : new_address p n + size s.vec ≡ new_address p n + length (raws {A = A} (length xs))
      at_first = omega (arith, size-length, length-raws A (length xs))

      filled : [] ++ (lives xs ++ post) ≡ lives (xs ++ fill)
      filled = ap (λ l. lives xs ++ l) (append-nil (lives fill)) ∙ sym (lives-append xs fill)

      resize_into-Holds :
          Gives (resize_into t p n v s) (λ r. Holds g r (xs ++ fill)) (λ r. Holds g r xs)
      unfolding resize_into transit
      resize_into-Holds =
          let new = new_address p n in
          transit-Gives g s xs holds p n fresh more v t [] post (raws (length xs)) [] fills refl
            empty (new + size s.vec) (new + n) new at_first new_end (omega arith) _ _
            (λ w c.
              filled-Holds g (xs ++ fill) new n _
                (omega (arith, length-append xs fill, length-replicate more v))
                (returned g s xs p n holds fresh [] post fills w c
                  ∙ ap (λ l. overlay new l g) filled)
                (new_unused g s xs p n holds fresh) (new_null g s xs p n holds fresh))

    -- On a vector that holds `xs`, where the allocator answers a request for `n` cells with unused
    -- storage, `resize` to `n` does not fault: it leaves a vector that holds the first `n` elements
    -- of `xs`, followed by copies of `v` up to length `n`, or throws and leaves one that holds
    -- `xs`.
    pub resize-Holds :
        (n : ℕ) (v : A)
        → Fresh g s.vec p n
        → Gives (resize t p n v s) (λ r. Holds g r (resized n v xs)) (λ r. Holds g r xs)
    unfolding resize
    resize-Holds n v fresh = elim (Bool-cases (size s.vec == n)) [
      | inl same ↦
          let all : n ≡ length xs = ground (arith, size-length) in
          rw
            (
              same,
              resized-longer n v xs (omega arith),
              (let z : n - length xs ≡ 0 = omega arith in z),
              append-nil xs,
            )
            holds
      | inr other ↦ elim (Bool-cases (ltb (size s.vec) n)) [
        | inl longer ↦
            let h : length xs ≤ n = ground (arith, size-length) in
            let k : n - size s.vec ≡ n - length xs = omega (arith, size-length) in
            rw (other, longer, resized-longer n v xs h)
              (elim (Bool-cases (leb (n - size s.vec) b)) [
                | inl room ↦ rw room (
                    extend-Holds (n - length xs) (start + n) v (ground arith)
                      (omega (arith, h, holds.ends)))
                | inr short ↦ rw short (resize_into-Holds n v fresh h)
              ])
        | inr shorter ↦
            let h : n ≤ length xs = ground (arith, size-length) in
            rw (other, shorter, resized-shorter n v xs h) (shrink-Holds n h)
      ]
    ]
