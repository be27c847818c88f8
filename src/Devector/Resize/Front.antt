-- ===== src/Devector/Resize/Front.antt =====
-- `resize_front` keeps the last objects and adds copies at the front.
use seq.Prelude.{
  ℕ, ◌+◌, ◌-◌, ◌≤◌, ◌≡◌, refl, ap, sym, ◌∙◌, inl, inr, true, List, [], ◌++◌, length, length-append,
  length-replicate, length-take_le, length-drop, take, drop, replicate, replicate-append,
  append-nil, append_assoc, take-append-drop, arith, ◌==◌, ltb, leb, if◌then◌else◌, Bool-cases,
}
use seq.Memory.{Cell, raw, overlay, lives, raws, Traits, Gives}
use seq.Memory.Overlay.{overlay_outside}
use seq.Memory.Steps.{length-lives, length-raws, lives-append}
use seq.Devector.{State, size, front_capacity, back_capacity, new_address}
use seq.Devector.Grow.{commit}
use seq.Devector.Layout.{block, overlay-block, Holds, Holds-same, Fresh}
use seq.Devector.Relocation.{raws-split, new_unused, new_null, new_apart}
use seq.Devector.Resize.{resize_front, resize_front_into}
use seq.Devector.Resize.Into.{transit, transit-Gives}
use seq.Devector.Resize.Stretch.{destroy_stretch, construct_stretch}
use seq.Devector.Resize.Back.{Attempt-Gives, filled-Holds}
use seq.Devector.Transfer.{construct_range, destroy_range}

-- What `resize_front` makes of a list.
abbrev pub resized_front {ℓ} : {A : Type ℓ} → ℕ → A → List A → List A
resized_front n v xs = replicate (n - length xs) v ++ drop (length xs - n) xs

module _ {A : Type 0} where
  -- The objects `xs ++ ys`, with `xs` in front.
  block-front :
      (front : ℕ) (xs ys : List A) (back : ℕ)
      → block front (xs ++ ys) back ≡ raws front ++ (lives xs ++ (lives ys ++ raws back))
  block-front front xs ys back =
      ap (λ l. raws front ++ (l ++ raws back)) (lives-append xs ys)
      ∙ ap (λ l. raws front ++ l) (append_assoc (lives xs) (lives ys) (raws back))

  -- Free cells in front of the objects `ys`.
  block-raws_front :
      (front n : ℕ) (ys : List A) (back : ℕ)
      → block (front + n) ys back ≡ raws front ++ (raws n ++ (lives ys ++ raws back))
  block-raws_front front n ys back =
      ap (λ l. l ++ (lives ys ++ raws back)) (sym (replicate-append front n raw))
      ∙ append_assoc (raws front) (raws n) (lives ys ++ raws back)

  module _ (g : ℕ → Cell A) (s : State A) (xs : List A) (holds : Holds g s xs) (t : Traits)
      (p : ℕ) where
    open s.vec use {buffer, start, end, capacity}

    size-length : size s.vec ≡ length xs
    size-length = omega (arith, holds.ends)

    abbrev f : ℕ
    f = front_capacity s.vec

    abbrev b : ℕ
    b = back_capacity s.vec

    -- The rest of memory after `resize_front`: where it takes new storage, the old storage is
    -- still allocated.
    abbrev pub left_over : ℕ → ℕ → Cell A
    left_over n = if leb (n - size s.vec) f then g else overlay buffer (raws capacity) g

    shrink_front-Holds :
        (k : ℕ)
        → k ≤ length xs
        → Gives
            (commit s.vec
              (record s.vec { start = start + k })
              (destroy_range start (start + k) s.world))
            (λ r. Holds g r (drop k xs))
            (λ r. Holds g r xs)
    shrink_front-Holds k h =
        let gone = take k xs in
        let kept = drop k xs in
        let n = length-take_le k xs h in
        let m = length-drop k xs in
        rw
          (destroy_stretch g buffer start (start + k) (raws f) (lives kept ++ raws b)
            (omega (arith, length-raws A f, holds.starts)) s.world gone (omega arith)
            (holds.layout
              ∙ ap (λ l. overlay buffer (block f l b) g) (sym (take-append-drop k xs))
              ∙ ap (λ l. overlay buffer l g) (block-front f gone kept b)))
          (record {
            starts = omega (arith, holds.starts);
            ends = omega (arith, holds.ends);
            fits = holds.fits;
            layout =
                ap (λ l. overlay buffer l g) (sym (block-raws_front f (length gone) kept b))
                ∙ overlay-block g buffer kept (f + length gone) (start + k - buffer) b b
                    (omega (arith, holds.starts)) refl;
            free = holds.free;
            null = holds.null;
          })

    extend_front-Holds :
        (n : ℕ) (v : A)
        → n ≤ f
        → Gives
            (commit s.vec
              (record s.vec { start = start - n })
              (construct_range (start - n) start v s.world))
            (λ r. Holds g r (replicate n v ++ xs))
            (λ r. Holds g r xs)
    extend_front-Holds n v h =
        let r = replicate n v in
        let k = length-replicate n v in
        let c = f - n in
        rw
          (construct_stretch g buffer (start - n) start (raws c) (lives xs ++ raws b)
            (omega (arith, length-raws A c, holds.starts)) s.world n v (omega (arith, holds.starts))
            (holds.layout
              ∙ overlay-block g buffer xs f (c + n) b b (omega arith) refl
              ∙ ap (λ l. overlay buffer l g) (block-raws_front c n xs b)))
          (Attempt-Gives s.vec (record s.vec { start = start - n }) n s.world _ _ _ _
            (λ w e. record {
              starts = omega (arith, holds.starts);
              ends = omega (arith, length-append r xs, holds.ends, holds.starts);
              fits = holds.fits;
              layout =
                  e
                  ∙ ap (λ l. overlay buffer l g) (sym (block-front c r xs b))
                  ∙ overlay-block g buffer (r ++ xs) c (start - n - buffer) b b
                      (omega (arith, holds.starts)) refl;
              free = holds.free;
              null = holds.null;
            })
            (λ w e. Holds-same g s xs w holds e))

    module _ (n : ℕ) (v : A) (fresh : Fresh g s.vec p n) (h : length xs ≤ n) where
      abbrev more : ℕ
      more = n - length xs

      abbrev fill : List A
      fill = replicate more v

      fills : length (lives fill) + length xs + length {A = Cell A} [] ≡ n
      fills = omega (arith, length-lives fill, length-replicate more v)

      empty : raws {A = A} n ≡ [] ++ (raws more ++ (raws (length xs) ++ []))
      empty = raws-split more (length xs) 0 n (omega arith)

      filled : lives fill ++ (lives xs ++ []) ≡ lives (fill ++ xs)
      filled = ap (λ l. lives fill ++ l) (append-nil (lives xs)) ∙ sym (lives-append fill xs)

      resize_front_into-Holds :
          Gives
            (resize_front_into t p n v s)
            (λ r. Holds (overlay buffer (raws capacity) g) r (fill ++ xs))
            (λ r. Holds g r xs)
      unfolding resize_front_into transit
      resize_front_into-Holds =
          let new = new_address p n in
          let first = new + (n - size s.vec) in
          transit-Gives g s xs holds p n fresh more v t (lives fill) [] [] (raws (length xs) ++ [])
            fills refl empty new first first (omega arith) (omega (arith, size-length))
            (omega (arith, size-length, length-lives fill, length-replicate more v)) _ _
            (λ w c.
              filled-Holds (overlay buffer (raws capacity) g) (fill ++ xs) new n _
                (omega (arith, length-append fill xs, length-replicate more v))
                (c ∙ ap (λ l. overlay new l (overlay buffer (raws capacity) g)) filled)
                (λ a lo hi.
                  overlay_outside g buffer (raws capacity) a
                    (ground (arith, new_apart g s xs p n holds fresh, length-raws A capacity))
                  ∙ new_unused g s xs p n holds fresh a lo hi)
                (new_null g s xs p n holds fresh))

    -- On a vector that holds `xs`, where the allocator answers a request for `n` cells with unused
    -- storage, `resize_front` to `n` does not fault: it leaves a vector that holds the last `n`
    -- elements of `xs`, with copies of `v` before them up to length `n`, or throws and leaves one
    -- that holds `xs`. Where the new elements do not fit in front, the rest of memory has the cells
    -- of the old storage still allocated.
    pub resize_front-Holds :
        (n : ℕ) (v : A)
        → Fresh g s.vec p n
        → Gives
            (resize_front t p n v s)
            (λ r. Holds (left_over n) r (resized_front n v xs))
            (λ r. Holds g r xs)
    unfolding resize_front
    resize_front-Holds n v fresh = elim (Bool-cases (size s.vec == n)) [
      | inl same ↦
          let all : n ≡ length xs = ground (arith, size-length) in
          rw
            (
              same,
              (let z : n - length xs ≡ 0 = omega arith in z),
              (let z : length xs - n ≡ 0 = omega arith in z),
              (let z : leb (n - size s.vec) f ≡ true = ground (arith, size-length) in z),
            )
            holds
      | inr other ↦ elim (Bool-cases (ltb (size s.vec) n)) [
        | inl longer ↦
            let h : length xs ≤ n = ground (arith, size-length) in
            let k : n - size s.vec ≡ n - length xs = omega (arith, size-length) in
            rw (other, longer, (let z : length xs - n ≡ 0 = omega arith in z))
              (elim (Bool-cases (leb (n - size s.vec) f)) [
                | inl room ↦ rw (room, k) (extend_front-Holds (n - length xs) v (ground arith))
                | inr short ↦ rw short (resize_front_into-Holds n v fresh h)
              ])
        | inr shorter ↦
            let h : n ≤ length xs = ground (arith, size-length) in
            rw
              (
                other,
                shorter,
                (let z : n - length xs ≡ 0 = omega arith in z),
                (let z : leb (n - size s.vec) f ≡ true = ground (arith, size-length) in z),
                (let z : size s.vec - n ≡ length xs - n = omega (arith, size-length) in z),
              )
              (shrink_front-Holds (length xs - n) (omega arith))
      ]
    ]
