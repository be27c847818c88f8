-- ===== src/Devector/Relocation.antt =====
-- The objects of a devector in transit from its storage to new storage, where other objects may
-- stand already.
use seq.Prelude.{
  ℕ, ◌+◌, ◌≤◌, ◌<◌, ◌≡◌, refl, ap, sym, ◌∙◌, ◌⊎◌, List, ◌++◌, length, replicate, length-append,
  replicate-append, length-replicate, append_assoc, arith, Bool-cases, ◌==◌, inl, inr,
}
use seq.Memory.{Cell, unmapped, raw, World, overlay, lives, raws, Traits}
use seq.Memory
use seq.Memory.Overlay.{overlay_comm, overlay_same, splice, overlay_free, overlay-nil}
use seq.Memory.Steps.{length-lives, length-raws}
use seq.Devector.{State, front_capacity, back_capacity, new_address, allocate, deallocate}
use seq.Devector.Layout.{block, length-block, Holds, Fresh}
use seq.Devector.Transfer.{copy_destroy_input}
use seq.Devector.Transfer.Loops.{Apart, Before, After}
use seq.Devector.Transfer.Copy.{Transferred, copy_destroy_input_lem}

module _ {A : Type 0} where
  allocate-cell :
      (p n : ℕ) (w : World A) → (allocate p n w).cell ≡ overlay (new_address p n) (raws n) w.cell
  unfolding allocate Memory.allocate
  allocate-cell p n w = elim (Bool-cases (n == 0)) [
    | inl z ↦ let e : n ≡ 0 = ground arith in rw (e) (sym (overlay-nil w.cell 0))
    | inr z ↦ rw z
  ]

  pub allocate-fuse : (p n : ℕ) (w : World A) → (allocate p n w).fuse ≡ w.fuse
  unfolding allocate Memory.allocate
  allocate-fuse p n w = ground arith

  pub deallocate-fuse : (p n : ℕ) (w : World A) → (deallocate p n w).fuse ≡ w.fuse
  unfolding deallocate Memory.deallocate
  deallocate-fuse p n w = ground arith

  pub deallocate-cell :
      (p n : ℕ) (w : World A)
      → (p ≡ 0 → n ≡ 0)
      → (deallocate p n w).cell ≡ overlay p (replicate n unmapped) w.cell
  unfolding deallocate Memory.deallocate
  deallocate-cell p n w null = elim (Bool-cases (p == 0)) [
    | inl z ↦ let e : n ≡ 0 = null (ground arith) in rw (e, z) (sym (overlay-nil w.cell p))
    | inr z ↦ rw z
  ]

  pub raws-split : (a b c n : ℕ) → n ≡ a + b + c → raws {A = A} n ≡ raws a ++ (raws b ++ raws c)
  raws-split a b c n e =
      ap (λ k. raws k) e
      ∙ sym (replicate-append (a + b) c raw)
      ∙ ap (λ l. l ++ raws c) (sym (replicate-append a b raw))
      ∙ append_assoc (raws a) (raws b) (raws c)

  module _ (g : ℕ → Cell A) (s : State A) (xs : List A) (p n : ℕ) (holds : Holds g s xs)
      (fresh : Fresh g s.vec p n) where
    open s.vec use {buffer, start, end, capacity}

    abbrev new : ℕ
    new = new_address p n

    abbrev front : ℕ
    front = front_capacity s.vec

    abbrev back : ℕ
    back = back_capacity s.vec

    -- The new storage lies apart from the old one, and is not in use.
    pub new_apart : (new + n ≤ buffer) ⊎ (buffer + capacity ≤ new)
    new_apart = ground (arith, fresh.apart, holds.null)

    pub new_unused : (q : ℕ) → new ≤ q → q < new + n → g q ≡ unmapped
    new_unused q lo hi = ground (arith, fresh.unused q)

    pub new_null : new ≡ 0 → n ≡ 0
    new_null z = ground (arith, fresh.positive)

    blocks_apart :
        (cs ds : List (Cell A))
        → length cs ≡ n
        → length ds ≡ capacity
        → overlay new cs (overlay buffer ds g) ≡ overlay buffer ds (overlay new cs g)
    blocks_apart cs ds e f = overlay_comm g new buffer cs ds (ground (arith, new_apart))

    length-old : length (block front xs back) ≡ capacity
    length-old = omega (arith, length-block front xs back, holds.starts, holds.ends, holds.fits)

    pub allocated :
        (allocate p n s.world).cell ≡ overlay new (raws n) (overlay buffer (block front xs back) g)
    allocated = allocate-cell p n s.world ∙ ap (overlay new (raws n)) holds.layout

    -- A handler returns the new storage, whatever is in it, and memory is as before the call.
    pub restored_from :
        (cs : List (Cell A)) (w : World A)
        → length cs ≡ n
        → w.cell ≡ overlay new cs (overlay buffer (block front xs back) g)
        → (deallocate new n w).cell ≡ s.world.cell
    restored_from cs w l e =
        deallocate-cell new n w new_null
        ∙ ap (overlay new (replicate n unmapped)) e
        ∙ overlay_same (overlay buffer (block front xs back) g) new (replicate n unmapped) cs
            (length-replicate n unmapped ∙ sym l)
        ∙ blocks_apart (replicate n unmapped) (block front xs back) (length-replicate n unmapped)
            length-old
        ∙ ap (overlay buffer (block front xs back)) (overlay_free g new n unmapped new_unused)
        ∙ sym holds.layout

    pub restored :
        (w : World A)
        → w.cell ≡ overlay new (raws n) (overlay buffer (block front xs back) g)
        → (deallocate new n w).cell ≡ s.world.cell
    restored w e = restored_from (raws n) w (length-raws A n) e

    module _ (pre post : List (Cell A)) (room : length pre + length xs + length post ≡ n) where
      -- New storage with the cells `cs` between `pre` and `post`.
      abbrev pub beside : List (Cell A) → List (Cell A)
      beside cs = pre ++ (cs ++ post)

      pub length-beside : (cs : List (Cell A)) → length cs ≡ length xs → length (beside cs) ≡ n
      length-beside cs e = omega (arith, length-append pre (cs ++ post), length-append cs post)

      -- Memory before the transfer.
      abbrev pub grown : ℕ → Cell A
      grown = overlay new (beside (raws (length xs))) (overlay buffer (block front xs back) g)

      -- Memory after the transfer.
      abbrev pub moved : ℕ → Cell A
      moved = overlay new (beside (lives xs)) (overlay buffer (raws capacity) g)

      -- A stretch of the new storage is overwritten.
      over_new :
          (cs ds : List (Cell A)) (h : ℕ → Cell A)
          → length cs ≡ length ds
          → overlay (new + length pre) cs (overlay new (beside ds) h) ≡ overlay new (beside cs) h
      over_new cs ds h e = splice h new (new + length pre) pre cs ds post refl e

      -- A stretch of the old storage is overwritten.
      over_old :
          (cs : List (Cell A)) (h : ℕ → Cell A)
          → length cs ≡ length xs
          → overlay start cs (overlay buffer (block front xs back) h)
            ≡ overlay buffer (raws front ++ (cs ++ raws back)) h
      over_old cs h e =
          splice h buffer start (raws front) cs (lives xs) (raws back)
            (omega (arith, length-raws A front, holds.starts)) (omega (arith, length-lives xs))

      pub gap : length (raws {A = A} (length xs)) ≡ length xs
      gap = length-raws A (length xs)

      grown_comm :
          grown ≡ overlay buffer (block front xs back) (overlay new (beside (raws (length xs))) g)
      grown_comm =
          blocks_apart (beside (raws (length xs))) (block front xs back)
            (length-beside (raws (length xs)) gap) length-old

      grown-Before : grown ≡ Before start (new + length pre) xs grown
      grown-Before =
          grown_comm
          ∙ sym (over_old (lives xs) (overlay new (beside (raws (length xs))) g) (length-lives xs))
          ∙ ap (overlay start (lives xs)) (sym grown_comm)
          ∙ ap (overlay start (lives xs)) (
              sym (
                over_new (raws (length xs)) (raws (length xs))
                  (overlay buffer (block front xs back) g) refl))

      raws-old : raws {A = A} front ++ (raws (length xs) ++ raws back) ≡ raws capacity
      raws-old = sym (
          raws-split front (length xs) back capacity
            (omega (arith, holds.starts, holds.ends, holds.fits)))

      After-moved : After start (new + length pre) xs grown ≡ moved
      After-moved =
          ap (overlay start (raws (length xs))) (
            over_new (lives xs) (raws (length xs)) (overlay buffer (block front xs back) g)
              (length-lives xs ∙ sym gap)
            ∙ blocks_apart (beside (lives xs)) (block front xs back)
                (length-beside (lives xs) (length-lives xs)) length-old)
          ∙ over_old (raws (length xs)) (overlay new (beside (lives xs)) g) gap
          ∙ ap (λ l. overlay buffer l (overlay new (beside (lives xs)) g)) raws-old
          ∙ sym (
              blocks_apart (beside (lives xs)) (raws capacity)
                (length-beside (lives xs) (length-lives xs)) (length-raws A capacity))

      stretches-Apart : Apart start (new + length pre) (length xs)
      stretches-Apart = ground (arith, new_apart, holds.starts, holds.ends, holds.fits)

      pub transferred :
          (t : Traits) (w : World A)
          → w.cell ≡ grown
          → copy_destroy_input t start end (new + length pre) w
            ≡ Transferred t (length xs) w moved grown
      transferred t w e =
          copy_destroy_input_lem xs grown start (new + length pre) end w stretches-Apart holds.ends
            (e ∙ grown-Before) t
          ∙ (λ i. Transferred t (length xs) w (After-moved i) (sym grown-Before i))

      -- The old storage is returned.
      pub returned :
          (w : World A)
          → w.cell ≡ moved
          → (deallocate buffer capacity w).cell ≡ overlay new (beside (lives xs)) g
      returned w e =
          let there = length-beside (lives xs) (length-lives xs) in
          let gone : List (Cell A) = replicate capacity unmapped in
          let gone_length = length-replicate capacity unmapped in
          deallocate-cell buffer capacity w holds.null
          ∙ ap (overlay buffer gone)
              (e ∙ blocks_apart (beside (lives xs)) (raws capacity) there (length-raws A capacity))
          ∙ overlay_same (overlay new (beside (lives xs)) g) buffer gone (raws capacity)
              (gone_length ∙ sym (length-raws A capacity))
          ∙ sym (blocks_apart (beside (lives xs)) gone there gone_length)
          ∙ ap (overlay new (beside (lives xs)))
              (overlay_free g buffer capacity unmapped holds.free)
