-- ===== src/Devector/Layout.antt =====
-- When a devector holds a list: its pointers, the cells of its storage, and nothing else in memory
-- that is its own.
use seq.Prelude.{ℕ, ◌+◌, ◌≤◌, ◌<◌, ◌≡◌, ◌∙◌, ◌⊎◌, false, List, ◌++◌, length, length-append, arith}
use seq.Memory.{Cell, unmapped, World, overlay, lives, raws, Traits}
use seq.Devector.Transfer.Copy.{is_safe}
use seq.Memory.Steps.{length-lives, length-raws}
use seq.Devector.{Vector, State, front_capacity, back_capacity}

module _ {A : Type 0} where
  -- Storage with `front` free cells, the objects `xs`, and `back` free cells.
  abbrev pub block : ℕ → List A → ℕ → List (Cell A)
  block front xs back = raws front ++ (lives xs ++ raws back)

  pub length-block :
      (front : ℕ) (xs : List A) (back : ℕ) → length (block front xs back) ≡ front + length xs + back
  length-block front xs back = omega (
    arith,
    length-append (raws {A = A} front) (lives xs ++ raws back),
    length-append (lives xs) (raws back),
    length-lives xs,
    length-raws A front,
    length-raws A back,
  )

  pub overlay-block :
      (g : ℕ → Cell A) (p : ℕ) (xs : List A) (f f' b b' : ℕ)
      → f ≡ f'
      → b ≡ b'
      → overlay p (block f xs b) g ≡ overlay p (block f' xs b') g
  overlay-block g p xs f f' b b' e e' i = overlay p (block (e i) xs (e' i)) g

  -- The vector holds `xs`, and the rest of memory is `g`: no other cell is the vector's, no object
  -- stands in its free cells, and none of its storage is lost.
  pub record Holds (g : ℕ → Cell A) (s : State A) (xs : List A) : Type 0 where
    pub starts : s.vec.buffer ≤ s.vec.start
    pub ends : s.vec.end ≡ s.vec.start + length xs
    pub fits : s.vec.end ≤ s.vec.buffer + s.vec.capacity
    pub layout :
        s.world.cell
        ≡ overlay s.vec.buffer (block (front_capacity s.vec) xs (back_capacity s.vec)) g
    pub free : (q : ℕ) → s.vec.buffer ≤ q → q < s.vec.buffer + s.vec.capacity → g q ≡ unmapped
    pub null : s.vec.buffer ≡ 0 → s.vec.capacity ≡ 0

  -- Only memory's cells count.
  pub Holds-same :
      (g : ℕ → Cell A) (s : State A) (xs : List A) (w : World A)
      → Holds g s xs
      → w.cell ≡ s.world.cell
      → Holds g (record s { world = w }) xs
  Holds-same g s xs w h e = record {
    starts = h.starts;
    ends = h.ends;
    fits = h.fits;
    layout = e ∙ h.layout;
    free = h.free;
    null = h.null;
  }

  -- What the allocator promises of an answer `p` to a request for `n` cells: an address that is
  -- not null, of storage that is not in use.
  pub record Fresh (g : ℕ → Cell A) (v : Vector) (p n : ℕ) : Type 0 where
    pub positive : 0 < p
    pub unused : (q : ℕ) → p ≤ q → q < p + n → g q ≡ unmapped
    pub apart : (p + n ≤ v.buffer) ⊎ (v.buffer + v.capacity ≤ p)

-- The strong guarantee: the vector and memory are those before the call.
abbrev pub Unchanged : {A : Type 0} → State A → State A → Type 0
Unchanged s r = (r.vec ≡ s.vec) × (r.world.cell ≡ s.world.cell)

-- A transfer that throws leaves vector and memory as they were, and happens only where moving can
-- throw and there are more objects than constructions that succeed.
abbrev pub Refused : {A : Type 0} → Traits → List A → State A → State A → Type 0
Refused t xs s r = Unchanged s r × (is_safe t ≡ false) × (s.world.fuse < length xs)
