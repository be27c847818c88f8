-- ===== src/CircularBuffer/View.antt =====
-- The cells of a ring in the order of their indices, and what a change of one cell does to them.
use Prim.Native.Nat.{bit_and}
use seq.Prelude.{
  ℕ, ◌+◌, ◌-◌, ◌^◌, ◌≤◌, ◌<◌, ◌≡◌, ap, sym, ◌∙◌, ◌⊎◌, fun_ext, arith, ltb, if◌then◌else◌,
}
use seq.Memory.{Cell, unmapped, World, put}
use seq.CircularBuffer.{Ring, at, step_up}
use seq.CircularBuffer.Masks.{wrap}

-- The storage of a ring: a power of two, with its mask, and a begin inside.
pub record Shape (b : Ring) : Type 0 where
  pub bits : ℕ
  pub power : b.max_size ≡ 2 ^ bits
  pub mask : b.max_size1 + 1 ≡ b.max_size
  pub inside : b.begin < b.max_size

-- Where the cell with an index is.
abbrev pub slot : Ring → ℕ → ℕ
slot b i =
    b.buffer + (if ltb (b.begin + i) b.max_size then b.begin + i else b.begin + i - b.max_size)

pub wrap_ring :
    (b : Ring) (x : ℕ)
    → Shape b
    → x < b.max_size + b.max_size
    → bit_and x b.max_size1 ≡ (if ltb x b.max_size then x else x - b.max_size)
wrap_ring b x s h =
    wrap s.bits b.max_size1 x (s.mask ∙ s.power) (omega (arith, s.power))
    ∙ ap (λ m. if ltb x m then x else x - m) (sym s.power)

pub at-slot : (b : Ring) (i : ℕ) → Shape b → i ≤ b.max_size → at b i ≡ slot b i
unfolding at
at-slot b i s h = ap (λ k. b.buffer + k) (wrap_ring b (b.begin + i) s (omega (arith, s.inside)))

pub step_up_begin :
    (b : Ring)
    → Shape b
    → (step_up b).begin ≡ (if ltb (b.begin + 1) b.max_size then b.begin + 1 else 0)
step_up_begin b s = ground (arith, wrap_ring b (b.begin + 1) s, s.inside)

pub slot-inside :
    (b : Ring) (i : ℕ)
    → Shape b
    → i < b.max_size
    → (b.buffer ≤ slot b i) × (slot b i < b.buffer + b.max_size)
slot-inside b i s h = ground (arith, s.inside)

slot-injective :
    (b : Ring) (i j : ℕ) → Shape b → i < b.max_size → j < b.max_size → slot b i ≡ slot b j → i ≡ j
slot-injective b i j s h k e = ground (arith, s.inside)

module _ {A : Type 0} where
  abbrev pub nothing : ℕ → Cell A
  nothing i = unmapped

  -- The cells in the order of their indices.
  abbrev pub view : Ring → (ℕ → Cell A) → ℕ → Cell A
  view b c i = if ltb i b.max_size then c (slot b i) else unmapped

  -- Memory shows `h` in the ring, and is `g` around it.
  pub record Shows (b : Ring) (g : ℕ → Cell A) (w : World A) (h : ℕ → Cell A) : Type 0 where
    pub cells : view b w.cell ≡ h
    pub rest : (p : ℕ) → (p < b.buffer) ⊎ (b.buffer + b.max_size ≤ p) → w.cell p ≡ g p

  module _ (b : Ring) (shape : Shape b) (g : ℕ → Cell A) (w : World A) (h : ℕ → Cell A)
      (shows : Shows b g w h) (i : ℕ) (inside : i < b.max_size) where
    pub Shows-cell : w.cell (slot b i) ≡ h i
    Shows-cell = let e : view b w.cell i ≡ h i = (λ k. shows.cells k i) in ground arith

    pub Shows-put :
        (fuse : ℕ) (c : Cell A)
        → Shows b g (record { cell = put w.cell (slot b i) c; fuse = fuse }) (put h i c)
    Shows-put fuse c = record {
      cells = fun_ext λ j.
          (let e : view b w.cell j ≡ h j = (λ k. shows.cells k j) in
            ground (arith, slot-injective b i j shape inside));
      rest = λ p out. ground (arith, shows.rest p, slot-inside b i shape inside);
    }
