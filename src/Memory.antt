-- ===== src/Memory.antt =====
-- Addresses, cells and the life of objects: what placement new, destructors, `memcpy` and an
-- allocator do to memory.
pub mod Overlay
pub mod Steps
use seq.Prelude.{
  ℕ, zero, suc, ◌+◌, ◌-◌, ◌≡◌, Bool, true, false, ◌||◌, List, [], ◌∷◌, Option, none, some, ltb, leb,
  ◌==◌, if◌then◌else◌, get_or, replicate, length, map,
}

-- An address is not allocated, or is storage without an object, or holds an object.
pub data Cell (A : Type 0) : Type 0 where
  unmapped raw : Cell A
  live : A → Cell A

-- `fuse` is the number of constructions that may throw which still succeed.
pub record World (A : Type 0) : Type 0 where
  pub cell : ℕ → Cell A
  pub fuse : ℕ

-- `threw` is an exception on its way, with the state that it leaves. `fault` is undefined
-- behaviour: a construction over an object or outside an allocation, a destruction or a read of
-- what is no object.
pub data Outcome (S : Type 0) : Type 0 where
  ok threw : S → Outcome S
  fault : Outcome S

-- The run does not fault: it ends in a state that satisfies `P`, or throws in one that satisfies `Q`.
abbrev pub Gives : {S : Type 0} → Outcome S → (S → Type 0) → (S → Type 0) → Type 0
Gives (ok s) P Q = P s
Gives (threw s) P Q = Q s
Gives fault P Q = ⊥

pub Gives-map :
    {S : Type 0} (o : Outcome S) (P P' Q : S → Type 0)
    → Gives o P Q
    → ((s : S) → P s → P' s)
    → Gives o P' Q
Gives-map (ok s) P P' Q h f = f s h
Gives-map (threw s) P P' Q h f = h
Gives-map fault P P' Q h f = absurd h

infixl 5 ◌>>=◌
abbrev pub ◌>>=◌ : {S : Type 0} → Outcome S → (S → Outcome S) → Outcome S
ok s >>= f = f s
threw s >>= f = threw s
fault >>= f = fault

pub Gives-bimap :
    {S : Type 0} (o : Outcome S) (P P' Q Q' : S → Type 0)
    → Gives o P Q
    → ((s : S) → P s → P' s)
    → ((s : S) → Q s → Q' s)
    → Gives o P' Q'
Gives-bimap (ok s) P P' Q Q' h k l = k s h
Gives-bimap (threw s) P P' Q Q' h k l = l s h
Gives-bimap fault P P' Q Q' h k l = h

-- What is done after a run that succeeds.
pub Gives-bind :
    {S : Type 0} (o : Outcome S) (f : S → Outcome S) (P P' Q Q' : S → Type 0)
    → Gives o P Q
    → ((s : S) → P s → Gives (f s) P' Q')
    → ((s : S) → Q s → Q' s)
    → Gives (o >>= f) P' Q'
Gives-bind (ok s) f P P' Q Q' h k l = k s h
Gives-bind (threw s) f P P' Q Q' h k l = l s h
Gives-bind fault f P P' Q Q' h k l = h

-- The end of a handler: `throw;`.
abbrev pub rethrow : {S : Type 0} → Outcome S → Outcome S
rethrow (ok s) = threw s
rethrow (threw s) = threw s
rethrow fault = fault

-- What the code asks of the element type: `is_relocatable`, and whether its move constructor is
-- noexcept.
pub record Traits : Type 0 where
  pub relocatable : Bool
  pub nothrow_move : Bool

module _ {A : Type 0} where
  abbrev pub put : (ℕ → Cell A) → ℕ → Cell A → ℕ → Cell A
  put h p c q = if p == q then c else h q

  -- The cells `cs` at `s`, and `h` elsewhere.
  abbrev pub overlay : ℕ → List (Cell A) → (ℕ → Cell A) → ℕ → Cell A
  overlay s cs h p = if ltb p s then h p else get_or cs (p - s) (h p)

  abbrev pub lives : List A → List (Cell A)
  lives [] = []
  lives (x ∷ xs) = live x ∷ lives xs

  abbrev pub raws : ℕ → List (Cell A)
  raws n = replicate n raw

  abbrev pub object : Cell A → Option A
  object (live v) = some v
  object _ = none

  -- Whether an object can be constructed there.
  abbrev pub is_raw : Cell A → Bool
  is_raw raw = true
  is_raw _ = false

  -- `new (p) T(v)` of a type whose construction throws, or not.
  unfoldable pub construct_ptr : Bool → ℕ → A → World A → Outcome (World A)
  construct_ptr nothrow p v w =
      if is_raw (w.cell p)
      then (if nothrow
          then ok (record w { cell = put w.cell p (live v) })
          else (if w.fuse == 0
              then threw w
              else ok (record { cell = put w.cell p (live v); fuse = w.fuse - 1 })))
      else fault

  -- `p->~T()`
  unfoldable pub destroy_ptr : ℕ → World A → Outcome (World A)
  destroy_ptr p w = elim (object (w.cell p)) [
    | some v ↦ ok (record w { cell = put w.cell p raw })
    | none ↦ fault
  ]

  unfoldable pub destroy_cells : ℕ → ℕ → World A → Outcome (World A)
  destroy_cells zero p w = ok w
  destroy_cells (suc n) p w = destroy_ptr p w >>= destroy_cells n (p + 1)

  -- `memcpy` of `n` objects: the objects move, the storage that they leave is raw.
  unfoldable pub memcpy : ℕ → ℕ → ℕ → World A → Outcome (World A)
  memcpy zero dst src w = ok w
  memcpy (suc n) dst src w = elim (object (w.cell src)) [
    | some v ↦
        memcpy n (dst + 1) (src + 1) (record w { cell = put (put w.cell src raw) dst (live v) })
    | none ↦ fault
  ]

  -- The allocator answers with the address of `n` cells.
  unfoldable pub allocate : ℕ → ℕ → World A → World A
  allocate p n w = record w { cell = overlay p (raws n) w.cell }

  unfoldable pub deallocate : ℕ → ℕ → World A → World A
  deallocate p n w = record w { cell = overlay p (replicate n unmapped) w.cell }
