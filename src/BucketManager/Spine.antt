-- ===== src/BucketManager/Spine.antt =====
-- The sizes of the buckets: all are full but the first and the last.
use seq.Prelude.{ℕ, ◌+◌, ◌≤◌, ◌<◌, ◌≡◌, arith, List, [], ◌∷◌, ◌++◌}

-- The sizes behind the first one.
abbrev pub Tail : ℕ → List ℕ → Type 0
Tail n [] = ⊥
Tail n (l ∷ []) = (0 < l) × (l ≤ n)
Tail n (l ∷ k ∷ ls) = (l ≡ n) × Tail n (k ∷ ls)

-- A single bucket can be empty.
abbrev pub Spine : ℕ → List ℕ → Type 0
Spine n [] = 0 ≤ n
Spine n (l ∷ []) = l ≤ n
Spine n (l ∷ k ∷ ls) = (0 < l) × (l ≤ n) × Tail n (k ∷ ls)

module _ (n : ℕ) where
  pub Tail-head :
      (l : ℕ) (ls : List ℕ) (k : ℕ) (rs : List ℕ)
      → Tail n (l ∷ (ls ++ k ∷ rs))
      → (l ≡ n) × Tail n (ls ++ k ∷ rs)
  Tail-head l [] k rs t = t
  Tail-head l (m ∷ ls) k rs t = t

  pub Spine-Tail :
      (l : ℕ) (ls : List ℕ) (k : ℕ) (rs : List ℕ)
      → Spine n (l ∷ (ls ++ k ∷ rs))
      → (0 < l) × (l ≤ n) × Tail n (ls ++ k ∷ rs)
  Spine-Tail l [] k rs t = t
  Spine-Tail l (m ∷ ls) k rs t = t

  pub Tail-cons :
      (l : ℕ) (ls : List ℕ) (k : ℕ) (rs : List ℕ)
      → l ≡ n
      → Tail n (ls ++ k ∷ rs)
      → Tail n (l ∷ (ls ++ k ∷ rs))
  Tail-cons l [] k rs e t = (e, t)
  Tail-cons l (m ∷ ls) k rs e t = (e, t)

  pub Spine-cons :
      (l : ℕ) (ls : List ℕ) (k : ℕ) (rs : List ℕ)
      → 0 < l
      → l ≤ n
      → Tail n (ls ++ k ∷ rs)
      → Spine n (l ∷ (ls ++ k ∷ rs))
  Spine-cons l [] k rs h e t = (h, e, t)
  Spine-cons l (m ∷ ls) k rs h e t = (h, e, t)

  -- A bucket that is not full takes one more element.
  Tail-grow :
      (ls : List ℕ) (l : ℕ) (rs : List ℕ)
      → l < n
      → Tail n (ls ++ l ∷ rs)
      → Tail n (ls ++ (l + 1) ∷ rs)
  Tail-grow [] l [] h t = (omega arith, omega arith)
  Tail-grow [] l (r ∷ rs) h t = absurd (omega (arith, t.0))
  Tail-grow (k ∷ ls) l rs h t =
      let u = Tail-head k ls l rs t in Tail-cons k ls (l + 1) rs u.0 (Tail-grow ls l rs h u.1)

  pub Spine-grow :
      (ls : List ℕ) (l : ℕ) (rs : List ℕ)
      → l < n
      → Spine n (ls ++ l ∷ rs)
      → Spine n (ls ++ (l + 1) ∷ rs)
  Spine-grow [] l [] h t = omega arith
  Spine-grow [] l (r ∷ rs) h t = (omega arith, omega arith, t.2)
  Spine-grow (k ∷ ls) l rs h t =
      let u = Spine-Tail k ls l rs t in Spine-cons k ls (l + 1) rs u.0 u.1 (Tail-grow ls l rs h u.2)

  -- A new bucket of one element before a full one, or behind it.
  pub Spine-front : (l : ℕ) (rs : List ℕ) → 0 < n → l ≡ n → Spine n (l ∷ rs) → Spine n (1 ∷ l ∷ rs)
  Spine-front l [] h e t = (omega arith, omega arith, (omega (arith, e), omega (arith, e)))
  Spine-front l (r ∷ rs) h e t = (omega arith, omega arith, (e, t.2))

  Tail-back :
      (ls : List ℕ) (l : ℕ) → 0 < n → l ≡ n → Tail n (ls ++ l ∷ []) → Tail n (ls ++ l ∷ 1 ∷ [])
  Tail-back [] l h e t = (e, (omega arith, omega arith))
  Tail-back (k ∷ ls) l h e t =
      let u = Tail-head k ls l [] t in Tail-cons k ls l (1 ∷ []) u.0 (Tail-back ls l h e u.1)

  pub Spine-back :
      (ls : List ℕ) (l : ℕ) → 0 < n → l ≡ n → Spine n (ls ++ l ∷ []) → Spine n (ls ++ l ∷ 1 ∷ [])
  Spine-back [] l h e t = (omega (arith, e), omega (arith, e), (omega arith, omega arith))
  Spine-back (k ∷ ls) l h e t =
      let u = Spine-Tail k ls l [] t in Spine-cons k ls l (1 ∷ []) u.0 u.1 (Tail-back ls l h e u.2)

  Tail-within : (ls : List ℕ) (l : ℕ) (rs : List ℕ) → Tail n (ls ++ l ∷ rs) → l ≤ n
  Tail-within [] l [] t = t.1
  Tail-within [] l (r ∷ rs) t = omega (arith, t.0)
  Tail-within (k ∷ ls) l rs t = Tail-within ls l rs (Tail-head k ls l rs t).1

  pub Spine-within : (ls : List ℕ) (l : ℕ) (rs : List ℕ) → Spine n (ls ++ l ∷ rs) → l ≤ n
  Spine-within [] l [] t = t
  Spine-within [] l (r ∷ rs) t = t.1
  Spine-within (k ∷ ls) l rs t = Tail-within ls l rs (Spine-Tail k ls l rs t).2

  Tail-behind :
      (ls : List ℕ) (l : ℕ) (ms : List ℕ) (k : ℕ) (rs : List ℕ)
      → Tail n (ls ++ l ∷ (ms ++ k ∷ rs))
      → Tail n (ms ++ k ∷ rs)
  Tail-behind [] l ms k rs t = (Tail-head l ms k rs t).1
  Tail-behind (j ∷ ls) l ms k rs t = Tail-behind ls l ms k rs (Tail-head j ls l (ms ++ k ∷ rs) t).1

  pub Spine-behind :
      (ls : List ℕ) (l : ℕ) (ms : List ℕ) (k : ℕ) (rs : List ℕ)
      → Spine n (ls ++ l ∷ (ms ++ k ∷ rs))
      → Tail n (ms ++ k ∷ rs)
  Spine-behind [] l ms k rs t = (Spine-Tail l ms k rs t).2
  Spine-behind (j ∷ ls) l ms k rs t =
      Tail-behind ls l ms k rs (Spine-Tail j ls l (ms ++ k ∷ rs) t).2

  pub Tail-positive : (ls : List ℕ) (l : ℕ) (rs : List ℕ) → 0 < n → Tail n (ls ++ l ∷ rs) → 0 < l
  Tail-positive [] l [] h t = t.0
  Tail-positive [] l (r ∷ rs) h t = omega (arith, t.0)
  Tail-positive (k ∷ ls) l rs h t = Tail-positive ls l rs h (Tail-head k ls l rs t).1

  -- A bucket with another one behind it is not empty.
  pub Spine-positive :
      (ls : List ℕ) (l k : ℕ) (rs : List ℕ) → 0 < n → Spine n (ls ++ l ∷ k ∷ rs) → 0 < l
  Spine-positive [] l k rs h t = t.0
  Spine-positive (j ∷ ls) l k rs h t =
      Tail-positive ls l (k ∷ rs) h (Spine-Tail j ls l (k ∷ rs) t).2
