-- ===== src/Memory/Overlay.antt =====
-- The algebra of memory layouts: cells laid over a memory, side by side and apart.
use seq.Prelude.{
  ℕ, zero, suc, ◌+◌, ◌-◌, ◌≤◌, ◌<◌, ◌≡◌, ◌≢◌, ap, sym, ◌∙◌, ◌⊎◌, fun_ext, arith, List, [], ◌∷◌,
  ◌++◌, length, get_or, get_or-append_left, get_or-append_right, get_or-length_le, length-append,
  get_or-replicate_lt, get_or_default, length-replicate, replicate, inl,
}
use seq.Memory.{Cell, put, overlay}

module _ {A : Type 0} where
  pub get_or-cons :
      (c d : A) (cs : List A) (i : ℕ) → 0 < i → get_or (c ∷ cs) i d ≡ get_or cs (i - 1) d
  get_or-cons c d cs zero h = absurd (omega arith)
  get_or-cons c d cs (suc i) h = ap (λ k. get_or cs k d) (omega arith)

module _ {A : Type 0} (h : ℕ → Cell A) where
  pub overlay-nil : (s : ℕ) → overlay s [] h ≡ h
  overlay-nil s = fun_ext λ p. ground arith

  pub overlay-cons :
      (s : ℕ) (c : Cell A) (cs : List (Cell A))
      → overlay s (c ∷ cs) h ≡ overlay (s + 1) cs (put h s c)
  overlay-cons s c cs =
      fun_ext
        λ p. ground (arith, get_or-cons c (h p) cs (p - s), get_or-length_le cs (p - (s + 1)) c)

  pub overlay-append :
      (s : ℕ) (cs ds : List (Cell A))
      → overlay s (cs ++ ds) h ≡ overlay s cs (overlay (s + length cs) ds h)
  overlay-append s cs ds = fun_ext λ p. ground (
    arith,
    length-append cs ds,
    get_or-append_left cs ds (p - s) (h p),
    get_or-append_right cs ds (p - s) (h p),
    get_or-length_le cs (p - s) (overlay (s + length cs) ds h p),
  )

  -- Layouts that lie apart can be written in either order.
  pub overlay_comm :
      (s t : ℕ) (cs ds : List (Cell A))
      → (s + length cs ≤ t) ⊎ (t + length ds ≤ s)
      → overlay s cs (overlay t ds h) ≡ overlay t ds (overlay s cs h)
  overlay_comm s t cs ds apart = fun_ext λ p. ground (
    arith,
    get_or-length_le cs (p - s) (overlay t ds h p),
    get_or-length_le cs (p - s) (h p),
    get_or-length_le ds (p - t) (overlay s cs h p),
    get_or-length_le ds (p - t) (h p),
  )

  pub overlay_at :
      (s : ℕ) (cs : List (Cell A)) (c : Cell A) (ds : List (Cell A)) (p : ℕ)
      → p ≡ s + length cs
      → overlay s (cs ++ c ∷ ds) h p ≡ c
  overlay_at s cs c ds p e = ground (
    arith,
    get_or-append_right cs (c ∷ ds) (p - s) (h p),
    ap (λ k. get_or (c ∷ ds) k (h p)) (let z : p - s - length cs ≡ 0 = omega arith in z),
  )

  pub overlay_outside :
      (s : ℕ) (cs : List (Cell A)) (p : ℕ) → (p < s) ⊎ (s + length cs ≤ p) → overlay s cs h p ≡ h p
  overlay_outside s cs p out = ground (arith, get_or-length_le cs (p - s) (h p))

  pub put-overlay :
      (s : ℕ) (cs : List (Cell A)) (p : ℕ) (c : Cell A)
      → (p < s) ⊎ (s + length cs ≤ p)
      → put (overlay s cs h) p c ≡ overlay s cs (put h p c)
  put-overlay s cs p c out =
      fun_ext λ q. ground (arith, get_or-length_le cs (q - s) (h q), get_or-length_le cs (q - s) c)

  pub put_comm : (p q : ℕ) (c d : Cell A) → p ≢ q → put (put h p c) q d ≡ put (put h q d) p c
  put_comm p q c d ne = fun_ext λ r. ground arith

  pub put-put : (p : ℕ) (c d : Cell A) → put (put h p c) p d ≡ put h p d
  put-put p c d = fun_ext λ r. ground arith

  -- Writing one cell of a layout.
  pub put-overlay_at :
      (s : ℕ) (cs : List (Cell A)) (c d : Cell A) (ds : List (Cell A)) (p : ℕ)
      → p ≡ s + length cs
      → put (overlay s (cs ++ c ∷ ds) h) p d ≡ overlay s (cs ++ d ∷ ds) h
  put-overlay_at s cs c d ds p e = fun_ext λ q. ground (
    arith,
    get_or-append_right cs (c ∷ ds) (q - s) (h q),
    get_or-append_right cs (d ∷ ds) (q - s) (h q),
    get_or-append_left cs (c ∷ ds) (q - s) (h q),
    get_or-append_left cs (d ∷ ds) (q - s) (h q),
    get_or-cons c (h q) ds (q - s - length cs),
    get_or-cons d (h q) ds (q - s - length cs),
    λ (z : q - s - length cs ≡ 0). ap (λ k. get_or (d ∷ ds) k (h q)) z,
  )

module _ {A : Type 0} where
  -- Two layouts, each with its first cell moved to the memory below.
  pub overlay-cons₂ :
      (h : ℕ → Cell A) (i j : ℕ) (c d : Cell A) (cs ds : List (Cell A))
      → (i < j) ⊎ (j + length (d ∷ ds) ≤ i)
      → overlay i (c ∷ cs) (overlay j (d ∷ ds) h)
        ≡ overlay (i + 1) cs (overlay (j + 1) ds (put (put h j d) i c))
  overlay-cons₂ h i j c d cs ds apart =
      overlay-cons (overlay j (d ∷ ds) h) i c cs
      ∙ ap (overlay (i + 1) cs) (
          ap (λ m. put m i c) (overlay-cons h j d ds)
          ∙ put-overlay (put h j d) (j + 1) ds i c (ground arith))

  -- The border between two neighbouring layouts can stand one cell later.
  pub overlay_shift :
      (h : ℕ → Cell A) (s p : ℕ) (cs : List (Cell A)) (c : Cell A) (ds : List (Cell A))
      → p ≡ s + length cs
      → overlay s cs (overlay p (c ∷ ds) h) ≡ overlay s (cs ++ c ∷ []) (overlay (p + 1) ds h)
  overlay_shift h s p cs c ds e =
      ap (overlay s cs) (overlay-append h p (c ∷ []) ds)
      ∙ ap (λ k. overlay s cs (overlay k (c ∷ []) (overlay (p + 1) ds h))) e
      ∙ sym (overlay-append (overlay (p + 1) ds h) s cs (c ∷ []))

module _ {A : Type 0} (h : ℕ → Cell A) where
  -- A layout hides one of the same length below it.
  pub overlay_same :
      (s : ℕ) (cs ds : List (Cell A))
      → length cs ≡ length ds
      → overlay s cs (overlay s ds h) ≡ overlay s cs h
  overlay_same s cs ds e = fun_ext λ p. ground (
    arith,
    get_or_default cs (p - s) (h p) (overlay s ds h p),
    get_or-length_le cs (p - s) (h p),
    get_or-length_le cs (p - s) (overlay s ds h p),
    get_or-length_le ds (p - s) (h p),
  )

module _ {A : Type 0} (h : ℕ → Cell A) where
  splice_at :
      (s : ℕ) (pre cs ds post : List (Cell A))
      → length cs ≡ length ds
      → overlay (s + length pre) cs (overlay s (pre ++ (ds ++ post)) h)
        ≡ overlay s (pre ++ (cs ++ post)) h
  splice_at s pre cs ds post e =
      let p = s + length pre in
      ap (overlay p cs) (overlay-append h s pre (ds ++ post))
      ∙ sym (overlay_comm (overlay p (ds ++ post) h) s p pre cs (inl (omega arith)))
      ∙ ap (λ m. overlay s pre (overlay p cs m)) (overlay-append h p ds post)
      ∙ ap (overlay s pre) (overlay_same (overlay (p + length ds) post h) p cs ds e)
      ∙ ap (λ k. overlay s pre (overlay p cs (overlay (p + k) post h))) (sym e)
      ∙ ap (overlay s pre) (sym (overlay-append h p cs post))
      ∙ sym (overlay-append h s pre (cs ++ post))

  -- A stretch inside a layout is replaced by another of the same length.
  pub splice :
      (s p : ℕ) (pre cs ds post : List (Cell A))
      → p ≡ s + length pre
      → length cs ≡ length ds
      → overlay p cs (overlay s (pre ++ (ds ++ post)) h) ≡ overlay s (pre ++ (cs ++ post)) h
  splice s p pre cs ds post at e =
      ap (λ k. overlay k cs (overlay s (pre ++ (ds ++ post)) h)) at ∙ splice_at s pre cs ds post e

  pub overlay_free :
      (s n : ℕ) (c : Cell A)
      → ((q : ℕ) → s ≤ q → q < s + n → h q ≡ c)
      → overlay s (replicate n c) h ≡ h
  overlay_free s n c free = fun_ext λ p. ground (
    arith,
    free p,
    get_or-replicate_lt n (p - s) c (h p),
    get_or-length_le (replicate n c) (p - s) (h p),
    length-replicate n c,
  )
