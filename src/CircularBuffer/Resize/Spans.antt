-- ===== src/CircularBuffer/Resize/Spans.antt =====
-- The loop that constructs values in a row of cells, with its handler.
use seq.Prelude.{
  ℕ, zero, suc, ◌+◌, ◌-◌, ◌≤◌, ◌≡◌, refl, ap, sym, ◌∙◌, inl, inr, arith, List, [], ◌∷◌, ◌++◌,
  append_assoc, length, length-append, replicate, replicate-append, length-replicate, subst,
}
use seq.Memory.{Cell, raw, live, World, lives, raws, Gives}
use seq.Memory.Steps.{length-lives, lives-append}
use seq.CircularBuffer.{Ring}
use seq.CircularBuffer.View.{Shape, at-slot}
use seq.CircularBuffer.Cells.{Content, construct-Content}
use seq.CircularBuffer.Insert.Place.{destroy_span-Content}
use seq.CircularBuffer.Resize.{construct_span}

module _ {A : Type 0} (g : ℕ → Cell A) (b : Ring) (shape : Shape b) (xs : List A) (v : A) where
  abbrev grown : ℕ → List A
  grown k = xs ++ replicate k v

  grown-length : (k : ℕ) → length (grown k) ≡ length xs + k
  grown-length k = length-append xs (replicate k v) ∙ ap (λ m. length xs + m) (length-replicate k v)

  grown-next :
      (k : ℕ) (cs : List (Cell A)) → lives (grown k) ++ live v ∷ cs ≡ lives (grown (k + 1)) ++ cs
  grown-next k cs =
      sym (append_assoc (lives (grown k)) (lives (v ∷ [])) cs)
      ∙ ap (λ l. l ++ cs)
          (sym (lives-append (grown k) (v ∷ []))
            ∙ ap lives (
                append_assoc xs (replicate k v) (v ∷ [])
                ∙ ap (λ l. xs ++ l) (replicate-append k 1 v)))

  -- After `k` constructions.
  pub construct_span-Content :
      (n k : ℕ) (post : List (Cell A)) (w : World A) (i : ℕ)
      → i ≡ length xs + k
      → i + n ≤ b.max_size
      → Content b g w (lives (grown k) ++ (raws n ++ post))
      → Gives
          (construct_span b n (length xs) i v w)
          (λ u. Content b g u (lives (grown (k + n)) ++ post))
          (λ u. Content b g u (lives xs ++ (raws (k + n) ++ post)))
  unfolding construct_span
  construct_span-Content zero k post w i e h content =
      subst (λ m. Content b g w (lives (grown m) ++ post)) (omega arith) content
  construct_span-Content (suc n) k post w i e h content =
      let count : i ≡ length (lives (grown k)) =
        omega (arith, e, grown-length k, length-lives (grown k)) in
      let here = at-slot b i shape (omega arith) in
      let more : k + 1 + n ≡ k + suc n = omega arith in
      elim (construct-Content b shape g w (lives (grown k)) raw (raws n ++ post) i count
        (omega arith) content v refl) [
          | inl (u, made, c, f) ↦
              rw (construct_span, here, made)
                (subst
                  (λ m.
                    Gives (construct_span b n (length xs) (i + 1) v u)
                      (λ t. Content b g t (lives (grown m) ++ post))
                      (λ t. Content b g t (lives xs ++ (raws m ++ post))))
                  more
                  (construct_span-Content n (k + 1) post u (i + 1) (omega (arith, e)) (omega arith)
                    (subst (Content b g u) (grown-next k (raws n ++ post)) c)))
          | inr stop ↦
              let rounds : i - length xs ≡ length (replicate k v) =
                omega (arith, e, length-replicate k v) in
              let split : lives (grown k) ++ (raws (suc n) ++ post)
                  ≡ lives xs ++ (lives (replicate k v) ++ (raws (suc n) ++ post)) =
                ap (λ l. l ++ (raws (suc n) ++ post)) (lives-append xs (replicate k v))
                ∙ append_assoc (lives xs) (lives (replicate k v)) (raws (suc n) ++ post) in
              let gone =
                destroy_span-Content g b shape (replicate k v) (lives xs) (raws (suc n) ++ post) w
                  (length xs) (sym (length-lives xs)) (omega (arith, length-replicate k v, e))
                  (subst (Content b g w) split content) in
              let cleared : raws (length (replicate k v)) ++ (raws (suc n) ++ post)
                  ≡ raws (k + suc n) ++ post =
                ap (λ m. raws m ++ (raws (suc n) ++ post)) (length-replicate k v)
                ∙ sym (append_assoc (raws k) (raws (suc n)) post)
                ∙ ap (λ l. l ++ post) (replicate-append k (suc n) raw) in
              rw (construct_span, here, stop, rounds, gone.1)
                (subst (λ l. Content b g gone.0 (lives xs ++ l)) cleared gone.2)
        ]
