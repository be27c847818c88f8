-- ===== src/BucketManager/Erasure/Effect.antt =====
-- The removal at any position, as a removal from a list.
use seq.Prelude.{
  ℕ, ◌+◌, ◌<◌, ◌≡◌, refl, ap, ap₂, sym, ◌∙◌, arith, subst, List, [], ◌∷◌, ◌++◌, append_assoc, some,
  length, length-append, concat, concat-append, focus, focus-append,
}
use seq.BucketManager.Bucket.{erase_at}
use seq.BucketManager.Spine.{Spine, Spine-Tail}
use seq.BucketManager.Locate.{sizes, Located}
use seq.BucketManager.Propagate.{propagate_right_lem, unsnoc-Ends}
use seq.BucketManager.Insertion.{sizes-append, Yields}
use seq.BucketManager.Erasure.{trim_front, erase_left, erase_right}
use seq.BucketManager.Erasure.Shrink.{Tail-suffix, shrunk-Spine}
use seq.BucketManager.Erasure.Parts.{
  length-erase_at, erase_at-left, erase_at-right, trim_front-concat, trim_front-Spine, pull_lem,
}

module _ {A : Type 0} where
  -- The elements, without one in a bucket.
  abbrev pub without : List (List A) → List A → List (List A) → ℕ → List A
  without before b behind i = concat before ++ (erase_at i b ++ concat behind)

  erase_at-without :
      (before : List (List A)) (b : List A) (behind : List (List A)) (i pos : ℕ)
      (bs : List (List A))
      → bs ≡ before ++ b ∷ behind
      → pos ≡ length (concat before) + i
      → i < length b
      → without before b behind i ≡ erase_at pos (concat bs)
  erase_at-without before b behind i pos bs split position within = sym (
      ap₂ (λ k l. erase_at k l) position (ap concat split ∙ concat-append before (b ∷ behind))
      ∙ erase_at-left (concat before) i (b ++ concat behind)
      ∙ ap (λ l. concat before ++ l) (erase_at-right b i (concat behind) within))

  module _ (n : ℕ) (positive : 0 < n) (bs : List (List A)) (spine : Spine n (sizes bs))
      (pos index inside : ℕ) (l : Located bs pos index inside) where
    pub found : focus index bs ≡ some (l.before, l.bucket, l.behind)
    found = ap₂ focus (sym l.found) l.split ∙ focus-append l.before l.bucket l.behind

    pub shape : Spine n (sizes l.before ++ length l.bucket ∷ sizes l.behind)
    shape = subst (Spine n) (ap sizes l.split ∙ sizes-append l.before (l.bucket ∷ l.behind)) spine

    left_by :
        (before : List (List A))
        → 0 < length before
        → focus index bs ≡ some (before, l.bucket, l.behind)
        → Spine n (sizes before ++ length l.bucket ∷ sizes l.behind)
        → Yields n (erase_left index inside bs) (without before l.bucket l.behind inside)
    unfolding erase_left
    left_by [] h f s = absurd (omega arith)
    left_by (first ∷ middle) h f s =
        let parts =
          Spine-Tail n (length first) (sizes middle) (length l.bucket) (sizes l.behind) s in
        let u = unsnoc-Ends first parts.0 in
        let e =
          propagate_right_lem n positive (length l.bucket) (sizes l.behind) middle u.1 parts.2 in
        let kept = erase_at inside l.bucket in
        let rest = e.0.0 ++ (e.0.1 ∷ kept) ∷ l.behind in
        let count : length first ≡ length u.0 + 1 = ap length u.3 ∙ length-append u.0 (u.1 ∷ []) in
        let same : length l.bucket ≡ length (e.0.1 ∷ kept) =
          omega (arith, length-erase_at inside l.bucket l.within) in
        let lengths : sizes middle ++ length l.bucket ∷ sizes l.behind ≡ sizes rest =
          ap₂ (λ ls k. ls ++ k ∷ sizes l.behind) (sym e.2) same
          ∙ sym (sizes-append e.0.0 ((e.0.1 ∷ kept) ∷ l.behind)) in
        let moved : concat rest ≡ u.1 ∷ (concat middle ++ (kept ++ concat l.behind)) =
          concat-append e.0.0 ((e.0.1 ∷ kept) ∷ l.behind)
          ∙ sym (append_assoc (concat e.0.0) (e.0.1 ∷ []) (kept ++ concat l.behind))
          ∙ ap (λ k. k ++ (kept ++ concat l.behind)) e.3 in
        (
          trim_front u.0 rest,
          rw (erase_left, f, u.2, e.1) refl,
          trim_front-Spine n positive u.0 rest
              (subst (Spine n) (ap₂ (λ k ls. k ∷ ls) count lengths) s),
          trim_front-concat u.0 rest
              ∙ ap (λ k. u.0 ++ k) moved
              ∙ sym (append_assoc u.0 (u.1 ∷ []) (concat middle ++ (kept ++ concat l.behind)))
              ∙ ap (λ k. k ++ (concat middle ++ (kept ++ concat l.behind))) (sym u.3)
              ∙ sym (append_assoc first (concat middle) (kept ++ concat l.behind)),
        )

    right_by :
        (before behind : List (List A))
        → 0 < length before
        → 0 < length behind
        → focus index bs ≡ some (before, l.bucket, behind)
        → Spine n (sizes before ++ length l.bucket ∷ sizes behind)
        → Yields n (erase_right index inside bs) (without before l.bucket behind inside)
    unfolding erase_right
    right_by [] behind h k f s = absurd (omega arith)
    right_by (first ∷ middle) [] h k f s = absurd (omega arith)
    right_by (first ∷ middle) (c ∷ cs) h k f s =
        let before = first ∷ middle in
        let parts =
          Spine-Tail n (length first) (sizes middle) (length l.bucket) (sizes (c ∷ cs)) s in
        let kept = erase_at inside l.bucket in
        let count : length l.bucket ≡ length kept + 1 =
          omega (arith, length-erase_at inside l.bucket l.within) in
        let p =
          pull_lem n positive kept (c ∷ cs) (length l.bucket)
            (Tail-suffix n positive (sizes middle) (length l.bucket) (sizes (c ∷ cs)) parts.2) in
        let shape' =
          shrunk-Spine n positive (length first) (sizes middle) (length kept) (sizes (c ∷ cs))
            (subst (λ q. Spine n (sizes before ++ q ∷ sizes (c ∷ cs))) count s) in
        (
          before ++ p.0,
          rw (erase_right, f, p.1) refl,
          subst (Spine n) (ap (λ q. sizes before ++ q) (sym p.2) ∙ sym (sizes-append before p.0))
              shape',
          concat-append before p.0 ∙ ap (λ q. concat before ++ q) p.3,
        )

    pub target : without l.before l.bucket l.behind inside ≡ erase_at pos (concat bs)
    target = erase_at-without l.before l.bucket l.behind inside pos bs l.split l.position l.within

    pub erase_left-Yields :
        0 < index → Yields n (erase_left index inside bs) (erase_at pos (concat bs))
    erase_left-Yields h =
        let y = left_by l.before (omega (arith, l.found)) found shape in
        (y.0, y.1, y.2, y.3 ∙ target)

    pub erase_right-Yields :
        0 < index
        → index + 1 < length bs
        → Yields n (erase_right index inside bs) (erase_at pos (concat bs))
    erase_right-Yields h k =
        let y =
          right_by l.before l.behind (omega (arith, l.found))
            (omega
              (arith, l.found, ap length l.split, length-append l.before (l.bucket ∷ l.behind)))
            found shape in
        (y.0, y.1, y.2, y.3 ∙ target)
