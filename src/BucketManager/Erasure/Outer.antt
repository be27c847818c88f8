-- ===== src/BucketManager/Erasure/Outer.antt =====
-- The removals inside of the first bucket and of the last.
use seq.Prelude.{
  ℕ, ◌+◌, ◌<◌, ◌≡◌, refl, ap, sym, ◌∙◌, false, ◌==◌, arith, subst, List, [], ◌∷◌, ◌++◌, append-nil,
  length, length-append, concat, unsnoc-append,
}
use seq.BucketManager.Bucket.{erase_at}
use seq.BucketManager.Spine.{Spine}
use seq.BucketManager.Locate.{sizes, Located}
use seq.BucketManager.Insertion.{Yields}
use seq.BucketManager.Erasure.{trim_back, erase_first, erase_last}
use seq.BucketManager.Erasure.Shrink.{Spine-front_less}
use seq.BucketManager.Erasure.Parts.{length-erase_at, trim_back-concat, trim_back-Spine}
use seq.BucketManager.Erasure.Effect.{without, shape, target}

module _ {A : Type 0} where
  module _ (n : ℕ) (positive : 0 < n) (bs : List (List A)) (spine : Spine n (sizes bs))
      (pos index inside : ℕ) (l : Located bs pos index inside) where
    abbrev kept : List A
    kept = erase_at inside l.bucket

    count : length l.bucket ≡ length kept + 1
    count = sym (length-erase_at inside l.bucket l.within)

    first_by :
        (before : List (List A))
        → length before ≡ 0
        → 0 < length kept
        → Spine n (sizes before ++ length l.bucket ∷ sizes l.behind)
        → Yields n
            (erase_first inside (before ++ l.bucket ∷ l.behind))
            (without before l.bucket l.behind inside)
    first_by (b ∷ before) h some_left s = absurd (omega arith)
    first_by [] h some_left s =
        let other : (length kept == 0) ≡ false = ground arith in
        (
          kept ∷ l.behind,
          rw other refl,
          Spine-front_less n positive (length kept) (sizes l.behind) some_left
              (subst (λ q. Spine n (q ∷ sizes l.behind)) count s),
          refl,
        )

    pub erase_first-Yields :
        index ≡ 0 → 0 < pos → Yields n (erase_first inside bs) (erase_at pos (concat bs))
    erase_first-Yields e h =
        let y =
          first_by l.before (omega (arith, l.found, e))
            (omega (
              arith,
              count,
              l.within,
              l.position,
              nothing_before l.before (omega (arith, l.found, e)),
            ))
            (shape n positive bs spine pos index inside l) in
        (
          y.0,
          ap (erase_first inside) l.split ∙ y.1,
          y.2,
          y.3 ∙ target n positive bs spine pos index inside l,
        )
      where
        nothing_before : (bs : List (List A)) → length bs ≡ 0 → length (concat bs) ≡ 0
        nothing_before [] h = refl
        nothing_before (b ∷ bs) h = absurd (omega arith)

    last_by :
        (behind : List (List A))
        → length behind ≡ 0
        → Spine n (sizes l.before ++ length l.bucket ∷ sizes behind)
        → Yields n
            (erase_last inside (l.before ++ l.bucket ∷ behind))
            (without l.before l.bucket behind inside)
    last_by (b ∷ behind) h s = absurd (omega arith)
    last_by [] h s = (
      trim_back l.before kept,
      rw (erase_last, unsnoc-append l.before l.bucket) refl,
      trim_back-Spine n positive l.before kept
          (subst (λ q. Spine n (sizes l.before ++ q ∷ [])) count s),
      trim_back-concat l.before kept ∙ ap (λ q. concat l.before ++ q) (sym (append-nil kept)),
    )

    pub erase_last-Yields :
        index + 1 ≡ length bs → Yields n (erase_last inside bs) (erase_at pos (concat bs))
    erase_last-Yields e =
        let y =
          last_by l.behind
            (omega
              (arith, l.found, e, ap length l.split, length-append l.before (l.bucket ∷ l.behind)))
            (shape n positive bs spine pos index inside l) in
        (
          y.0,
          ap (erase_last inside) l.split ∙ y.1,
          y.2,
          y.3 ∙ target n positive bs spine pos index inside l,
        )
