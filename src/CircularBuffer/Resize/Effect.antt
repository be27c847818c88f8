-- ===== src/CircularBuffer/Resize/Effect.antt =====
-- A ring with another number of elements, as the list cut or filled up.
use seq.Prelude.{
  ℕ, ◌+◌, ◌-◌, ◌≤◌, ◌≡◌, refl, ap, ap₂, sym, ◌∙◌, inl, inr, true, false, Bool-cases, arith, ltb,
  List, [], ◌++◌, append_assoc, append-nil, length, length-append, replicate, replicate-append,
  length-replicate, subst, take, drop, resized, resized-longer, resized-shorter, length-take_le,
  take-append-drop,
}
use seq.Memory.{Cell, raw, World, Outcome, ok, threw, fault, lives, raws, Gives, Gives-bimap}
use seq.Memory.Steps.{length-lives, lives-append}
use seq.CircularBuffer.{Ring, State, finish}
use seq.CircularBuffer.Cells.{Content, Contains, sized}
use seq.CircularBuffer.Insert.Place.{destroy_span-Content}
use seq.CircularBuffer.Insert.{destroy_span}
use seq.CircularBuffer.Resize.{construct_span, resize, destroy}
use seq.CircularBuffer.Resize.Spans.{construct_span-Content}

module _ {A : Type 0} (g : ℕ → Cell A) (s : State A) (xs : List A) (holds : Contains g s xs) where
  abbrev b : Ring
  b = s.ring

  abbrev free : ℕ
  free = b.max_size - length xs

  -- All objects are destroyed, and the storage is left.
  pub destroy-Content :
      Gives (destroy s) (λ w. Content b g w (raws b.max_size) × (w.fuse ≡ s.world.fuse)) (λ _. ⊥)
  unfolding destroy
  destroy-Content =
      let gone =
        destroy_span-Content g b holds.shape xs [] (raws free) s.world 0 refl
          (omega (arith, holds.fits)) holds.content in
      let whole : destroy_span b b.size 0 s.world ≡ ok gone.0 =
        ap (λ k. destroy_span b k 0 s.world) holds.count ∙ gone.1 in
      rw (destroy, whole)
        (
          subst (Content b g gone.0)
              (replicate-append (length xs) free raw
                ∙ ap (λ k. raws k)
                    (let k : length xs + free ≡ b.max_size = omega (arith, holds.fits) in k))
              gone.2,
          gone.3,
        )

  resize-shorter :
      (n : ℕ) (v : A) (ys zs : List A)
      → xs ≡ ys ++ zs
      → n ≡ length ys
      → ltb n b.size ≡ true
      → Gives (resize n v s) (λ r. Contains g r ys) (λ _. ⊥)
  unfolding resize construct_span
  resize-shorter n v ys zs split e less =
      let count : length xs ≡ length ys + length zs = ap length split ∙ length-append ys zs in
      let before : Content b g s.world (lives ys ++ (lives zs ++ raws free)) =
        subst (Content b g s.world)
          (ap (λ l. lives l ++ raws free) split
            ∙ ap (λ l. l ++ raws free) (lives-append ys zs)
            ∙ append_assoc (lives ys) (lives zs) (raws free))
          holds.content in
      let gone =
        destroy_span-Content g b holds.shape zs (lives ys) (raws free) s.world n
          (e ∙ sym (length-lives ys)) (omega (arith, e, count, holds.fits)) before in
      let rounds : b.size - n ≡ length zs = omega (arith, e, count, holds.count) in
      rw (resize, less, rounds, gone.1)
        (sized b g gone.0 n ys _ holds.shape gone.2
          (ap (λ l. lives ys ++ l)
            (replicate-append (length zs) free raw
              ∙ ap (λ k. raws k)
                  (let k : length zs + free ≡ b.max_size - length ys =
                      omega (arith, count, holds.fits) in
                    k)))
          e (omega (arith, count, holds.fits)))

  finished :
      (o : Outcome (World A)) (n : ℕ) (ys : List A)
      → n ≡ length ys
      → length ys ≤ b.max_size
      → Gives o
          (λ w. Content b g w (lives ys ++ raws (b.max_size - length ys)))
          (λ w. Content b g w (lives xs ++ raws free))
      → Gives (finish (record b { size = n }) b o) (λ r. Contains g r ys) (λ r. Contains g r xs)
  finished (ok w) n ys e h c = sized b g w n ys _ holds.shape c refl e h
  finished (threw w) n ys e h c = sized b g w b.size xs _ holds.shape c refl holds.count holds.fits
  finished fault n ys e h c = absurd c

  resize-longer :
      (n m : ℕ) (v : A)
      → n ≡ length xs + m
      → n ≤ b.max_size
      → ltb n b.size ≡ false
      → Gives (resize n v s) (λ r. Contains g r (xs ++ replicate m v)) (λ r. Contains g r xs)
  unfolding resize construct_span
  resize-longer n m v e fits more =
      let count : length (xs ++ replicate m v) ≡ n =
        length-append xs (replicate m v) ∙ omega (arith, e, length-replicate m v) in
      let spare : ℕ = b.max_size - n in
      let split : raws {A = A} free ≡ raws m ++ raws spare =
        ap (λ k. raws k) (let k : free ≡ m + spare = omega (arith, e) in k)
        ∙ sym (replicate-append m spare raw) in
      let built =
        subst
          (λ j.
            Gives (construct_span b m (length xs) (length xs) v s.world)
              (λ u. Content b g u (lives (xs ++ replicate j v) ++ raws spare))
              (λ u. Content b g u (lives xs ++ (raws j ++ raws spare))))
          (let k : 0 + m ≡ m = omega arith in k)
          (construct_span-Content g b holds.shape xs v m 0 (raws spare) s.world (length xs)
            (omega arith) (omega (arith, e))
            (subst (Content b g s.world) (ap₂ (λ l k. lives l ++ k) (sym (append-nil xs)) split)
              holds.content)) in
      let whole =
        Gives-bimap (construct_span b m (length xs) (length xs) v s.world) _ _ _ _ built
          (λ w c.
            subst (λ k. Content b g w (lives (xs ++ replicate m v) ++ raws k))
              (let k : spare ≡ b.max_size - length (xs ++ replicate m v) = omega (arith, count) in
                k)
              c)
          (λ w c. subst (λ k. Content b g w (lives xs ++ k)) (sym split) c) in
      rw (resize, more)
        (finished _ n (xs ++ replicate m v) (sym count) (omega (arith, count))
          elim (Bool-cases (ltb b.size n)) [
            | inl grows ↦
                let run : construct_span b (n - b.size) b.size b.size v s.world
                    ≡ construct_span b m (length xs) (length xs) v s.world =
                  ap₂ (λ k j. construct_span b k j j v s.world)
                    (let k : n - b.size ≡ m = omega (arith, e, holds.count) in k) holds.count in
                rw grows (
                  subst
                    (λ o.
                      Gives o
                        (λ w. Content b g w (
                          lives (xs ++ replicate m v)
                          ++ raws (b.max_size - length (xs ++ replicate m v))))
                        (λ w. Content b g w (lives xs ++ raws free)))
                    (sym run) whole)
            | inr same ↦
                let none_new : m ≡ 0 = ground (arith, e, holds.count) in
                rw same (
                  subst
                    (λ k.
                      Gives (construct_span b k (length xs) (length xs) v s.world)
                        (λ w. Content b g w (
                          lives (xs ++ replicate m v)
                          ++ raws (b.max_size - length (xs ++ replicate m v))))
                        (λ w. Content b g w (lives xs ++ raws free)))
                    none_new whole)
          ])

  -- On a ring that contains `xs`, `resize` to an `n` that is at most the capacity does not fault:
  -- it leaves a ring that contains the first `n` elements of `xs`, followed by copies of `v` up to
  -- length `n`, or throws and leaves one that contains `xs`.
  pub resize-Contains :
      (n : ℕ) (v : A)
      → n ≤ b.max_size
      → Gives (resize n v s) (λ r. Contains g r (resized n v xs)) (λ r. Contains g r xs)
  resize-Contains n v fits = elim (Bool-cases (ltb n b.size)) [
    | inl less ↦
        let short : n ≤ length xs = ground (arith, holds.count) in
        rw (resized-shorter n v xs short) (
          Gives-bimap (resize n v s) _ _ _ _
            (resize-shorter n v (take n xs) (drop n xs) (sym (take-append-drop n xs))
              (sym (length-take_le n xs short)) less)
            (λ r h. h) (λ r h. absurd h))
    | inr more ↦
        let long : length xs ≤ n = ground (arith, holds.count) in
        rw (resized-longer n v xs long) (resize-longer n (n - length xs) v (omega arith) fits more)
  ]
