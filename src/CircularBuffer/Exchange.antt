-- ===== src/CircularBuffer/Exchange.antt =====
-- A full ring that takes a value at one end and gives one at the other, and the loops at the front.
use seq.Prelude.{
  ℕ, zero, suc, ◌+◌, ◌-◌, ◌≤◌, ◌<◌, ◌≡◌, refl, ap, sym, ◌∙◌, arith, List, [], ◌∷◌, ◌++◌, append-nil,
  length, length-append, replicate, subst, drop,
}
use seq.Memory.{Cell, live, World, lives, raws, Gives, Gives-bind, Gives-bimap}
use seq.Memory.Steps.{length-lives, lives-append}
use seq.CircularBuffer.{
  Ring, State, Element, at, step_up, step_down, emplace_front, pop_front, pop_front_n, push_front_n,
  push_front_pop_back, push_back_pop_front,
}
use seq.CircularBuffer.View.{Shape, slot, at-slot}
use seq.CircularBuffer.Turn.{Shape-step_up, Shape-step_down, Shows-step_up, Shows-step_down}
use seq.CircularBuffer.Cells.{Content, Contains, sized, take_out-Content, put_in-Content}
use seq.CircularBuffer.Ends.{emplace_front-Contains, pop_front-Contains}

module _ {A : Type 0} (g : ℕ → Cell A) where
  module _ (el : Element A) (s : State A) (xs : List A) (holds : Contains g s xs)
      (full : length xs ≡ s.ring.max_size) where
    abbrev b : Ring
    b = s.ring

    pub full_content : Content b g s.world (lives xs)
    full_content =
        subst (Content b g s.world)
          (ap (λ k. lives xs ++ raws k) (let k : b.max_size - length xs ≡ 0 = omega arith in k)
            ∙ append-nil (lives xs))
          holds.content

    -- A ring with all its cells taken.
    filled :
        (c : Ring) (w : World A) (n : ℕ) (ys : List A)
        → Shape c
        → n ≡ length ys
        → length ys ≡ c.max_size
        → Content c g w (lives ys)
        → Contains g (record { ring = record c { size = n }; world = w }) ys
    filled c w n ys shape e h content =
        sized c g w n ys (lives ys) shape content
          (sym (
            ap (λ k. lives ys ++ raws k) (let k : c.max_size - length ys ≡ 0 = omega arith in k)
            ∙ append-nil (lives ys)))
          e (omega arith)

    -- On a full ring that contains `ys` followed by `y`, `push_front_pop_back` of `v` neither
    -- throws nor faults: it gives `y` and leaves a ring that contains `v` followed by `ys`.
    pub push_front_pop_back-Contains :
        (ys : List A) (y v : A)
        → xs ≡ ys ++ y ∷ []
        → Gives (push_front_pop_back el v s) (λ r. (r.0 ≡ y) × Contains g r.1 (v ∷ ys)) (λ _. ⊥)
    unfolding push_front_pop_back
    push_front_pop_back-Contains ys y v split =
        let n : length xs ≡ length ys + 1 = ap length split ∙ length-append ys (y ∷ []) in
        let d = step_down b in
        let shape = Shape-step_down b holds.shape in
        let last : at b (b.size - 1) ≡ slot b (length ys) =
          at-slot b (b.size - 1) holds.shape (omega (arith, holds.count, holds.fits))
          ∙ ap (slot b) (omega (arith, holds.count)) in
        let first : d.buffer + d.begin ≡ slot d 0 = ground (arith, shape.inside) in
        let before : Content b g s.world (lives ys ++ live y ∷ []) =
          subst (Content b g s.world) (ap lives split ∙ lives-append ys (y ∷ [])) full_content in
        let out =
          take_out-Content b holds.shape g s.world (lives ys) (live y) [] (length ys)
            (sym (length-lives ys)) (omega arith) before el y refl in
        let turned =
          Shows-step_down b holds.shape g out.0 out.1 (lives ys) (omega (arith, length-lives ys))
            out.3 in
        let put =
          put_in-Content d shape g out.0 [] out.1 (lives ys) 0 refl (omega arith) turned el v
            out.4 in
        rw (push_front_pop_back, last, out.2, first, put.1)
          (
            refl,
            filled d put.0 b.size (v ∷ ys) shape (omega (arith, holds.count)) (omega arith) put.2,
          )

    -- On a full ring that contains `y` followed by `ys`, `push_back_pop_front` of `v` neither
    -- throws nor faults: it gives `y` and leaves a ring that contains `ys` followed by `v`.
    pub push_back_pop_front-Contains :
        (y v : A) (ys : List A)
        → xs ≡ y ∷ ys
        → Gives
            (push_back_pop_front el v s)
            (λ r. (r.0 ≡ y) × Contains g r.1 (ys ++ v ∷ []))
            (λ _. ⊥)
    unfolding push_back_pop_front
    push_back_pop_front-Contains y v ys split =
        let n : length xs ≡ length ys + 1 = ap length split ∙ omega arith in
        let u = step_up b in
        let shape = Shape-step_up b holds.shape in
        let first : b.buffer + b.begin ≡ slot b 0 = ground (arith, holds.shape.inside) in
        let last : at u (b.size - 1) ≡ slot u (length ys) =
          at-slot u (b.size - 1) shape (omega (arith, holds.count, holds.fits))
          ∙ ap (slot u) (omega (arith, holds.count)) in
        let before : Content b g s.world (live y ∷ lives ys) =
          subst (Content b g s.world) (ap lives split) full_content in
        let out =
          take_out-Content b holds.shape g s.world [] (live y) (lives ys) 0 refl (omega arith)
            before el y refl in
        let turned =
          Shows-step_up b holds.shape g out.0 out.1 (lives ys) (omega (arith, length-lives ys))
            out.3 in
        let put =
          put_in-Content u shape g out.0 (lives ys) out.1 [] (length ys) (sym (length-lives ys))
            (omega arith) turned el v out.4 in
        rw (push_back_pop_front, first, out.2, last, put.1)
          (
            refl,
            filled u put.0 b.size (ys ++ v ∷ []) shape
                (omega (arith, length-append ys (v ∷ []), holds.count))
                (omega (arith, length-append ys (v ∷ [])))
                (subst (Content u g put.0) (sym (lives-append ys (v ∷ []))) put.2),
          )

  -- On a ring that contains `xs`, `pop_front_n` of an `n` that is at most the length of `xs`
  -- neither throws nor faults, and leaves a ring that contains `xs` without its first `n` elements.
  pub pop_front_n-Contains :
      (n : ℕ) (s : State A) (xs : List A)
      → Contains g s xs
      → n ≤ length xs
      → Gives (pop_front_n n s) (λ r. Contains g r (drop n xs)) (λ _. ⊥)
  unfolding pop_front_n
  pop_front_n-Contains zero s xs holds h = holds
  pop_front_n-Contains (suc n) s [] holds h = absurd (omega arith)
  pop_front_n-Contains (suc n) s (x ∷ xs) holds h =
      Gives-bind (pop_front s) (pop_front_n n) _ _ _ _
        (pop_front-Contains g s (x ∷ xs) holds x xs refl)
        (λ r c. pop_front_n-Contains n r xs c.0 (omega arith)) (λ r e. e)

  replicate-cons :
      (n : ℕ) (v : A) (xs : List A) → replicate n v ++ v ∷ xs ≡ v ∷ (replicate n v ++ xs)
  replicate-cons zero v xs = refl
  replicate-cons (suc n) v xs = ap (λ l. v ∷ l) (replicate-cons n v xs)

  -- On a ring that contains `xs` and has room for `n` more elements, `push_front_n` of `n` copies
  -- of `v` does not fault: it leaves a ring that contains the `n` copies followed by `xs`, or
  -- throws and leaves one that contains fewer than `n` copies followed by `xs`.
  pub push_front_n-Contains :
      (n : ℕ) (v : A) (s : State A) (xs : List A)
      → Contains g s xs
      → n + length xs ≤ s.ring.max_size
      → Gives
          (push_front_n n v s)
          (λ r. Contains g r (replicate n v ++ xs))
          (λ r. (m : ℕ) × (m < n) × Contains g r (replicate m v ++ xs))
  unfolding push_front_n
  push_front_n-Contains zero v s xs holds h = holds
  push_front_n-Contains (suc n) v s xs holds h =
      Gives-bind (emplace_front v s) (push_front_n n v) _ _ _ _
        (emplace_front-Contains g s xs holds v (omega arith))
        (λ r c.
          Gives-bimap (push_front_n n v r) _ _ _ _
            (push_front_n-Contains n v r (v ∷ xs) c.0 (omega (arith, c.1)))
            (λ q d. subst (Contains g q) (replicate-cons n v xs) d)
            (λ q d.
              (suc d.0, omega (arith, d.1), subst (Contains g q) (replicate-cons d.0 v xs) d.2)))
        (λ r c. (0, omega arith, c))
