-- ===== src/CircularBuffer/Insert/Place.antt =====
-- The end of an insertion: a value goes to the vacant cell between two stretches of elements.
use seq.Prelude.{
  ℕ, suc, ◌+◌, ◌-◌, ◌≤◌, ◌≡◌, refl, ap, ap₂, sym, ◌∙◌, inl, inr, true, false, Bool-cases, arith,
  ◌==◌, if◌then◌else◌, List, [], ◌∷◌, ◌++◌, append_assoc, length, length-append, replicate-append,
  subst,
}
use seq.Memory.{
  Cell, raw, live, World, Outcome, ok, ◌>>=◌, lives, raws, destroy_ptr, Gives, Gives-bimap,
}
use seq.Memory.Steps.{length-lives, lives-append}
use seq.CircularBuffer.{Ring, State, Element}
use seq.CircularBuffer.View.{Shape, at-slot}
use seq.CircularBuffer.Cells.{
  Content, Contains, sized, Vacant, Vacant-raw, Vacant-live, Becomes, destroy-Content,
  construct-Content, put_in-Content,
}
use seq.CircularBuffer.Insert.{destroy_span, assign_new, place}

module _ {A : Type 0} (g : ℕ → Cell A) where
  pub destroy_span-Content :
      (b : Ring) (shape : Shape b) (zs : List A) (pre post : List (Cell A)) (w : World A) (i : ℕ)
      → i ≡ length pre
      → i + length zs ≤ b.max_size
      → Content b g w (pre ++ (lives zs ++ post))
      → Becomes b g (destroy_span b (length zs) i w) (pre ++ (raws (length zs) ++ post)) w.fuse
  unfolding destroy_span
  destroy_span-Content b shape [] pre post w i e h content = (w, refl, content, refl)
  destroy_span-Content b shape (z ∷ zs) pre post w i e h content =
      let first =
        destroy-Content b shape g w pre (live z) (lives zs ++ post) i e (omega arith) content z
          refl in
      let rest =
        destroy_span-Content b shape zs (pre ++ raw ∷ []) post first.0 (i + 1)
          (omega (arith, length-append pre (raws {A = A} 1))) (omega arith)
          (subst (Content b g first.0) (sym (append_assoc pre (raw ∷ []) (lives zs ++ post)))
            first.2) in
      (
        rest.0,
        ap (λ p. destroy_ptr p w >>= destroy_span b (length zs) (i + 1))
              (at-slot b i shape (omega arith))
            ∙ ap (λ o. o >>= destroy_span b (length zs) (i + 1)) first.1
            ∙ rest.1,
        subst (Content b g rest.0) (append_assoc pre (raw ∷ []) (raws (length zs) ++ post)) rest.2,
        rest.3 ∙ first.3,
      )

  -- The ring after an exception: without the elements behind if the type is relocatable, and else
  -- with some value in the place.
  abbrev pub Kept : Element A → List A → List A → State A → Type 0
  Kept el ys zs r =
      if el.relocatable then Contains g r ys else ((x : A) × Contains g r (ys ++ x ∷ zs))

  module _ (el : Element A) (s : State A) (ys zs : List A) (d : Cell A) (shape : Shape s.ring)
      (count : s.ring.size ≡ length ys + 1 + length zs)
      (fits : length ys + 1 + length zs ≤ s.ring.max_size) (vacant : Vacant el d)
      (content : Content s.ring g s.world
        (lives ys ++ d ∷ (lives zs ++ raws (s.ring.max_size - (length ys + 1 + length zs))))) where
    abbrev b : Ring
    b = s.ring

    abbrev free : ℕ
    free = b.max_size - (length ys + 1 + length zs)

    filled_cells :
        (v : A)
        → lives ys ++ live v ∷ (lives zs ++ raws free)
          ≡ lives (ys ++ v ∷ zs) ++ raws (b.max_size - length (ys ++ v ∷ zs))
    filled_cells v =
        sym (append_assoc (lives ys) (lives (v ∷ zs)) (raws free))
        ∙ ap₂ (λ l k. l ++ raws k) (sym (lives-append ys (v ∷ zs)))
            (omega (arith, length-append ys (v ∷ zs)))

    placed :
        (v : A) (w : World A)
        → Content b g w (lives ys ++ live v ∷ (lives zs ++ raws free))
        → Contains g (record { ring = b; world = w }) (ys ++ v ∷ zs)
    placed v w c =
        sized b g w b.size (ys ++ v ∷ zs) _ shape c (filled_cells v)
          (omega (arith, count, length-append ys (v ∷ zs)))
          (omega (arith, fits, length-append ys (v ∷ zs)))

    cut_cells :
        (lives ys ++ raw ∷ []) ++ (raws (length zs) ++ raws free)
        ≡ lives ys ++ raws (b.max_size - length ys)
    cut_cells =
        append_assoc (lives ys) (raw ∷ []) (raws (length zs) ++ raws free)
        ∙ ap (λ l. lives ys ++ raw ∷ l) (replicate-append (length zs) free raw)
        ∙ ap (λ k. lives ys ++ raws k)
            (let k : suc (length zs + free) ≡ b.max_size - length ys = omega arith in k)

    place_relocatable :
        (v : A)
        → el.relocatable ≡ true
        → d ≡ raw
        → Gives (place el (length ys) v s) (λ r. Contains g r (ys ++ v ∷ zs)) (λ r. Contains g r ys)
    unfolding place
    place_relocatable v r e =
        let here = at-slot b (length ys) shape (omega arith) in
        let before =
          subst (λ c. Content b g s.world (lives ys ++ c ∷ (lives zs ++ raws free))) e content in
        let behind : b.size - (length ys + 1) ≡ length zs = omega arith in
        elim (construct-Content b shape g s.world (lives ys) raw (lives zs ++ raws free) (length ys)
          (sym (length-lives ys)) (omega arith) before v refl) [
            | inl (w, made, c, f) ↦ rw (place, r, here, made) (placed v w c)
            | inr stop ↦
                let gone =
                  destroy_span-Content b shape zs (lives ys ++ raw ∷ []) (raws free) s.world
                    (length ys + 1)
                    (omega (arith, length-append (lives ys) (raws {A = A} 1), length-lives ys))
                    (omega arith)
                    (subst (Content b g s.world)
                      (sym (append_assoc (lives ys) (raw ∷ []) (lives zs ++ raws free))) before) in
                rw (place, r, here, stop, behind, gone.1)
                  (sized b g gone.0 (length ys) ys _ shape gone.2 cut_cells refl (omega arith))
          ]

    place_assigned :
        (v : A)
        → el.relocatable ≡ false
        → (x : A) → d ≡ live x
        → Gives
            (place el (length ys) v s)
            (λ r. Contains g r (ys ++ v ∷ zs))
            (λ r. Contains g r (ys ++ x ∷ zs))
    unfolding place assign_new
    place_assigned v r x e =
        let here = at-slot b (length ys) shape (omega arith) in
        let before =
          subst (λ c. Content b g s.world (lives ys ++ c ∷ (lives zs ++ raws free))) e content in
        let w = record s.world { fuse = s.world.fuse - 1 } in
        let made =
          put_in-Content b shape g w (lives ys) d (lives zs ++ raws free) (length ys)
            (sym (length-lives ys)) (omega arith)
            (record { cells = content.cells; rest = content.rest }) el v vacant in
        elim (Bool-cases (s.world.fuse == 0)) [
          | inl stop ↦ rw (place, here, assign_new, stop, r) (placed x s.world before)
          | inr more ↦ rw (place, here, assign_new, more, made.1, r) (placed v made.0 made.2)
        ]

    pub place-Contains :
        (index : ℕ) (v : A)
        → index ≡ length ys
        → Gives (place el index v s) (λ r. Contains g r (ys ++ v ∷ zs)) (Kept el ys zs)
    place-Contains index v at_end =
        subst (λ k. Gives (place el k v s) (λ r. Contains g r (ys ++ v ∷ zs)) (Kept el ys zs))
          (sym at_end)
          (elim (Bool-cases el.relocatable) [
            | inl r ↦
                Gives-bimap (place el (length ys) v s) _ _ _ _
                  (place_relocatable v r (Vacant-raw el d r vacant)) (λ q h. h) (λ q h. rw r h)
            | inr r ↦
                let f = Vacant-live el d r vacant in
                Gives-bimap (place el (length ys) v s) _ _ _ _ (place_assigned v r f.0 f.1)
                  (λ q h. h) (λ q h. rw r (f.0, h))
          ])

  -- A run ends with a vacant cell between `ys` and `zs`.
  pub record Opens (el : Element A) (o : Outcome (State A)) (ys zs : List A) : Type 0 where
    pub after : State A
    pub succeeds : o ≡ ok after
    pub gap : Cell A
    pub shape : Shape after.ring
    pub count : after.ring.size ≡ length ys + 1 + length zs
    pub fits : length ys + 1 + length zs ≤ after.ring.max_size
    pub vacant : Vacant el gap
    pub content :
        Content after.ring g after.world
          (lives ys ++ gap ∷ (lives zs ++ raws (after.ring.max_size - (length ys + 1 + length zs))))

  pub Opens-place :
      (el : Element A) (o : Outcome (State A)) (ys zs : List A) (index : ℕ) (v : A)
      → Opens el o ys zs
      → index ≡ length ys
      → Gives (o >>= place el index v) (λ r. Contains g r (ys ++ v ∷ zs)) (Kept el ys zs)
  Opens-place el o ys zs index v opened e = rw opened.succeeds (
      place-Contains el opened.after ys zs opened.gap opened.shape opened.count opened.fits
        opened.vacant opened.content index v e)
