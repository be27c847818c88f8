-- ===== src/CircularBuffer/Shift/Effect.antt =====
-- A shift takes the vacant cell at one end of some objects to their other end.
use seq.Prelude.{
  ℕ, suc, ◌+◌, ◌-◌, ◌<◌, ◌≡◌, refl, ap, ap₂, sym, ◌∙◌, subst, arith, List, [], ◌∷◌, ◌++◌,
  append_assoc, length, length-append,
}
use seq.Memory.{Cell, live, World, Outcome, ok, ◌>>=◌, lives}
use seq.CircularBuffer.{Ring, Element, at}
use seq.CircularBuffer.View.{Shape, slot, at-slot}
use seq.CircularBuffer.Cells.{Content, Vacant, take_out-Content, put_in-Content}
use seq.CircularBuffer.Shift.{transfer, shift_right, shift_left, raise_to, lower_to}
use seq.CircularBuffer.Shift.Rightward.{bind_ok, shift_right-add, raise_to-shift}
use seq.CircularBuffer.Shift.Leftward.{lower_to-shift}
use seq.Memory.Steps.{length-lives}

module _ {A : Type 0} (el : Element A) (b : Ring) (shape : Shape b) (g : ℕ → Cell A) where
  -- A run succeeds, and leaves the cells `cs` with a vacant one in their place.
  abbrev pub Leaves : Outcome (World A) → (Cell A → List (Cell A)) → Type 0
  Leaves o cs = (w : World A) × (d : Cell A) × (o ≡ ok w) × Content b g w (cs d) × Vacant el d

  transfer_up :
      (w : World A) (pre : List (Cell A)) (y : A) (c : Cell A) (post : List (Cell A))
      → length pre + 1 < b.max_size
      → Vacant el c
      → Content b g w (pre ++ live y ∷ c ∷ post)
      → Leaves
          (transfer el (slot b (length pre + 1)) (slot b (length pre)) w)
          (λ d. pre ++ d ∷ live y ∷ post)
  unfolding transfer
  transfer_up w pre y c post h v content =
      let out =
        take_out-Content b shape g w pre (live y) (c ∷ post) (length pre) refl (omega arith) content
          el y refl in
      let put =
        put_in-Content b shape g out.0 (pre ++ out.1 ∷ []) c post (length pre + 1)
          (sym (length-append pre (out.1 ∷ []))) h
          (subst (Content b g out.0) (sym (append_assoc pre (out.1 ∷ []) (c ∷ post))) out.3) el y
          v in
      (
        put.0,
        out.1,
        rw (transfer, out.2) put.1,
        subst (Content b g put.0) (append_assoc pre (out.1 ∷ []) (live y ∷ post)) put.2,
        out.4,
      )

  transfer_down :
      (w : World A) (pre : List (Cell A)) (c : Cell A) (y : A) (post : List (Cell A))
      → length pre + 1 < b.max_size
      → Vacant el c
      → Content b g w (pre ++ c ∷ live y ∷ post)
      → Leaves
          (transfer el (slot b (length pre)) (slot b (length pre + 1)) w)
          (λ d. pre ++ live y ∷ d ∷ post)
  unfolding transfer
  transfer_down w pre c y post h v content =
      let out =
        take_out-Content b shape g w (pre ++ c ∷ []) (live y) post (length pre + 1)
          (sym (length-append pre (c ∷ []))) h
          (subst (Content b g w) (sym (append_assoc pre (c ∷ []) (live y ∷ post))) content) el y
          refl in
      let put =
        put_in-Content b shape g out.0 pre c (out.1 ∷ post) (length pre) refl (omega arith)
          (subst (Content b g out.0) (append_assoc pre (c ∷ []) (out.1 ∷ post)) out.3) el y v in
      (put.0, out.1, rw (transfer, out.2) put.1, put.2, out.4)

  pub shift_right-Leaves :
      (ys : List A) (pre : List (Cell A)) (c : Cell A) (post : List (Cell A)) (w : World A) (i : ℕ)
      → i ≡ length pre + length ys
      → i < b.max_size
      → Vacant el c
      → Content b g w (pre ++ (lives ys ++ c ∷ post))
      → Leaves (shift_right el b (length ys) i w) (λ d. pre ++ d ∷ (lives ys ++ post))
  unfolding shift_right
  shift_right-Leaves [] pre c post w i e h v content = (w, c, refl, content, v)
  shift_right-Leaves (y ∷ ys) pre c post w i e h v content =
      let rest =
        shift_right-Leaves ys (pre ++ live y ∷ []) c post w i
          (omega (arith, length-append pre (live y ∷ []))) h v
          (subst (Content b g w) (sym (append_assoc pre (live y ∷ []) (lives ys ++ c ∷ post)))
            content) in
      let last = transfer_up rest.0 pre y rest.1 (lives ys ++ post) (omega arith) rest.4 (
        subst (Content b g rest.0) (append_assoc pre (live y ∷ []) (rest.1 ∷ (lives ys ++ post)))
          rest.3) in
      let joined : shift_right el b (suc (length ys)) i w ≡ ok last.0 =
        ap (λ n. shift_right el b n i w) {x = suc (length ys)} (omega arith)
        ∙ shift_right-add el b shape (length ys) 1 i w
        ∙ ap (λ o. o >>= shift_right el b 1 (i - length ys)) rest.2
        ∙ bind_ok (transfer el (at b (i - length ys)) (at b (i - length ys - 1)) rest.0)
        ∙ ap₂ (λ p q. transfer el p q rest.0)
            (at-slot b (i - length ys) shape (omega arith) ∙ ap (slot b) (omega arith))
            (at-slot b (i - length ys - 1) shape (omega arith) ∙ ap (slot b) (omega arith))
        ∙ last.2 in
      (last.0, last.1, joined, last.3, last.4)

  pub shift_left-Leaves :
      (ys : List A) (pre : List (Cell A)) (c : Cell A) (post : List (Cell A)) (w : World A) (i : ℕ)
      → i ≡ length pre
      → i + length ys < b.max_size
      → Vacant el c
      → Content b g w (pre ++ c ∷ (lives ys ++ post))
      → Leaves (shift_left el b (length ys) i w) (λ d. pre ++ (lives ys ++ d ∷ post))
  unfolding shift_left
  shift_left-Leaves [] pre c post w i e h v content = (w, c, refl, content, v)
  shift_left-Leaves (y ∷ ys) pre c post w i e h v content =
      let first = transfer_down w pre c y (lives ys ++ post) (omega arith) v content in
      let rest =
        shift_left-Leaves ys (pre ++ live y ∷ []) first.1 post first.0 (i + 1)
          (omega (arith, length-append pre (live y ∷ []))) (omega arith) first.4
          (subst (Content b g first.0)
            (sym (append_assoc pre (live y ∷ []) (first.1 ∷ (lives ys ++ post)))) first.3) in
      let joined : shift_left el b (suc (length ys)) i w ≡ ok rest.0 =
        ap₂ (λ p q. transfer el p q w >>= shift_left el b (length ys) (i + 1))
          (at-slot b i shape (omega arith) ∙ ap (slot b) e)
          (at-slot b (i + 1) shape (omega arith) ∙ ap (slot b) (omega arith))
        ∙ ap (λ o. o >>= shift_left el b (length ys) (i + 1)) first.2
        ∙ rest.2 in
      (
        rest.0,
        rest.1,
        joined,
        subst (Content b g rest.0) (append_assoc pre (live y ∷ []) (lives ys ++ rest.1 ∷ post))
            rest.3,
        rest.4,
      )

  -- The vacant cell goes to where an element is to be.
  pub open_right :
      (ys zs : List A) (c : Cell A) (rest : List (Cell A)) (w : World A)
      → length ys + length zs < b.max_size
      → Vacant el c
      → Content b g w (lives ys ++ (lives zs ++ c ∷ rest))
      → Leaves
          (raise_to el b (slot b (length ys + length zs)) (slot b (length ys)) w)
          (λ d. lives ys ++ d ∷ (lives zs ++ rest))
  open_right ys zs c rest w h v content =
      subst (λ o. Leaves o (λ d. lives ys ++ d ∷ (lives zs ++ rest)))
        (ap (λ n. shift_right el b n (length ys + length zs) w) {x = length zs} (omega arith)
          ∙ sym (raise_to-shift el b shape (length ys) (length ys + length zs) (omega arith) h w))
        (shift_right-Leaves zs (lives ys) c rest w (length ys + length zs)
          (omega (arith, length-lives ys)) h v content)

  pub open_left :
      (ys : List A) (c : Cell A) (rest : List (Cell A)) (w : World A)
      → length ys < b.max_size
      → Vacant el c
      → Content b g w (c ∷ (lives ys ++ rest))
      → Leaves (lower_to el b (slot b 0) (slot b (length ys)) w) (λ d. lives ys ++ d ∷ rest)
  open_left ys c rest w h v content =
      subst (λ o. Leaves o (λ d. lives ys ++ d ∷ rest))
        (ap (λ n. shift_left el b n 0 w) {x = length ys} (omega arith)
          ∙ sym (lower_to-shift el b shape 0 (length ys) (omega arith) h w))
        (shift_left-Leaves ys [] c rest w 0 refl (omega arith) v content)

  -- The vacant cell goes from where an element was.
  pub close_right :
      (ys zs : List A) (c : Cell A) (rest : List (Cell A)) (w : World A)
      → length ys + length zs < b.max_size
      → Vacant el c
      → Content b g w (lives ys ++ c ∷ (lives zs ++ rest))
      → Leaves
          (lower_to el b (slot b (length ys)) (slot b (length ys + length zs)) w)
          (λ d. lives ys ++ (lives zs ++ d ∷ rest))
  close_right ys zs c rest w h v content =
      subst (λ o. Leaves o (λ d. lives ys ++ (lives zs ++ d ∷ rest)))
        (ap (λ n. shift_left el b n (length ys) w) {x = length zs} (omega arith)
          ∙ sym (lower_to-shift el b shape (length ys) (length ys + length zs) (omega arith) h w))
        (shift_left-Leaves zs (lives ys) c rest w (length ys) (sym (length-lives ys)) h v content)

  pub close_left :
      (ys : List A) (c : Cell A) (rest : List (Cell A)) (w : World A)
      → length ys < b.max_size
      → Vacant el c
      → Content b g w (lives ys ++ c ∷ rest)
      → Leaves (raise_to el b (slot b (length ys)) (slot b 0) w) (λ d. d ∷ (lives ys ++ rest))
  close_left ys c rest w h v content =
      subst (λ o. Leaves o (λ d. d ∷ (lives ys ++ rest)))
        (ap (λ n. shift_right el b n (length ys) w) {x = length ys} (omega arith)
          ∙ sym (raise_to-shift el b shape 0 (length ys) (omega arith) h w))
        (shift_right-Leaves ys [] c rest w (length ys) (omega arith) h v content)
