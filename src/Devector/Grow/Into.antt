-- ===== src/Devector/Grow/Into.antt =====
-- Growing into new storage: the new object first, then the others beside it.
use seq.Prelude.{
  ◌<◌, ltb, ℕ, ◌+◌, ◌≤◌, ◌≡◌, refl, ap, sym, ◌∙◌, ◌⊎◌, inl, inr, true, false, Bool, some, List, ◌∷◌,
  ◌++◌, length, arith, ◌==◌, if◌then◌else◌, Bool-cases,
}
use seq.Memory.{Cell, raw, live, unmapped, World, ok, threw, overlay, lives, raws, Traits, Gives}
use seq.Memory.Overlay.{overlay_outside}
use seq.Memory.Steps.{length-raws, burnt}
use seq.Devector.{
  grow_capacity, Vector, State, Arg, value, ref, size, front_capacity, back_capacity, new_address,
  allocate,
}
use seq.Devector.Layout.{block, length-block, Holds, Holds-same, Fresh}
use seq.Devector.Transfer.Copy.{Transferred, Transferred-cases}
use seq.Devector.Grow.{value_of, construct_arg, undo_object, grow_into}
use seq.Devector.Transfer.{copy_destroy_input}
use seq.Devector.Grow.Focus.{construct_at, destroy_at}
use seq.Devector.Relocation.{
  allocated, restored, new_unused, grown, moved, transferred, returned, beside,
}

-- A growth by `grown` makes room.
pub grow_capacity-lt : (grown : ℕ → ℕ) (c : ℕ) → c ≤ grown c → c < grow_capacity grown c
grow_capacity-lt grown c h = ground arith

module _ {A : Type 0} where
  -- The argument denotes `v`: it is `v`, or refers to an object with that value whose storage is
  -- not `moved` before it is read.
  abbrev pub Denotes : State A → Bool → Arg A → A → Type 0
  Denotes s moved (value u) v = u ≡ v
  Denotes s moved (ref q) v = (s.world.cell q ≡ live v) × (moved ≡ false)

  pub value_of-Denotes :
      (s : State A) (moved : Bool) (arg : Arg A) (v : A)
      → Denotes s moved arg v
      → value_of arg s.world ≡ some v
  unfolding value_of
  value_of-Denotes s moved (value u) v d = ap some d
  value_of-Denotes s moved (ref q) v d = rw (d.0)

  pub value_of_moved :
      (s : State A) (arg : Arg A) (v : A) (w : World A)
      → Denotes s true arg v
      → value_of arg w ≡ some v
  unfolding value_of
  value_of_moved s (value u) v w d = ap some d
  value_of_moved s (ref q) v w d = cc

  module _ (g : ℕ → Cell A) (s : State A) (xs : List A) (p n : ℕ) (holds : Holds g s xs)
      (fresh : Fresh g s.vec p n) (v : A) where
    abbrev new : ℕ
    new = new_address p n

    -- No object stands in the new storage.
    not_new : (q : ℕ) → s.world.cell q ≡ live v → (q < new) ⊎ (new + n ≤ q)
    not_new q here = elim (Bool-cases (ltb q new)) [
      | inl below ↦ inl (ground arith)
      | inr above ↦ elim (Bool-cases (ltb q (new + n))) [
        | inr beyond ↦ inr (ground arith)
        | inl inside ↦
            let free = new_unused g s xs p n holds fresh q (ground arith) (ground arith) in
            let outside =
              overlay_outside g s.vec.buffer (block (front_capacity s.vec) xs (back_capacity s.vec))
                q
                (ground (
                  arith,
                  fresh.apart,
                  holds.null,
                  holds.starts,
                  holds.ends,
                  holds.fits,
                  length-block (front_capacity s.vec) xs (back_capacity s.vec),
                )) in
            let clash : unmapped ≡ live v =
              sym free ∙ sym outside ∙ (λ i. sym holds.layout i q) ∙ here in
            cc
      ]
    ]

    pub value_of_allocated :
        (moved : Bool) (arg : Arg A)
        → Denotes s moved arg v
        → value_of arg (allocate p n s.world) ≡ some v
    unfolding value_of
    value_of_allocated moved (value u) d = ap some d
    value_of_allocated moved (ref q) d =
        let there : (allocate p n s.world).cell q ≡ live v =
          (λ i. allocated g s xs p n holds fresh i q)
          ∙ overlay_outside
              (overlay s.vec.buffer (block (front_capacity s.vec) xs (back_capacity s.vec)) g) new
              (raws n) q (ground (arith, not_new q d.0, length-raws A n))
          ∙ (λ i. sym holds.layout i q)
          ∙ d.0 in
        rw there

    -- The new object stands between `left` and `right`, beside the gap for the others.
    module _ (pre post left right : List (Cell A)) (room : length pre + length xs + length post ≡ n)
        (split : beside g s xs p n holds fresh pre post room (raws (length xs))
          ≡ left ++ live v ∷ right)
        (empty : raws n ≡ left ++ raw ∷ right) (t : Traits) (arg : Arg A)
        (given : value_of arg (allocate p n s.world) ≡ some v) where
      abbrev old : ℕ → Cell A
      old = overlay s.vec.buffer (block (front_capacity s.vec) xs (back_capacity s.vec)) g

      -- The vector in the new storage, before the step of `++end` or `--start`.
      abbrev pub settled_at : ℕ → Vector
      settled_at new_start = record {
        buffer = new;
        start = new_start;
        end = new_start + size s.vec;
        capacity = n;
      }

      module _ (object_at new_start : ℕ) (at_object : object_at ≡ new + length left)
          (at_start : new_start ≡ new + length pre) where
        abbrev start_world : World A
        start_world = allocate p n s.world

        -- The objects stand in the new storage, beside the new one.
        abbrev pub Settled : State A → Type 0
        Settled r =
            (r.vec ≡ settled_at new_start)
            × (r.world.cell ≡ overlay new (pre ++ (lives xs ++ post)) g)

        abbrev with_object : ℕ → Cell A
        with_object = grown g s xs p n holds fresh pre post room

        empty_storage : start_world.cell ≡ overlay new (left ++ raw ∷ right) old
        empty_storage = allocated g s xs p n holds fresh ∙ ap (λ l. overlay new l old) empty

        made : construct_arg object_at arg start_world ≡ (
            if start_world.fuse == 0 then threw start_world else ok (burnt start_world with_object))
        made =
            construct_at old new object_at left right at_object v start_world arg given
              empty_storage
            ∙ ap
                (λ l.
                  if start_world.fuse == 0
                  then threw start_world
                  else ok (burnt start_world (overlay new l old)))
                (sym split)

        copying :
            copy_destroy_input t s.vec.start s.vec.end new_start (burnt start_world with_object)
            ≡ Transferred t
                (length xs)
                (burnt start_world with_object)
                (moved g s xs p n holds fresh pre post room)
                with_object
        copying =
            ap (λ k. copy_destroy_input t s.vec.start s.vec.end k (burnt start_world with_object))
              at_start
            ∙ transferred g s xs p n holds fresh pre post room t (burnt start_world with_object)
                refl

        -- The handler destroys the new object, and all is as before.
        undone :
            (w : World A)
            → w.cell ≡ with_object
            → Gives (undo_object s.vec object_at new n w) Settled (λ r. Holds g r xs)
        undone w c =
            rw
              (
                undo_object,
                destroy_at old new object_at left right at_object v w
                    (c ∙ ap (λ l. overlay new l old) split),
              )
              (Holds-same g s xs _ holds
                (restored g s xs p n holds fresh _ (ap (λ l. overlay new l old) (sym empty))))

        pub grow_into-Gives :
            Gives (grow_into t p n new_start object_at arg s) Settled (λ r. Holds g r xs)
        unfolding grow_into
        grow_into-Gives = elim (Bool-cases (start_world.fuse == 0)) [
          | inl stop ↦
              rw (grow_into, made, stop)
                (Holds-same g s xs _ holds
                  (restored g s xs p n holds fresh _ (allocated g s xs p n holds fresh)))
          | inr more ↦
              elim (Transferred-cases t (length xs) (burnt start_world with_object)
                (moved g s xs p n holds fresh pre post room) with_object) [
                  | inl (w, e, c) ↦
                      rw (grow_into, made, more, copying ∙ e)
                        (refl, returned g s xs p n holds fresh pre post room w c)
                  | inr (w, e, c) ↦ rw (grow_into, made, more, copying ∙ e) (undone w c)
                ]
        ]
