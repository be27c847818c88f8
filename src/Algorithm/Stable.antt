-- ===== src/Algorithm/Stable.antt =====
-- What a stable sort gives: an ascending list in which the elements that are alike are the same as
-- before and in the same order.
use seq.Prelude.{
  ◌≡◌, refl, ap, ◌∙◌, inl, inr, Bool, true, false, Bool-cases, List, [], ◌∷◌, ◌++◌, if◌then◌else◌,
}

module _ {A : Type 0} where
  -- The elements that satisfy a predicate.
  abbrev pub filter : (A → Bool) → List A → List A
  filter p [] = []
  filter p (x ∷ xs) = if p x then x ∷ filter p xs else filter p xs

  abbrev pub All : (A → Type 0) → List A → Type 0
  All P [] = Unit {0}
  All P (x ∷ xs) = P x × All P xs

  pub filter-append :
      (p : A → Bool) (xs ys : List A) → filter p (xs ++ ys) ≡ filter p xs ++ filter p ys
  filter-append p [] ys = refl
  filter-append p (x ∷ xs) ys = elim (Bool-cases (p x)) [
    | inl e ↦ rw (e, filter-append p xs ys) refl
    | inr e ↦ rw (e, filter-append p xs ys) refl
  ]

  pub All-append : (P : A → Type 0) (xs ys : List A) → All P xs → All P ys → All P (xs ++ ys)
  All-append P [] ys h k = k
  All-append P (x ∷ xs) ys h k = (h.0, All-append P xs ys h.1 k)

  pub All-map : (P Q : A → Type 0) (xs : List A) → ((x : A) → P x → Q x) → All P xs → All Q xs
  All-map P Q [] f h = h
  All-map P Q (x ∷ xs) f h = (f x h.0, All-map P Q xs f h.1)

module _ {A : Type 0} (c : A → A → Bool) where
  -- A strict weak order.
  pub record WeakOrder : Type 0 where
    pub asymmetric : (a b : A) → c a b ≡ true → c b a ≡ false
    pub cotransitive : (a b d : A) → c a b ≡ true → c a d ≡ false → c d b ≡ true

  abbrev pub alike : A → A → Bool
  alike k x = if c k x then false else if c x k then false else true

  -- No element stands before one in front of it.
  abbrev pub Ascending : List A → Type 0
  Ascending [] = Unit {0}
  Ascending (x ∷ xs) = All (λ y. c y x ≡ false) xs × Ascending xs

  -- No element stands before one behind it.
  abbrev pub Descending : List A → Type 0
  Descending [] = Unit {0}
  Descending (x ∷ xs) = All (λ y. c x y ≡ false) xs × Descending xs

  -- The second list is the first one, sorted by a stable sort.
  pub record Sorts (xs zs : List A) : Type 0 where
    pub ascending : Ascending zs
    pub same : (k : A) → filter (alike k) zs ≡ filter (alike k) xs

  module _ (o : WeakOrder) where
    pub irreflexive : (a : A) → c a a ≡ false
    irreflexive a = elim (Bool-cases (c a a)) [ inl e ↦ o.asymmetric a a e | inr e ↦ e ]

    pub le_trans : (a b d : A) → c b a ≡ false → c d b ≡ false → c d a ≡ false
    le_trans a b d h k = elim (Bool-cases (c d a)) [
      | inr fails ↦ fails
      | inl holds ↦ let below = o.cotransitive d a b holds k in absurd cc
    ]

    pub lt-le_trans : (a b d : A) → c a b ≡ true → c d b ≡ false → c a d ≡ true
    lt-le_trans a b d h k = elim (Bool-cases (c a d)) [
      | inl holds ↦ holds
      | inr fails ↦ let below = o.cotransitive a b d h fails in absurd cc
    ]

    pub le-lt_trans : (a b d : A) → c b a ≡ false → c b d ≡ true → c a d ≡ true
    le-lt_trans a b d h k = o.cotransitive b d a k h

    -- Elements one of which stands before the other are not alike with the same.
    pub alike-apart : (k x p : A) → c x p ≡ true → alike k x ≡ true → alike k p ≡ false
    alike-apart k x p h e = elim (Bool-cases (c k x)) [
      | inl before ↦
          let no = ap (λ b. if b then false else if c x k then false else true) before in absurd cc
      | inr first ↦ elim (Bool-cases (c x k)) [
        | inl behind ↦ let no : alike k x ≡ false = rw (first, behind) refl in absurd cc
        | inr second ↦ rw (o.cotransitive x p k h second) refl
      ]
    ]

    pub filter-swap :
        (k x p : A) (zs : List A)
        → c x p ≡ true
        → filter (alike k) (p ∷ x ∷ zs) ≡ filter (alike k) (x ∷ p ∷ zs)
    filter-swap k x p zs h = elim (Bool-cases (alike k x)) [
      | inl e ↦ rw (e, alike-apart k x p h e) refl
      | inr e ↦ rw e refl
    ]

    -- An element that stands before all others of a list may move to the front of it.
    pub filter-move :
        (k x : A) (ps zs : List A)
        → All (λ p. c x p ≡ true) ps
        → filter (alike k) (ps ++ x ∷ zs) ≡ filter (alike k) (x ∷ (ps ++ zs))
    filter-move k x [] zs h = refl
    filter-move k x (p ∷ ps) zs h =
        ap (λ l. if alike k p then p ∷ l else l) (filter-move k x ps zs h.1)
        ∙ filter-swap k x p (ps ++ zs) h.0
