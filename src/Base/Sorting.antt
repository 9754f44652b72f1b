-- ===== src/Base/Sorting.antt =====
-- Sorting by a strict order (sort.Slice, ORDER BY), lists in order, and selections from them.
use mathlib.Core.Path.{◌≡◌, refl}
use mathlib.Core.Logic.{inl, inr}
use mathlib.Core.Bool.{Bool, true, false, not, ◌&&◌}
use mathlib.Core.List.{List, [], ◌∷◌, ◌++◌, append-nil}
use native.Mathlib.Omega.{arith}
use pulsar_app.Base.Tests.{if◌then◌else◌, Bool-cases}
use pulsar_app.Base.Lists.{All, All-append, All-append_left, All-map, select}

module _ {ℓ} {A : Type ℓ} where
  abbrev pub insert_by : (A → A → Bool) → A → List A → List A
  insert_by lt a [] = a ∷ []
  insert_by lt a (b ∷ bs) = let rest = insert_by lt a bs in if lt a b then a ∷ b ∷ bs else b ∷ rest

  abbrev pub sort_by : (A → A → Bool) → List A → List A
  sort_by lt [] = []
  sort_by lt (a ∷ xs) = insert_by lt a (sort_by lt xs)

  abbrev pub backwards : List A → List A
  backwards [] = []
  backwards (a ∷ xs) = backwards xs ++ a ∷ []

  -- Each element is related to all that follow it.
  abbrev pub Ordered : (A → A → Bool) → List A → Type 0
  Ordered r [] = Unit
  Ordered r (a ∷ xs) = All (λ b. r a b ≡ true) xs × Ordered r xs

  -- A list in order is sorted to itself.
  pub sort_by-Ordered : (lt : A → A → Bool) (xs : List A) → Ordered lt xs → sort_by lt xs ≡ xs
  sort_by-Ordered lt [] h = refl
  sort_by-Ordered lt (a ∷ []) h = refl
  sort_by-Ordered lt (a ∷ b ∷ xs) h = rw (sort_by-Ordered lt (b ∷ xs) h.1) (rw (h.0.0))

  insert_by_last :
      (lt : A → A → Bool) (a : A) (bs : List A)
      → All (λ b. lt a b ≡ false) bs
      → insert_by lt a bs ≡ bs ++ a ∷ []
  insert_by_last lt a [] h = refl
  insert_by_last lt a (b ∷ bs) (hb, h) = rw (hb, insert_by_last lt a bs h)

module _ {ℓ κ} {A : Type ℓ} (P : A → Type κ) where
  pub All-select : (p : A → Bool) (xs : List A) → All P xs → All P (select p xs)
  All-select p [] h = tt
  All-select p (x ∷ xs) (hx, h) = elim (Bool-cases (p x)) [
    | inl e ↦ rw e (hx, All-select p xs h)
    | inr e ↦ rw e (All-select p xs h)
  ]

  pub All-backwards : (xs : List A) → All P xs → All P (backwards xs)
  All-backwards [] h = tt
  All-backwards (x ∷ xs) (hx, h) =
      All-append P (backwards xs) (x ∷ []) (All-backwards xs h) (hx, tt)

module _ {ℓ} {A : Type ℓ} where
  -- If no element comes before the one that it follows, the list is sorted to its reverse.
  pub sort_by-backwards :
      (lt : A → A → Bool) (xs : List A)
      → Ordered (λ a b. not (lt a b)) xs
      → sort_by lt xs ≡ backwards xs
  sort_by-backwards lt [] h = refl
  sort_by-backwards lt (a ∷ xs) (ha, h) = rw (sort_by-backwards lt xs h) (
      insert_by_last lt a (backwards xs)
        (All-backwards (λ b. lt a b ≡ false) xs (All-map (λ b e. not_true e) xs ha)))
    where
      not_true : {b : Bool} → not b ≡ true → b ≡ false
      not_true {b} e = ground arith

  pub select-append :
      (p : A → Bool) (xs ys : List A) → select p (xs ++ ys) ≡ select p xs ++ select p ys
  select-append p [] ys = refl
  select-append p (x ∷ xs) ys = ground (arith, select-append p xs ys)

  pub select-backwards :
      (p : A → Bool) (xs : List A) → select p (backwards xs) ≡ backwards (select p xs)
  select-backwards p [] = refl
  select-backwards p (x ∷ xs) = elim (Bool-cases (p x)) [
    | inl e ↦ rw (select-append p (backwards xs) (x ∷ [])) (rw (select-backwards p xs, e))
    | inr e ↦
        rw (select-append p (backwards xs) (x ∷ [])) (rw (select-backwards p xs, e) (append-nil _))
  ]

  pub select-select :
      (p q : A → Bool) (xs : List A) → select p (select q xs) ≡ select (λ x. q x && p x) xs
  select-select p q [] = refl
  select-select p q (x ∷ xs) = ground (arith, select-select p q xs)

  pub select-congr :
      (p q : A → Bool) (xs : List A) → ((x : A) → p x ≡ q x) → select p xs ≡ select q xs
  select-congr p q [] h = refl
  select-congr p q (x ∷ xs) h = rw (h x, select-congr p q xs h)

  pub select-holds : (p : A → Bool) (xs : List A) → All (λ x. p x ≡ true) (select p xs)
  select-holds p [] = tt
  select-holds p (x ∷ xs) = elim (Bool-cases (p x)) [
    | inl e ↦ rw e (e, select-holds p xs)
    | inr e ↦ rw e (select-holds p xs)
  ]

  pub select_none : (p : A → Bool) (xs : List A) → All (λ x. p x ≡ false) xs → select p xs ≡ []
  select_none p [] h = refl
  select_none p (x ∷ xs) (hx, h) = rw (hx, select_none p xs h)

  pub select-All : (p : A → Bool) (xs : List A) → All (λ x. p x ≡ true) xs → select p xs ≡ xs
  select-All p [] h = refl
  select-All p (x ∷ xs) (hx, h) = rw (hx, select-All p xs h)

module _ {ℓ} {A : Type ℓ} (r : A → A → Bool) where
  pub Ordered-select : (p : A → Bool) (xs : List A) → Ordered r xs → Ordered r (select p xs)
  Ordered-select p [] h = tt
  Ordered-select p (x ∷ xs) (hx, h) = elim (Bool-cases (p x)) [
    | inl e ↦ rw e (All-select _ p xs hx, Ordered-select p xs h)
    | inr e ↦ rw e (Ordered-select p xs h)
  ]

  -- A list in order, with an element after all of it.
  pub Ordered-concat :
      (xs : List A) (y : A) → Ordered r xs → All (λ x. r x y ≡ true) xs → Ordered r (xs ++ y ∷ [])
  Ordered-concat [] y h k = (tt, tt)
  Ordered-concat (x ∷ xs) y (hx, h) (kx, k) =
      (All-append _ xs (y ∷ []) hx (kx, tt), Ordered-concat xs y h k)

  pub Ordered-append :
      (xs ys : List A)
      → Ordered r xs
      → Ordered r ys
      → All (λ x. All (λ y. r x y ≡ true) ys) xs
      → Ordered r (xs ++ ys)
  Ordered-append [] ys h k all = k
  Ordered-append (x ∷ xs) ys (hx, h) k (ax, all) =
      (All-append _ xs ys hx ax, Ordered-append xs ys h k all)

  pub Ordered-append_left : (xs ys : List A) → Ordered r (xs ++ ys) → Ordered r xs
  Ordered-append_left [] ys h = tt
  Ordered-append_left (x ∷ xs) ys (hx, h) =
      (All-append_left _ xs ys hx, Ordered-append_left xs ys h)

  pub Ordered-backwards : (xs : List A) → Ordered (λ a b. r b a) xs → Ordered r (backwards xs)
  Ordered-backwards [] h = tt
  Ordered-backwards (x ∷ xs) (hx, h) =
      Ordered-concat (backwards xs) x (Ordered-backwards xs h) (All-backwards _ xs hx)
