-- ===== src/Prelude/Sort.antt =====
-- Python's `sorted`, by a test of the order, and elements of a list.
use nautilus_ctrader_adapter.Prelude.Tests.{if◌then◌else◌}
use mathlib.Core.Path.{◌≡◌}
use mathlib.Core.Logic.{◌⊎◌, ◌↔◌, inl, inr}
use mathlib.Core.Bool.{Bool, true, false}
use mathlib.Core.List.{List, [], ◌∷◌}
use native.Mathlib.Omega.{arith}

module _ {A : Type 0} where
  abbrev pub Mem : A → List A → Type 0
  Mem a [] = ⊥
  Mem a (b ∷ xs) = (a ≡ b) ⊎ Mem a xs

  -- A new element goes before the first one that it does not come after.
  abbrev pub place : (A → A → Bool) → A → List A → List A
  place le a [] = a ∷ []
  place le a (b ∷ xs) = if le a b then a ∷ b ∷ xs else b ∷ place le a xs

  abbrev pub sorted : (A → A → Bool) → List A → List A
  sorted le [] = []
  sorted le (a ∷ xs) = place le a (sorted le xs)

  -- Below every element of a list.
  abbrev pub Below : (A → A → Bool) → A → List A → Type 0
  Below le a [] = Unit
  Below le a (b ∷ xs) = (le a b ≡ true) × Below le a xs

  abbrev pub Ascending : (A → A → Bool) → List A → Type 0
  Ascending le [] = Unit
  Ascending le (a ∷ xs) = Below le a xs × Ascending le xs

  Mem-place :
      (le : A → A → Bool) (a x : A) (xs : List A) → Mem x (place le a xs) ↔ ((x ≡ a) ⊎ Mem x xs)
  Mem-place le a x [] = ((λ h. h), (λ h. h))
  Mem-place le a x (b ∷ xs) = ground (arith, Mem-place le a x xs)

  pub Mem-sorted : (le : A → A → Bool) (x : A) (xs : List A) → Mem x (sorted le xs) ↔ Mem x xs
  Mem-sorted le x [] = ((λ h. h), (λ h. h))
  Mem-sorted le x (b ∷ xs) = ground (arith, Mem-sorted le x xs, Mem-place le b x (sorted le xs))

  pub Below-Mem :
      (le : A → A → Bool) (a x : A) (xs : List A) → Below le a xs → Mem x xs → le a x ≡ true
  Below-Mem le a x [] below m = elim m [ ]
  Below-Mem le a x (b ∷ xs) (h, below) (inl e) = rw e h
  Below-Mem le a x (b ∷ xs) (h, below) (inr m) = Below-Mem le a x xs below m

  -- A total preorder, as the comparison of keys is.
  abbrev pub IsOrder : (A → A → Bool) → Type 0
  IsOrder le =
      ((a b : A) → le a b ≡ false → le b a ≡ true)
      × ((a b c : A) → le a b ≡ true → le b c ≡ true → le a c ≡ true)

  Below-place :
      (le : A → A → Bool) (a b : A) (xs : List A)
      → le b a ≡ true
      → Below le b xs
      → Below le b (place le a xs)
  Below-place le a b [] h below = (h, tt)
  Below-place le a b (c ∷ xs) h (l, below) =
      ground (arith, h, l, below, Below-place le a b xs h below)

  Below-trans :
      (le : A → A → Bool)
      → IsOrder le
      → (a b : A) (xs : List A) → le a b ≡ true
      → Below le b xs
      → Below le a xs
  Below-trans le order a b [] h below = tt
  Below-trans le order a b (c ∷ xs) h (l, below) =
      (order.1 a b c h l, Below-trans le order a b xs h below)

  pub place-Ascending :
      (le : A → A → Bool)
      → IsOrder le
      → (a : A) (xs : List A) → Ascending le xs
      → Ascending le (place le a xs)
  place-Ascending le order a [] h = (tt, tt)
  place-Ascending le order a (b ∷ xs) (below, h) = ground (
    arith,
    below,
    h,
    order.0 a b,
    Below-trans le order a b xs,
    Below-place le a b xs,
    place-Ascending le order a xs h,
  )

  pub sorted-Ascending :
      (le : A → A → Bool) → IsOrder le → (xs : List A) → Ascending le (sorted le xs)
  sorted-Ascending le order [] = tt
  sorted-Ascending le order (a ∷ xs) =
      place-Ascending le order a (sorted le xs) (sorted-Ascending le order xs)
