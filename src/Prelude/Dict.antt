-- ===== src/Prelude/Dict.antt =====
-- Python's dict as an association list in insertion order, and its set as a list.
use nautilus_ctrader_adapter.Prelude.Tests.{if◌then◌else◌, is_some}
use nautilus_ctrader_adapter.Prelude.Eq.{Eq, ◌==◌, eq_self}
use mathlib.Core.Path.{◌≡◌, refl}
use mathlib.Core.Bool.{Bool, false, ◌||◌}
use mathlib.Core.Option.{Option, none, some}
use mathlib.Core.List.{List, [], ◌∷◌, ◌++◌}
use native.Mathlib.Omega.{arith}

abbrev pub Dict {ℓ κ} : Type ℓ → Type κ → Type (ℓ ⊔ κ)
Dict K V = List (K × V)

module _ {ℓ κ} {K : Type ℓ} {V : Type κ} ⦃e : Eq K⦄ where
  -- `d.get(k)`
  abbrev pub lookup : K → Dict K V → Option V
  lookup k [] = none
  lookup k ((j, v) ∷ d) = if k == j then some v else lookup k d

  -- `k in d`
  abbrev pub contains : K → Dict K V → Bool
  contains k d = is_some (lookup k d)

  -- `d[k] = v`: a key keeps its place, a new one goes last.
  abbrev pub insert : K → V → Dict K V → Dict K V
  insert k v [] = (k, v) ∷ []
  insert k v ((j, w) ∷ d) = if k == j then (j, v) ∷ d else (j, w) ∷ insert k v d

  -- `d.pop(k, None)`, without its result.
  abbrev pub erase : K → Dict K V → Dict K V
  erase k [] = []
  erase k ((j, w) ∷ d) = if k == j then erase k d else (j, w) ∷ erase k d

  -- `d.setdefault(k, v)`
  abbrev pub set_default : K → V → Dict K V → Dict K V
  set_default k v d = if contains k d then d else insert k v d

  pub lookup-insert :
      (k j : K) (v : V) (d : Dict K V)
      → lookup j (insert k v d) ≡ (if j == k then some v else lookup j d)
  lookup-insert k j v [] = refl
  lookup-insert k j v ((i, w) ∷ d) =
      ground (arith, e.beq_iff k i, e.beq_iff j i, e.beq_iff j k, lookup-insert k j v d)

  pub lookup-insert_self : (k : K) (v : V) (d : Dict K V) → lookup k (insert k v d) ≡ some v
  lookup-insert_self k v d = ground (arith, lookup-insert k k v d, eq_self k)

  pub lookup-erase :
      (k j : K) (d : Dict K V) → lookup j (erase k d) ≡ (if j == k then none else lookup j d)
  lookup-erase k j [] = ground arith
  lookup-erase k j ((i, w) ∷ d) =
      ground (arith, e.beq_iff k i, e.beq_iff j i, e.beq_iff j k, lookup-erase k j d)

-- `list(d.values())`
abbrev pub values {ℓ κ} : {K : Type ℓ} {V : Type κ} → Dict K V → List V
values [] = []
values ((k, v) ∷ d) = v ∷ values d

module _ {ℓ} {A : Type ℓ} ⦃e : Eq A⦄ where
  -- `a in s`
  abbrev pub member : A → List A → Bool
  member a [] = false
  member a (b ∷ s) = a == b || member a s

  -- `s.add(a)`
  abbrev pub add : A → List A → List A
  add a s = if member a s then s else s ++ a ∷ []

  -- `s.discard(a)`
  abbrev pub discard : A → List A → List A
  discard a [] = []
  discard a (b ∷ s) = if a == b then discard a s else b ∷ discard a s

  member-append : (a : A) (s t : List A) → member a (s ++ t) ≡ (member a s || member a t)
  member-append a [] t = refl
  member-append a (b ∷ s) t = ground (arith, member-append a s t)

  pub member-add : (a b : A) (s : List A) → member b (add a s) ≡ (b == a || member b s)
  member-add a b s = ground (arith, member-append b s (a ∷ []), e.beq_iff b a)

  pub member-discard :
      (a b : A) (s : List A) → member b (discard a s) ≡ (if b == a then false else member b s)
  member-discard a b [] = ground arith
  member-discard a b (c ∷ s) =
      ground (arith, e.beq_iff a c, e.beq_iff b c, e.beq_iff b a, member-discard a b s)
