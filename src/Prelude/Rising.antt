-- ===== src/Prelude/Rising.antt =====
-- Lists that rise strictly by a key: two of them with the same elements are the same.
use nautilus_ctrader_adapter.Prelude.Sort.{Mem}
use Prim.Native.Nat.{ℕ, ◌<◌}
use mathlib.Core.Path.{◌≡◌, refl, sym, ap, ◌∙◌, subst}
use mathlib.Core.Logic.{◌↔◌, inl, inr}
use mathlib.Core.List.{List, [], ◌∷◌}
use mathlib.Core.Path.{ap₂}
use native.Mathlib.Omega.{arith}

module _ {A : Type 0} (key : A → ℕ) where
  -- `a` comes before every element of a list.
  abbrev pub Before : ℕ → List A → Type 0
  Before k [] = Unit
  Before k (b ∷ xs) = (k < key b) × Before k xs

  abbrev pub Rising : List A → Type 0
  Rising [] = Unit
  Rising (a ∷ xs) = Before (key a) xs × Rising xs

  pub Before-Mem : (k : ℕ) (x : A) (xs : List A) → Before k xs → Mem x xs → k < key x
  Before-Mem k x [] h m = elim m [ ]
  Before-Mem k x (b ∷ xs) (l, h) (inl e) = rw e l
  Before-Mem k x (b ∷ xs) (l, h) (inr m) = Before-Mem k x xs h m

  pub Before-below : (k j : ℕ) (xs : List A) → k < j → Before j xs → Before k xs
  Before-below k j [] h b = tt
  Before-below k j (x ∷ xs) h (l, b) = (omega (arith, h, l), Before-below k j xs h b)

  heads :
      (x y : A) (a b : List A)
      → Rising (x ∷ a)
      → Rising (y ∷ b)
      → Mem x (y ∷ b)
      → Mem y (x ∷ a)
      → x ≡ y
  heads x y a b ra rb (inl e) m = e
  heads x y a b ra rb (inr l) (inl e) = sym e
  heads x y a b ra rb (inr l) (inr m) =
      absurd (omega (arith, Before-Mem (key x) y a ra.0 m, Before-Mem (key y) x b rb.0 l))

  tail_member : (x z : A) (a b : List A) → Before (key x) a → Mem z a → Mem z (x ∷ b) → Mem z b
  tail_member x z a b r m (inl e) = absurd (omega (arith, Before-Mem (key x) z a r m, ap key e))
  tail_member x z a b r m (inr l) = l

  pub Rising-unique : (a b : List A) → Rising a → Rising b → ((x : A) → Mem x a ↔ Mem x b) → a ≡ b
  Rising-unique [] [] ra rb same = refl
  Rising-unique [] (y ∷ b) ra rb same = elim ((same y).1 (inl refl)) [ ]
  Rising-unique (x ∷ a) [] ra rb same = elim ((same x).0 (inl refl)) [ ]
  Rising-unique (x ∷ a) (y ∷ b) ra rb same =
      let head : x ≡ y = heads x y a b ra rb ((same x).0 (inl refl)) ((same y).1 (inl refl)) in
      let rb' : Before (key x) b = subst (λ z. Before (key z) b) (sym head) rb.0 in
      let rest : a ≡ b = Rising-unique a b ra.1 rb.1 (λ z. (
        (λ m.
            tail_member x z a b ra.0 m
              (subst (λ h. Mem z (h ∷ b)) (sym head) ((same z).0 (inr m)))),
        (λ m. tail_member x z b a rb' m ((same z).1 (inr m))),
      )) in
      ap₂ ◌∷◌ head rest

  pub Rising-key : (a b : A) (xs : List A) → Rising xs → Mem a xs → Mem b xs → key a ≡ key b → a ≡ b
  Rising-key a b [] r m n e = elim m [ ]
  Rising-key a b (x ∷ xs) (before, r) (inl p) (inl q) e = p ∙ sym q
  Rising-key a b (x ∷ xs) (before, r) (inl p) (inr n) e =
      absurd (omega (arith, Before-Mem (key x) b xs before n, ap key p, e))
  Rising-key a b (x ∷ xs) (before, r) (inr m) (inl q) e =
      absurd (omega (arith, Before-Mem (key x) a xs before m, ap key q, e))
  Rising-key a b (x ∷ xs) (before, r) (inr m) (inr n) e = Rising-key a b xs r m n e
