-- ===== src/History/Pages.antt =====
-- What the pages of a list add up to (common/history.py, `_paged`): the items found, by their id.
use nautilus_ctrader_adapter.Prelude.{
  ℕ, ◌≡◌, ◌≢◌, ◌⊎◌, ◌↔◌, refl, sym, subst, ◌∙◌, Bool, none, some, List, [], ◌∷◌, arith,
  Option-cases, inl, inr, nat_eq_iff,
}
use nautilus_ctrader_adapter.Prelude.Eq.{ℕ_eq}
use nautilus_ctrader_adapter.Prelude.Dict.{Dict, lookup, insert, set_default, values, lookup-insert}
use nautilus_ctrader_adapter.Prelude.Sort.{Mem, place, sorted}
use nautilus_ctrader_adapter.History.{gather}

module _ {Item : Type 0} (id_of : Item → ℕ) where
  -- Each item stands once, at its own id.
  abbrev pub IsKeyed : Dict ℕ Item → Type 0
  IsKeyed [] = Unit
  IsKeyed ((id, item) ∷ d) = (id_of item ≡ id) × (lookup id d ≡ none) × IsKeyed d

  -- No other item of the list has the id.
  abbrev Fresh : ℕ → List Item → Type 0
  Fresh id [] = Unit
  Fresh id (item ∷ items) = (id ≢ id_of item) × Fresh id items

  -- No id stands twice.
  abbrev pub Distinct : List Item → Type 0
  Distinct [] = Unit
  Distinct (item ∷ items) = Fresh (id_of item) items × Distinct items

  -- The id tells the items of a list apart.
  abbrev pub Identifies : List Item → Type 0
  Identifies listed = (a b : Item) → Mem a listed → Mem b listed → id_of a ≡ id_of b → a ≡ b

  keyed_Fresh : (id : ℕ) (d : Dict ℕ Item) → IsKeyed d → lookup id d ≡ none → Fresh id (values d)
  keyed_Fresh id [] k h = tt
  keyed_Fresh id ((j, item) ∷ d) (e, f, k) h = ground (arith, h, e, keyed_Fresh id d k)

  pub IsKeyed-Distinct : (d : Dict ℕ Item) → IsKeyed d → Distinct (values d)
  IsKeyed-Distinct [] k = tt
  IsKeyed-Distinct ((id, item) ∷ d) (e, fresh, k) = (
    keyed_Fresh (id_of item) d k (subst (λ i. lookup i d ≡ none) (sym e) fresh),
    IsKeyed-Distinct d k,
  )

  lookup-Mem :
      (id : ℕ) (item : Item) (d : Dict ℕ Item)
      → IsKeyed d
      → lookup id d ≡ some item
      → Mem item (values d) × (id_of item ≡ id)
  lookup-Mem id item [] k h = ground (arith, h)
  lookup-Mem id item ((j, other) ∷ d) (e, fresh, k) h =
      ground (arith, e, h, lookup-Mem id item d k, nat_eq_iff id j)

  IsKeyed-insert :
      (item : Item) (d : Dict ℕ Item)
      → lookup (id_of item) d ≡ none
      → IsKeyed d
      → IsKeyed (insert (id_of item) item d)
  IsKeyed-insert item [] h k = (refl, refl, tt)
  IsKeyed-insert item ((j, other) ∷ d) h (e, fresh, k) =
      ground (arith, h, e, fresh, IsKeyed-insert item d, k, lookup-insert (id_of item) j item d)

  Mem-insert :
      (x item : Item) (d : Dict ℕ Item)
      → lookup (id_of item) d ≡ none
      → Mem x (values (insert (id_of item) item d)) ↔ (Mem x (values d) ⊎ (x ≡ item))
  Mem-insert x item [] h = ground arith
  Mem-insert x item ((j, other) ∷ d) h = ground (arith, h, Mem-insert x item d)

  -- Adding an item of the list whose id may be there already.
  set_default-Mem :
      (item : Item) (found : Dict ℕ Item) (listed : List Item)
      → Identifies listed
      → Mem item listed
      → ((x : Item) → Mem x (values found) → Mem x listed)
      → IsKeyed found
      → IsKeyed (set_default (id_of item) item found)
        × ((x : Item)
            → Mem x (values (set_default (id_of item) item found))
              ↔ (Mem x (values found) ⊎ (x ≡ item)))
  set_default-Mem item found listed unique here from k =
      elim (Option-cases (lookup (id_of item) found)) [
        | inl e ↦
            subst
              (λ d.
                IsKeyed d × ((x : Item) → Mem x (values d) ↔ (Mem x (values found) ⊎ (x ≡ item))))
              (sym (ground (arith, e)))
              (IsKeyed-insert item found e k, λ x. Mem-insert x item found e)
        | inr (held, e) ↦
            let (there, at) = lookup-Mem (id_of item) held found k e in
            let same : held ≡ item = unique held item (from held there) here at in
            subst
              (λ d.
                IsKeyed d × ((x : Item) → Mem x (values d) ↔ (Mem x (values found) ⊎ (x ≡ item))))
              (sym (ground (arith, e)))
              (
                k,
                λ x. (
                  inl,
                  λ m. elim m [
                    | inl old ↦ old
                    | inr new ↦ subst (λ y. Mem y (values found)) (same ∙ sym new) there
                  ],
                ),
              )
      ]

  -- A page of the list's items adds each of them, once.
  pub gather-Mem :
      (items : List Item) (found : Dict ℕ Item) (listed : List Item)
      → Identifies listed
      → ((x : Item) → Mem x items → Mem x listed)
      → ((x : Item) → Mem x (values found) → Mem x listed)
      → IsKeyed found
      → IsKeyed (gather id_of items found)
        × ((x : Item)
            → Mem x (values (gather id_of items found)) ↔ (Mem x (values found) ⊎ Mem x items))
  gather-Mem [] found listed unique page from k =
      (k, λ x. (inl, λ m. elim m [ inl old ↦ old | inr n ↦ elim n [ ] ]))
  gather-Mem (item ∷ items) found listed unique page from k =
      let next = set_default (id_of item) item found in
      let (keyed, added) = set_default-Mem item found listed unique (page item (inl refl)) from k in
      let still : (x : Item) → Mem x (values next) → Mem x listed = λ x m. elim ((added x).0 m) [
        | inl old ↦ from x old
        | inr new ↦ subst (λ y. Mem y listed) (sym new) (page item (inl refl))
      ] in
      let (keyed', ih) = gather-Mem items next listed unique (λ x m. page x (inr m)) still keyed in
      (keyed', λ x. ground (arith, ih x, added x))

  Fresh-place :
      (le : Item → Item → Bool) (id : ℕ) (item : Item) (items : List Item)
      → id ≢ id_of item
      → Fresh id items
      → Fresh id (place le item items)
  Fresh-place le id item [] n f = (n, tt)
  Fresh-place le id item (x ∷ items) n (m, f) =
      ground (arith, n, m, f, Fresh-place le id item items n f)

  Fresh-sorted :
      (le : Item → Item → Bool) (id : ℕ) (items : List Item)
      → Fresh id items
      → Fresh id (sorted le items)
  Fresh-sorted le id [] f = tt
  Fresh-sorted le id (x ∷ items) (n, f) =
      Fresh-place le id x (sorted le items) n (Fresh-sorted le id items f)

  place-Distinct :
      (le : Item → Item → Bool) (item : Item) (items : List Item)
      → Fresh (id_of item) items
      → Distinct items
      → Distinct (place le item items)
  place-Distinct le item [] f d = (tt, tt)
  place-Distinct le item (x ∷ items) (n, f) (g, d) =
      let away : id_of x ≢ id_of item = λ e. n (sym e) in
      ground (
        arith,
        n,
        f,
        g,
        d,
        place-Distinct le item items f d,
        Fresh-place le (id_of x) item items away g,
      )

  -- Sorting keeps the ids apart.
  pub sorted-Distinct :
      (le : Item → Item → Bool) (items : List Item) → Distinct items → Distinct (sorted le items)
  sorted-Distinct le [] d = tt
  sorted-Distinct le (x ∷ items) (f, d) =
      place-Distinct le x (sorted le items) (Fresh-sorted le (id_of x) items f)
        (sorted-Distinct le items d)
