-- ===== src/BalanceHistory/Collected.antt =====
-- The changes collected by version (common/balance_history.py, `_by_version`).
use nautilus_ctrader_adapter.Prelude.{
  ℕ, ◌≡◌, refl, sym, ap, subst, ◌∙◌, ◌↔◌, ◌⊎◌, inl, inr, true, none, some, List, [], ◌∷◌, arith,
  Option-cases, Bool-cases, nat_eq_iff,
}
use nautilus_ctrader_adapter.Prelude.Eq.{ℕ_eq, option_eq_iff}
use nautilus_ctrader_adapter.Prelude.Int.{int_eq_iff, ℤ_eq}
use nautilus_ctrader_adapter.Prelude.Dict.{Dict, lookup, insert, values, lookup-insert}
use nautilus_ctrader_adapter.Prelude.Sort.{Mem}
use nautilus_ctrader_adapter.BalanceHistory.{BalanceChange, change_eq, collect}

abbrev pub version_of : BalanceChange → ℕ
version_of change = change.version

pub change_eq_iff : (a b : BalanceChange) → (change_eq a b ≡ true) ↔ (a ≡ b)
unfolding change_eq
change_eq_iff a b = ground (arith, option_eq_iff a.delta b.delta, int_eq_iff a.balance b.balance)

-- Every change stands once, at its own version.
abbrev pub IsKeyed : Dict ℕ BalanceChange → Type 0
IsKeyed [] = Unit
IsKeyed ((version, change) ∷ d) = (change.version ≡ version) × (lookup version d ≡ none) × IsKeyed d

pub IsKeyed-insert :
    (change : BalanceChange) (d : Dict ℕ BalanceChange)
    → lookup change.version d ≡ none
    → IsKeyed d
    → IsKeyed (insert change.version change d)
IsKeyed-insert change [] h k = (refl, refl, tt)
IsKeyed-insert change ((v, c) ∷ d) h (e, fresh, k) =
    ground (arith, h, e, fresh, IsKeyed-insert change d, k, lookup-insert change.version v change d)

-- A change is a value of such a dict when it is found at its version.
pub Mem-values :
    (d : Dict ℕ BalanceChange) (c : BalanceChange)
    → IsKeyed d
    → Mem c (values d) ↔ (lookup c.version d ≡ some c)
Mem-values [] c k = ((λ m. elim m [ ]), λ h. ground (arith, h))
Mem-values ((v, x) ∷ d) c (e, fresh, k) =
    let ih = Mem-values d c k in
    (
      (λ m. elim m [
        | inl same ↦ ground (arith, e, same, ap version_of same)
        | inr m' ↦ ground (arith, fresh, ih.0 m', nat_eq_iff c.version v)
      ]),
      λ h. ground (arith, h, ih.1),
    )

pub collect-finds :
    (changes : List BalanceChange) (d found : Dict ℕ BalanceChange)
    → IsKeyed d
    → collect changes d ≡ some found
    → IsKeyed found
      × ((c : BalanceChange)
          → (lookup c.version found ≡ some c) ↔ ((lookup c.version d ≡ some c) ⊎ Mem c changes))
unfolding collect
collect-finds [] d found k h =
    let same : d ≡ found = ground (arith, h) in
    subst
      (λ f.
        IsKeyed f
        × ((c : BalanceChange)
            → (lookup c.version f ≡ some c) ↔ ((lookup c.version d ≡ some c) ⊎ Mem c [])))
      same (k, λ c. (inl, λ m. elim m [ inl l ↦ l | inr n ↦ elim n [ ] ]))
collect-finds (x ∷ changes) d found k h = elim (Option-cases (lookup x.version d)) [
  | inl e ↦
      let next = insert x.version x d in
      let later : collect changes next ≡ some found = ground (arith, e, h) in
      let (keyed, ih) = collect-finds changes next found (IsKeyed-insert x d e k) later in
      (
        keyed,
        λ c.
            let at_c = lookup-insert x.version c.version x d in
            let n = nat_eq_iff c.version x.version in
            (
              (λ l. elim ((ih c).0 l) [
                | inl l' ↦ ground (arith, l', at_c, n, e)
                | inr m ↦ inr (inr m)
              ]),
              λ m. elim m [
                | inl l ↦ ground (
                  arith,
                  (ih c).1,
                  l,
                  at_c,
                  n,
                  e,
                  ap (λ v. lookup v d) {x = c.version} {y = x.version},
                )
                | inr (inl same) ↦ ground (arith, (ih c).1, at_c, n, same, ap version_of same)
                | inr (inr m') ↦ (ih c).1 (inr m')
              ],
            ),
      )
  | inr (held, e) ↦ elim (Bool-cases (change_eq held x)) [
    | inr n ↦ ground (arith, e, n, h)
    | inl q ↦
        let same : held ≡ x = (change_eq_iff held x).0 q in
        let later : collect changes d ≡ some found = ground (arith, e, q, h) in
        let (keyed, ih) = collect-finds changes d found k later in
        let here : lookup x.version d ≡ some x = e ∙ ap some same in
        (
          keyed,
          λ c. (
            (λ l. elim ((ih c).0 l) [ inl l' ↦ inl l' | inr m ↦ inr (inr m) ]),
            λ m. elim m [
              | inl l ↦ (ih c).1 (inl l)
              | inr (inl c_is) ↦
                  (ih c).1 (inl (subst (λ y. lookup y.version d ≡ some y) (sym c_is) here))
              | inr (inr m') ↦ (ih c).1 (inr m')
            ],
          ),
        )
  ]
]
