-- ===== src/BalanceHistory/Order.antt =====
-- The changes by version (common/balance_history.py, `_by_version`).
use nautilus_ctrader_adapter.Prelude.{
  ℕ, ◌<◌, ◌≡◌, ◌≢◌, refl, sym, ap, subst, ◌∙◌, ◌↔◌, ◌⊎◌, inl, inr, some, List, [], ◌∷◌, arith,
  Option-cases, Bool-cases, nat_eq, nat_eq_iff,
}
use nautilus_ctrader_adapter.Prelude.Eq.{ℕ_eq}
use nautilus_ctrader_adapter.Prelude.Int.{ℤ_eq}
use nautilus_ctrader_adapter.Prelude.Dict.{Dict, lookup, insert, values, lookup-insert}
use nautilus_ctrader_adapter.Prelude.Sort.{Mem, sorted, place, Mem-sorted}
use nautilus_ctrader_adapter.Prelude.Rising.{
  Before, Rising, Rising-unique, Rising-key, Before-below,
}
use nautilus_ctrader_adapter.BalanceHistory.{BalanceChange, collect, version_le, by_version}
use nautilus_ctrader_adapter.BalanceHistory.Collected.{
  version_of, change_eq_iff, IsKeyed, IsKeyed-insert, Mem-values, collect-finds,
}

Before-place :
    (k : ℕ) (c : BalanceChange) (xs : List BalanceChange)
    → k < c.version
    → Before version_of k xs
    → Before version_of k (place version_le c xs)
Before-place k c [] h b = (h, tt)
Before-place k c (x ∷ xs) h (l, b) = ground (arith, h, l, b, Before-place k c xs h b)

-- Placing a version that is not there yet keeps the list rising.
place-Rising :
    (c : BalanceChange) (xs : List BalanceChange)
    → ((x : BalanceChange) → Mem x xs → x.version ≢ c.version)
    → Rising version_of xs
    → Rising version_of (place version_le c xs)
place-Rising c [] other r = (tt, tt)
place-Rising c (x ∷ xs) other (before, r) = elim (Bool-cases (version_le c x)) [
  | inl le ↦
      let less : c.version < x.version = ground (arith, le, other x (inl refl)) in
      ground
        (arith, le, less, before, r, Before-below version_of c.version x.version xs less before)
  | inr gt ↦
      let rest = place-Rising c xs (λ y m. other y (inr m)) r in
      let greater : x.version < c.version = ground (arith, gt) in
      ground (arith, gt, rest, Before-place x.version c xs greater before)
]

sorted-Rising :
    (d : Dict ℕ BalanceChange) → IsKeyed d → Rising version_of (sorted version_le (values d))
sorted-Rising [] k = tt
sorted-Rising ((v, c) ∷ d) (e, fresh, k) =
    place-Rising c (sorted version_le (values d))
      (λ x m. λ same.
        let held : lookup x.version d ≡ some x =
          (Mem-values d x k).0 ((Mem-sorted version_le x (values d)).0 m) in
        cc (ap (λ u. lookup u d) (same ∙ e), held, fresh))
      (sorted-Rising d k)

-- The changes by version are the changes given, each once, at rising versions.
pub by_version-Rising :
    (changes ordered : List BalanceChange)
    → by_version changes ≡ some ordered
    → Rising version_of ordered × ((c : BalanceChange) → Mem c ordered ↔ Mem c changes)
unfolding by_version
by_version-Rising changes ordered h = elim (Option-cases (collect changes [])) [
  | inl e ↦ ground (arith, e, h)
  | inr (found, e) ↦
      let (keyed, finds) = collect-finds changes [] found tt e in
      let same : sorted version_le (values found) ≡ ordered = ground (arith, e, h) in
      subst (λ l. Rising version_of l × ((c : BalanceChange) → Mem c l ↔ Mem c changes)) same
        (
          sorted-Rising found keyed,
          λ c.
              let placed = Mem-sorted version_le c (values found) in
              let kept = Mem-values found c keyed in
              (
                (λ m. elim ((finds c).0 (kept.0 (placed.0 m))) [
                  | inl l ↦ ground (arith, l)
                  | inr m' ↦ m'
                ]),
                λ m. placed.1 (kept.1 ((finds c).1 (inr m))),
              ),
        )
]

lookup-version :
    (d : Dict ℕ BalanceChange) (v : ℕ) (c : BalanceChange)
    → IsKeyed d
    → lookup v d ≡ some c
    → c.version ≡ v
lookup-version [] v c k h = ground (arith, h)
lookup-version ((w, x) ∷ d) v c (e, fresh, k) h = elim (Bool-cases (nat_eq v w)) [
  | inl hit ↦
      let same : x ≡ c = ground (arith, hit, h) in
      sym (ap version_of same) ∙ e ∙ sym ((nat_eq_iff v w).0 hit)
  | inr miss ↦ lookup-version d v c k (ground (arith, miss, h))
]

-- A change that is given now or was before.
abbrev Given : List BalanceChange → Dict ℕ BalanceChange → BalanceChange → Type 0
Given changes d c = Mem c changes ⊎ (lookup c.version d ≡ some c)

-- Changes of one version are one change.
abbrev pub Agree : List BalanceChange → Type 0
Agree changes =
    (a b : BalanceChange) → Mem a changes → Mem b changes → a.version ≡ b.version → a ≡ b

collect-some :
    (changes : List BalanceChange) (d : Dict ℕ BalanceChange)
    → IsKeyed d
    → ((a b : BalanceChange) → Mem a changes → Given changes d b → a.version ≡ b.version → a ≡ b)
    → (found : Dict ℕ BalanceChange) × (collect changes d ≡ some found)
unfolding collect
collect-some [] d k agree = (d, refl)
collect-some (x ∷ changes) d k agree = elim (Option-cases (lookup x.version d)) [
  | inl e ↦
      let next = insert x.version x d in
      let (found, f) = collect-some changes next (IsKeyed-insert x d e k) (λ a b m g q. elim g [
        | inl m' ↦ agree a b (inr m) (inl (inr m')) q
        | inr l ↦ elim (Bool-cases (nat_eq b.version x.version)) [
          | inl hit ↦
              let same : x ≡ b = ground (arith, hit, l, lookup-insert x.version b.version x d) in
              agree a x (inr m) (inl (inl refl)) (q ∙ ap version_of (sym same)) ∙ same
          | inr miss ↦
              agree a b (inr m)
                (inr (ground (arith, miss, l, lookup-insert x.version b.version x d))) q
        ]
      ]) in
      (found, ground (arith, e, f))
  | inr (held, e) ↦
      let at : held.version ≡ x.version = lookup-version d x.version held k e in
      let there : lookup held.version d ≡ some held = ap (λ v. lookup v d) at ∙ e in
      let same : x ≡ held = agree x held (inl refl) (inr there) (sym at) in
      let (found, f) =
        collect-some changes d k
          (λ a b m g q. agree a b (inr m) (elim g [ inl m' ↦ inl (inr m') | inr l ↦ inr l ]) q) in
      (found, ground (arith, e, f, (change_eq_iff held x).1 (sym same)))
]

pub by_version-some :
    (changes : List BalanceChange)
    → Agree changes
    → (ordered : List BalanceChange) × (by_version changes ≡ some ordered)
unfolding by_version
by_version-some changes agree =
    let (found, f) =
      collect-some changes [] tt
        (λ a b m g q. elim g [ inl m' ↦ agree a b m m' q | inr l ↦ ground (arith, l) ]) in
    (sorted version_le (values found), ground (arith, f))

-- Listings of the same changes, in whatever order and however often each is given, are ordered to
-- the same list: the one that rises by version.
pub by_version_unique :
    (changes history : List BalanceChange)
    → Rising version_of history
    → ((c : BalanceChange) → Mem c changes ↔ Mem c history)
    → by_version changes ≡ some history
by_version_unique changes history r same =
    let agree : Agree changes =
      λ a b m n e. Rising-key version_of a b history r ((same a).0 m) ((same b).0 n) e in
    let (ordered, f) = by_version-some changes agree in
    let (rising, members) = by_version-Rising changes ordered f in
    let equal : ordered ≡ history =
      Rising-unique version_of ordered history rising r
        (λ c. ((λ m. (same c).0 ((members c).0 m)), (λ m. (members c).1 ((same c).1 m)))) in
    f ∙ ap some equal
