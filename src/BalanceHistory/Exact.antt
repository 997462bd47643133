-- ===== src/BalanceHistory/Exact.antt =====
-- The balance at a checkpoint against the account's own history (common/balance_history.py,
-- `balance_at`).
use nautilus_ctrader_adapter.Prelude.{
  ℕ, ◌<◌, ◌≤◌, ◌≡◌, subst, ◌↔◌, inl, inr, Bool, false, Option, none, some, List, [], ◌∷◌, ◌++◌,
  arith, get_or, any, not, Option-cases, Bool-cases, nat_eq,
}
use nautilus_ctrader_adapter.Prelude.Int.{ℤ, pos}
use nautilus_ctrader_adapter.Prelude.Sort.{Mem}
use nautilus_ctrader_adapter.Prelude.Rising.{Rising}
use nautilus_ctrader_adapter.BalanceHistory.{
  BalanceChange, Trader, Reach, CheckpointValue, value, available, chain, split_at, starts_late,
  balance_of, first_deposit, balance_ordered, balance_at, by_version, from_zero, result,
}
use nautilus_ctrader_adapter.BalanceHistory.Order.{by_version_unique, by_version-Rising}
use nautilus_ctrader_adapter.BalanceHistory.Collected.{version_of}
use nautilus_ctrader_adapter.BalanceHistory.Chain.{
  RunsOn, Agrees, AllAgree, last_version, chain_iff,
}

-- None of the changes was made before `t_ms`.
abbrev pub NoneBefore : ℕ → List BalanceChange → Type 0
NoneBefore t_ms [] = Unit
NoneBefore t_ms (change ∷ changes) = (t_ms ≤ change.ts_ms) × NoneBefore t_ms changes

split_at-none : (t_ms : ℕ) (l : List BalanceChange) → NoneBefore t_ms l ↔ (split_at t_ms l ≡ none)
unfolding split_at
split_at-none t_ms [] = ground arith
split_at-none t_ms (x ∷ l) = ground (arith, split_at-none t_ms l)

split_at-some :
    (t_ms : ℕ) (earlier : List BalanceChange) (anchor : BalanceChange) (after : List BalanceChange)
    → anchor.ts_ms < t_ms
    → NoneBefore t_ms after
    → split_at t_ms (earlier ++ anchor ∷ after) ≡ some (anchor, after)
unfolding split_at
split_at-some t_ms [] anchor after h n = ground (arith, h, (split_at-none t_ms after).0 n)
split_at-some t_ms (x ∷ earlier) anchor after h n =
    ground (arith, split_at-some t_ms earlier anchor after h n)

-- The last change before `t_ms` stands in the list, and the changes after it follow it there.
split_at-found :
    (t_ms : ℕ) (l : List BalanceChange) (anchor : BalanceChange) (after : List BalanceChange)
    → split_at t_ms l ≡ some (anchor, after)
    → (earlier : List BalanceChange) × (l ≡ earlier ++ anchor ∷ after)
      × (anchor.ts_ms < t_ms)
      × NoneBefore t_ms after
unfolding split_at
split_at-found t_ms [] anchor after h = ground (arith, h)
split_at-found t_ms (x ∷ l) anchor after h = elim (Option-cases (split_at t_ms l)) [
  | inl e ↦
      let later = (split_at-none t_ms l).1 e in
      ([], ground (arith, h, e), ground (arith, h, e), ground (arith, h, e, later))
  | inr ((a, rest), e) ↦
      let (earlier, parts, before, later) = split_at-found t_ms l a rest e in
      (
        x ∷ earlier,
        ground (arith, h, e, parts),
        ground (arith, h, e, before),
        ground (arith, h, e, later),
      )
]

-- The trader stands where the changes after a balance end.
abbrev pub EndsAt : Trader → ℤ → ℕ → List BalanceChange → Type 0
EndsAt trader balance version [] = (trader.balance ≡ balance) × (trader.version ≡ version)
EndsAt trader balance version (change ∷ after) = EndsAt trader change.balance change.version after

EndsAt-above :
    (trader : Trader) (balance : ℤ) (version k : ℕ) (after : List BalanceChange)
    → k < version
    → RunsOn balance (some version) after
    → EndsAt trader balance version after
    → k < trader.version
EndsAt-above trader balance version k [] h r e = ground (arith, h, e)
EndsAt-above trader balance version k (x ∷ after) h (n, f, r) e =
    EndsAt-above trader x.balance x.version k after (ground (arith, h, n)) r e

EndsAt-Agrees :
    (trader : Trader) (balance : ℤ) (version : ℕ) (after : List BalanceChange)
    → RunsOn balance (some version) after
    → EndsAt trader balance version after
    → Agrees trader (some version) balance
      × AllAgree trader after
      × (trader.version ≤ get_or 0 (last_version (some version) after))
EndsAt-Agrees trader balance version [] r e = ground (arith, e)
EndsAt-Agrees trader balance version (x ∷ after) (n, f, r) e =
    let (now, later, reach) = EndsAt-Agrees trader x.balance x.version after r e in
    let above : version < trader.version =
      EndsAt-above trader x.balance x.version version after (ground (arith, n)) r e in
    ground (arith, now, later, reach, above)

-- Every amount has the trader's scale.
abbrev pub has_other_scale : Trader → List BalanceChange → Bool
has_other_scale trader changes =
    any (λ change. not (nat_eq change.money_digits trader.digits)) changes

abbrev pub trusted_value : ℕ → ℤ → List BalanceChange → Trader → CheckpointValue
trusted_value t_ms balance changes trader = record {
  status = available;
  checkpoint_ms = some t_ms;
  balance = some balance;
  reason = none;
  first_deposit = balance_of (first_deposit changes);
  digits = some trader.digits;
}

-- Where the changes given are just those of a history whose versions rise, in whatever order and
-- however often each is given, the last change before the checkpoint gives the balance, provided
-- that the history runs on from it without a gap and ends where the trader stands, all at the
-- trader's scale.
pub balance_at-exact :
    (t_ms : ℕ) (changes earlier after : List BalanceChange) (anchor : BalanceChange)
    (trader : Trader) (reach : Reach)
    → Rising version_of (earlier ++ anchor ∷ after)
    → ((c : BalanceChange) → Mem c changes ↔ Mem c (earlier ++ anchor ∷ after))
    → anchor.ts_ms < t_ms
    → NoneBefore t_ms after
    → RunsOn anchor.balance (some anchor.version) after
    → EndsAt trader anchor.balance anchor.version after
    → has_other_scale trader changes ≡ false
    → balance_at t_ms changes trader reach
      ≡ value (trusted_value t_ms anchor.balance changes trader)
unfolding balance_at balance_ordered
balance_at-exact t_ms changes earlier after anchor trader reach r same b n run e s =
    let history = earlier ++ anchor ∷ after in
    let ordered : by_version changes ≡ some history = by_version_unique changes history r same in
    let split = split_at-some t_ms earlier anchor after b n in
    let (now, later, reaches) = EndsAt-Agrees trader anchor.balance anchor.version after run e in
    let trusted : chain anchor.balance (some anchor.version) after trader ≡ none =
      (chain_iff anchor.balance (some anchor.version) after trader).1 (now, run, later, reaches) in
    ground (arith, s, ordered, split, trusted)

-- What a balance given as available rests on: the changes in rising order of version, and a chain
-- from the last one before the checkpoint, or from an account that held zero.
pub data Rests (t_ms : ℕ) (changes : List BalanceChange) (trader : Trader) (reach : Reach)
    : ℤ → Type 0 where
  on_anchor :
      (earlier after : List BalanceChange) (anchor : BalanceChange)
      → Rising version_of (earlier ++ anchor ∷ after)
      → ((c : BalanceChange) → Mem c (earlier ++ anchor ∷ after) ↔ Mem c changes)
      → anchor.ts_ms < t_ms
      → NoneBefore t_ms after
      → RunsOn anchor.balance (some anchor.version) after
      → trader.version ≤ get_or 0 (last_version (some anchor.version) after)
      → Rests t_ms changes trader reach anchor.balance
  on_zero_start :
      (ordered : List BalanceChange) (registered : ℕ)
      → Rising version_of ordered
      → ((c : BalanceChange) → Mem c ordered ↔ Mem c changes)
      → NoneBefore t_ms ordered
      → reach.registration_ms ≡ some registered
      → registered ≤ t_ms
      → reach.covered_from_ms ≤ registered
      → starts_late ordered ≡ false
      → RunsOn (pos 0) none ordered
      → trader.version ≤ get_or 0 (last_version none ordered)
      → Rests t_ms changes trader reach (pos 0)

zero_facts :
    (t_ms : ℕ) (ordered : List BalanceChange) (deposit : Option ℤ) (trader : Trader) (reach : Reach)
    (v : CheckpointValue) (balance : ℤ) (registered : ℕ)
    → reach.registration_ms ≡ some registered
    → from_zero t_ms ordered deposit trader reach ≡ value v
    → v.balance ≡ some balance
    → (registered ≤ t_ms)
      × (reach.covered_from_ms ≤ registered)
      × (starts_late ordered ≡ false)
      × (chain (pos 0) none ordered trader ≡ none)
      × (pos 0 ≡ balance)
unfolding from_zero
zero_facts t_ms ordered deposit trader reach v balance registered e h b = ground (arith, e, h, b)

zero-Rests :
    (t_ms : ℕ) (changes ordered : List BalanceChange) (deposit : Option ℤ) (trader : Trader)
    (reach : Reach) (v : CheckpointValue) (balance : ℤ)
    → Rising version_of ordered
    → ((c : BalanceChange) → Mem c ordered ↔ Mem c changes)
    → NoneBefore t_ms ordered
    → from_zero t_ms ordered deposit trader reach ≡ value v
    → v.balance ≡ some balance
    → Rests t_ms changes trader reach balance
unfolding from_zero
zero-Rests t_ms changes ordered deposit trader reach v balance r same n h b =
    elim (Option-cases reach.registration_ms) [
      | inl e ↦ ground (arith, e, h, b)
      | inr (registered, e) ↦
          let (old, covered, starts, trusted, zero_is) =
            zero_facts t_ms ordered deposit trader reach v balance registered e h b in
          let (now, run, later, reaches) = (chain_iff (pos 0) none ordered trader).0 trusted in
          subst (Rests t_ms changes trader reach) zero_is
            (on_zero_start ordered registered r same n e old covered starts run reaches)
    ]

anchor-Rests :
    (t_ms : ℕ) (changes ordered after : List BalanceChange) (anchor : BalanceChange)
    (deposit : Option ℤ) (trader : Trader) (reach : Reach) (v : CheckpointValue) (balance : ℤ)
    → Rising version_of ordered
    → ((c : BalanceChange) → Mem c ordered ↔ Mem c changes)
    → split_at t_ms ordered ≡ some (anchor, after)
    → result t_ms anchor.balance deposit trader.digits
        (chain anchor.balance (some anchor.version) after trader)
      ≡ value v
    → v.balance ≡ some balance
    → Rests t_ms changes trader reach balance
anchor-Rests t_ms changes ordered after anchor deposit trader reach v balance r same split h b =
    let trusted : chain anchor.balance (some anchor.version) after trader ≡ none =
      ground (arith, h, b) in
    let it_is : anchor.balance ≡ balance = ground (arith, trusted, h, b) in
    let (now, run, later, reaches) =
      (chain_iff anchor.balance (some anchor.version) after trader).0 trusted in
    let (earlier, parts, before, none_before) = split_at-found t_ms ordered anchor after split in
    subst (Rests t_ms changes trader reach) it_is (
      on_anchor earlier after anchor (subst (Rising version_of) parts r)
        (subst (λ l. (c : BalanceChange) → Mem c l ↔ Mem c changes) parts same) before none_before
        run reaches)

-- A balance is given only where it can be trusted: on the last change before the checkpoint in the
-- order of versions, or on zero for an account registered by then whose whole history was read and
-- begins with a deposit on zero; the changes after it run on without a gap, each balance following
-- from the one before, up to the trader's version.
pub balance_at-Rests :
    (t_ms : ℕ) (changes : List BalanceChange) (trader : Trader) (reach : Reach)
    (v : CheckpointValue) (balance : ℤ)
    → balance_at t_ms changes trader reach ≡ value v
    → v.balance ≡ some balance
    → Rests t_ms changes trader reach balance
unfolding balance_at balance_ordered
balance_at-Rests t_ms changes trader reach v balance h b =
    elim (Bool-cases (has_other_scale trader changes)) [
      | inl mixed ↦ ground (arith, mixed, h, b)
      | inr one ↦ elim (Option-cases (by_version changes)) [
        | inl e ↦ ground (arith, one, e, h, b)
        | inr (ordered, e) ↦
            let (r, same) = by_version-Rising changes ordered e in
            let deposit = balance_of (first_deposit changes) in
            let found : balance_ordered t_ms ordered deposit trader reach ≡ value v =
              ground (arith, one, e, h) in
            elim (Option-cases (split_at t_ms ordered)) [
              | inl s ↦
                  zero-Rests t_ms changes ordered deposit trader reach v balance r same
                    ((split_at-none t_ms ordered).1 s) (ground (arith, s, found)) b
              | inr ((anchor, after), s) ↦
                  anchor-Rests t_ms changes ordered after anchor deposit trader reach v balance r
                    same s (ground (arith, s, found)) b
            ]
      ]
    ]
