-- ===== src/BalanceHistory/Chain.antt =====
-- When a chain of changes is trusted (common/balance_history.py, `_chain`).
use nautilus_ctrader_adapter.Prelude.{
  ℕ, ◌≤◌, ◌≡◌, ◌↔◌, true, false, Option, none, some, List, [], ◌∷◌, arith, get_or,
}
use nautilus_ctrader_adapter.Prelude.Eq.{ℕ_eq, option_eq_iff}
use nautilus_ctrader_adapter.Prelude.Int.{ℤ, int_eq_iff}
use nautilus_ctrader_adapter.BalanceHistory.{
  BalanceChange, follows, next_version, Trader, disagrees, chain_from, chain,
}

-- The changes run on from a balance and its version: no version is left out, and each balance
-- follows from the one before.
abbrev pub RunsOn : ℤ → Option ℕ → List BalanceChange → Type 0
RunsOn balance version [] = Unit
RunsOn balance version (change ∷ after) =
    (next_version version change.version ≡ true)
    × (follows balance change ≡ true)
    × RunsOn change.balance (some change.version) after

-- At the trader's own version, the balance is the trader's.
abbrev pub Agrees : Trader → Option ℕ → ℤ → Type 0
Agrees trader version balance = version ≡ some trader.version → balance ≡ trader.balance

abbrev pub AllAgree : Trader → List BalanceChange → Type 0
AllAgree trader [] = Unit
AllAgree trader (change ∷ after) =
    Agrees trader (some change.version) change.balance × AllAgree trader after

-- The version that the changes end at.
abbrev pub last_version : Option ℕ → List BalanceChange → Option ℕ
last_version version [] = version
last_version version (change ∷ after) = last_version (some change.version) after

disagrees-Agrees :
    (trader : Trader) (version : Option ℕ) (balance : ℤ)
    → (disagrees version balance trader ≡ false) ↔ Agrees trader version balance
disagrees-Agrees trader version balance =
    ground (arith, option_eq_iff version (some trader.version), int_eq_iff balance trader.balance)

chain_from_iff :
    (balance : ℤ) (version : Option ℕ) (after : List BalanceChange) (trader : Trader)
    → (chain_from balance version after trader ≡ none) ↔ (
        RunsOn balance version after
        × AllAgree trader after
        × (trader.version ≤ get_or 0 (last_version version after)))
unfolding chain_from
chain_from_iff balance version [] trader = ground arith
chain_from_iff balance version (change ∷ after) trader = ground (
  arith,
  chain_from_iff change.balance (some change.version) after trader,
  disagrees-Agrees trader (some change.version) change.balance,
)

-- A chain is trusted exactly when its changes run on without a gap, each balance following from
-- the one before, agree with the trader at the trader's version, and reach that version.
pub chain_iff :
    (balance : ℤ) (version : Option ℕ) (after : List BalanceChange) (trader : Trader)
    → (chain balance version after trader ≡ none) ↔ (
        Agrees trader version balance
        × RunsOn balance version after
        × AllAgree trader after
        × (trader.version ≤ get_or 0 (last_version version after)))
unfolding chain
chain_iff balance version after trader =
    ground
      (arith, chain_from_iff balance version after trader, disagrees-Agrees trader version balance)
