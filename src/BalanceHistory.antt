-- ===== src/BalanceHistory.antt =====
-- The account balance at a checkpoint, rebuilt from the broker's history
-- (common/balance_history.py). A time is a Unix time in milliseconds.
pub mod Order
pub mod Collected
pub mod Chain
pub mod Exact
pub mod Checkpoint
use nautilus_ctrader_adapter.Prelude.{
  ℕ, ◌+◌, Bool, true, false, not, ◌&&◌, ◌||◌, Option, none, some, List, [], ◌∷◌, ltb, leb, nat_eq,
  if◌then◌else◌, is_some, get_or, any,
}
use nautilus_ctrader_adapter.Prelude.Eq.{ℕ_eq, option_eq, Eq}
use nautilus_ctrader_adapter.Prelude.Dict.{Dict, lookup, insert, values}
use nautilus_ctrader_adapter.Prelude.Int.{ℤ, pos, ◌+ℤ◌, ◌-ℤ◌, neg_ℤ, int_eq, ℤ_eq}
use nautilus_ctrader_adapter.Prelude.Sort.{sorted}
use nautilus_ctrader_adapter.Messages.{Deal, ClosePositionDetail, DepositWithdraw}

pub record BalanceChange : Type 0 where
  pub ts_ms : ℕ
  pub version : ℕ
  pub balance : ℤ
  pub delta : Option ℤ
  pub money_digits : ℕ
  pub cash_flow : Bool
  pub deposit : Option Bool

-- What a read finds, or the field that a `MissingField` names.
pub data Field : Type 0 where
  balance_version money_digits : Field

pub data Read {ℓ} (A : Type ℓ) : Type ℓ where
  found : A → Read A
  missing : Field → Read A

infixl 5 ◌>>=◌
abbrev pub ◌>>=◌ {ℓ κ} : {A : Type ℓ} {B : Type κ} → Read A → (A → Read B) → Read B
found a >>= f = f a
missing field >>= f = missing field

-- `_required`
abbrev pub required {ℓ} : {A : Type ℓ} → Field → Option A → Read A
required field none = missing field
required field (some a) = found a

abbrev pub deal_delta : ClosePositionDetail → ℤ
deal_delta detail =
    detail.gross_profit +ℤ detail.swap +ℤ detail.commission +ℤ detail.pnl_conversion_fee

pub change_of_deal : Deal → Read (Option BalanceChange)
change_of_deal deal = elim deal.close_position_detail [
  | none ↦ found none
  | some detail ↦ do
    version ← required balance_version detail.balance_version
    digits ← required money_digits detail.money_digits
    found (
        some (record {
          ts_ms = deal.execution_timestamp;
          version = version;
          balance = detail.balance;
          delta = some (deal_delta detail);
          money_digits = digits;
          cash_flow = false;
          deposit = none;
        }))
]

pub change_of_cash_flow : DepositWithdraw → Read BalanceChange
change_of_cash_flow operation = do
  version ← required balance_version operation.balance_version
  digits ← required money_digits operation.money_digits
  found (record {
    ts_ms = operation.change_balance_timestamp;
    version = version;
    balance = operation.balance;
    delta = some operation.delta;
    money_digits = digits;
    cash_flow = true;
    deposit = some operation.is_deposit;
  })

pub data Reason : Type 0 where
  request_failed incomplete no_chain opened_after mixed_scales : Reason

pub data Status : Type 0 where
  available unavailable off : Status

pub record CheckpointValue : Type 0 where
  pub status : Status
  pub checkpoint_ms : Option ℕ
  pub balance : Option ℤ
  pub reason : Option Reason
  pub first_deposit : Option ℤ
  pub digits : Option ℕ

-- `_on_zero`
abbrev pub on_zero : BalanceChange → Bool
on_zero change = elim change.deposit [
  | none ↦ false
  | some deposit ↦ deposit && option_eq change.delta (some change.balance)
]

abbrev pub lowest : BalanceChange → Option BalanceChange → BalanceChange
lowest change none = change
lowest change (some other) = if leb change.version other.version then change else other

-- `min(deposits, key=version, default=None)`: the first of the lowest.
pub first_deposit : List BalanceChange → Option BalanceChange
first_deposit [] = none
first_deposit (change ∷ changes) =
    let later = first_deposit changes in
    if on_zero change then some (lowest change later) else later

abbrev bool_eq : Bool → Bool → Bool
bool_eq true b = b
bool_eq false b = not b

abbrev optional_bool_eq : Option Bool → Option Bool → Bool
optional_bool_eq none none = true
optional_bool_eq (some a) (some b) = bool_eq a b
optional_bool_eq _ _ = false

-- Equality of the dataclass.
pub change_eq : BalanceChange → BalanceChange → Bool
change_eq a b =
    nat_eq a.ts_ms b.ts_ms
    && nat_eq a.version b.version
    && int_eq a.balance b.balance
    && option_eq a.delta b.delta
    && nat_eq a.money_digits b.money_digits
    && bool_eq a.cash_flow b.cash_flow
    && optional_bool_eq a.deposit b.deposit

-- The loop of `_by_version`.
pub collect : List BalanceChange → Dict ℕ BalanceChange → Option (Dict ℕ BalanceChange)
unfolding change_eq
collect [] by_version = some by_version
collect (change ∷ changes) by_version = elim (lookup change.version by_version) [
  | none ↦ collect changes (insert change.version change by_version)
  | some held ↦ elim (change_eq held change) [ true ↦ collect changes by_version | false ↦ none ]
]

abbrev pub version_le : BalanceChange → BalanceChange → Bool
version_le a b = leb a.version b.version

-- `_by_version`; a change stands in the dict at its own version.
pub by_version : List BalanceChange → Option (List BalanceChange)
unfolding collect
by_version changes = elim (collect changes []) [
  | none ↦ none
  | some held ↦ some (sorted version_le (values held))
]

-- `_follows`
unfoldable pub follows : ℤ → BalanceChange → Bool
follows balance change = elim change.delta [
  | none ↦ false
  | some delta ↦
      if change.cash_flow
      then int_eq (change.balance -ℤ balance) delta
        || int_eq (change.balance -ℤ balance) (neg_ℤ delta)
      else int_eq (balance +ℤ delta) change.balance
]

-- The trader as it was read before the history.
pub record Trader : Type 0 where
  pub balance : ℤ
  pub version : ℕ
  pub digits : ℕ

abbrev pub next_version : Option ℕ → ℕ → Bool
next_version none version = true
next_version (some held) version = nat_eq version (held + 1)

-- A version that is the trader's, at another balance.
abbrev pub disagrees : Option ℕ → ℤ → Trader → Bool
disagrees version balance trader =
    option_eq version (some trader.version) && not (int_eq balance trader.balance)

-- The loop of `_chain`, and its end.
pub chain_from : ℤ → Option ℕ → List BalanceChange → Trader → Option Reason
unfolding follows
chain_from balance version [] trader =
    if ltb (get_or 0 version) trader.version then some incomplete else none
chain_from balance version (change ∷ after) trader =
    let rest = chain_from change.balance (some change.version) after trader in
    if not (next_version version change.version)
    then some no_chain
    else if not (follows balance change)
    then some no_chain
    else if disagrees (some change.version) change.balance trader
    then some no_chain
    else rest

-- `_chain`
pub chain : ℤ → Option ℕ → List BalanceChange → Trader → Option Reason
unfolding chain_from
chain balance version after trader =
    if disagrees version balance trader
    then some no_chain
    else chain_from balance version after trader

-- `ordered[before[-1]]` and what comes after it, if some change was made before `t_ms`.
pub split_at : ℕ → List BalanceChange → Option (BalanceChange × List BalanceChange)
split_at t_ms [] = none
split_at t_ms (change ∷ ordered) = elim (split_at t_ms ordered) [
  | some later ↦ some later
  | none ↦ if ltb change.ts_ms t_ms then some (change, ordered) else none
]

-- What `balance_at` returns: a value, or `NEED_EARLIER`.
pub data Answer : Type 0 where
  value : CheckpointValue → Answer
  need_earlier : Answer

abbrev unavailable_value : ℕ → Reason → Option ℤ → ℕ → CheckpointValue
unavailable_value t_ms reason deposit digits = record {
  status = unavailable;
  checkpoint_ms = some t_ms;
  balance = none;
  reason = some reason;
  first_deposit = deposit;
  digits = some digits;
}

-- `result`
abbrev pub result : ℕ → ℤ → Option ℤ → ℕ → Option Reason → Answer
result t_ms balance deposit digits (some reason) =
    value (unavailable_value t_ms reason deposit digits)
result t_ms balance deposit digits none = value (record {
  status = available;
  checkpoint_ms = some t_ms;
  balance = some balance;
  reason = none;
  first_deposit = deposit;
  digits = some digits;
})

-- How far back the history was read, and the account's registration.
pub record Reach : Type 0 where
  pub covered_from_ms : ℕ
  pub registration_ms : Option ℕ
  pub reached_cap : Bool

-- The first of the ordered changes is no deposit on a zero balance.
abbrev pub starts_late : List BalanceChange → Bool
starts_late [] = false
starts_late (change ∷ ordered) = not (on_zero change)

-- The part of `balance_at` for a history without a change before `t_ms`.
pub from_zero : ℕ → List BalanceChange → Option ℤ → Trader → Reach → Answer
unfolding chain
from_zero t_ms ordered deposit trader reach =
    let failed = λ (reason : Reason). result t_ms (pos 0) deposit trader.digits (some reason) in
    elim reach.registration_ms [
      | none ↦
          if reach.reached_cap
          then failed incomplete
          else if nat_eq reach.covered_from_ms 0
          then failed incomplete
          else need_earlier
      | some registered ↦
          if ltb t_ms registered
          then failed opened_after
          else if reach.reached_cap
          then failed incomplete
          else if ltb registered reach.covered_from_ms
          then need_earlier
          else if starts_late ordered
          then failed no_chain
          else result t_ms (pos 0) deposit trader.digits (chain (pos 0) none ordered trader)
    ]

abbrev balance_of : Option BalanceChange → Option ℤ
balance_of none = none
balance_of (some change) = some change.balance

pub balance_ordered : ℕ → List BalanceChange → Option ℤ → Trader → Reach → Answer
unfolding split_at from_zero chain
balance_ordered t_ms ordered deposit trader reach = elim (split_at t_ms ordered) [
  | some (anchor, after) ↦
      result t_ms anchor.balance deposit trader.digits
        (chain anchor.balance (some anchor.version) after trader)
  | none ↦ from_zero t_ms ordered deposit trader reach
]

pub balance_at : ℕ → List BalanceChange → Trader → Reach → Answer
unfolding by_version balance_ordered first_deposit
balance_at t_ms changes trader reach =
    if any (λ change. not (nat_eq change.money_digits trader.digits)) changes
    then value (unavailable_value t_ms mixed_scales none trader.digits)
    else let deposit : Option ℤ = balance_of (first_deposit changes) in
      elim (by_version changes) [
        | none ↦ result t_ms (pos 0) deposit trader.digits (some no_chain)
        | some ordered ↦ balance_ordered t_ms ordered deposit trader reach
      ]
