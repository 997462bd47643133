-- ===== src/Records/Prices.antt =====
-- Prices: a double at a symbol's precision, the levels that a message carries, and the level
-- that a fill triggered (common/venue_records.py and common/venue_book.py).
pub mod Rounding
use nautilus_ctrader_adapter.Prelude.{
  ℕ, ◌+◌, ◌-◌, ◌*◌, ◌/◌, ◌%◌, ◌^◌, Bool, true, false, Option, none, some, ltb, leb, nat_eq,
  if◌then◌else◌,
}
use nautilus_ctrader_adapter.Prelude.Int.{ℤ, pos, negsuc, neg_ℤ, leb_ℤ, pos_part, neg_part, sub_ℕ}
use nautilus_ctrader_adapter.Messages.{
  Double, number, infinite, nan, Order, VenuePosition, TradeSide, buy, sell,
}
use nautilus_ctrader_adapter.LegId.{Level, stop_loss, take_profit}

-- `value / 10 ^ drop`, rounded half to even.
unfoldable pub round_half_even : ℕ → ℕ → ℕ
round_half_even value unit =
    let q : ℕ = value / unit in
    let r : ℕ = value % unit in
    if ltb (2 * r) unit
    then q
    else if ltb unit (2 * r)
    then q + 1
    else if nat_eq (q % 2) 0
    then q
    else q + 1

-- The magnitude at `precision` decimals; the decimal context holds 28 digits.
abbrev decimal_digits : ℕ
decimal_digits = 28

unfoldable pub quantize : ℕ → ℕ → ℕ → Option ℕ
unfolding round_half_even
quantize magnitude decimals precision =
    let held : ℕ =
      if leb decimals precision
      then magnitude * 10 ^ (precision - decimals)
      else round_half_even magnitude (10 ^ (decimals - precision)) in
    if ltb held (10 ^ decimal_digits) then some held else none

-- `none` is the `ValueError` of a value that is not finite or too large.
unfoldable pub price_of : Double → ℕ → Option ℤ
unfolding quantize neg_ℤ
price_of (infinite negative) precision = none
price_of nan precision = none
price_of (number m e) precision = elim (quantize (pos_part m + neg_part m) e precision) [
  | none ↦ none
  | some held ↦ some (if leb_ℤ (pos 0) m then pos held else sub_ℕ 0 held)
]

-- A dict keyed by level. The model only looks levels up, and adds them in the levels' order.
pub record ByLevel {ℓ} (A : Type ℓ) : Type ℓ where
  pub at_stop_loss : Option A
  pub at_take_profit : Option A

abbrev pub at {ℓ} : {A : Type ℓ} → Level → ByLevel A → Option A
at stop_loss d = d.at_stop_loss
at take_profit d = d.at_take_profit

abbrev pub set_at {ℓ} : {A : Type ℓ} → Level → A → ByLevel A → ByLevel A
set_at stop_loss a d = record d { at_stop_loss = some a }
set_at take_profit a d = record d { at_take_profit = some a }

abbrev pub no_levels {ℓ} : {A : Type ℓ} → ByLevel A
no_levels = record { at_stop_loss = none; at_take_profit = none }

-- `bool(d)`
abbrev pub any_level {ℓ} : {A : Type ℓ} → ByLevel A → Bool
any_level d = elim d.at_stop_loss [
  | some _ ↦ true
  | none ↦ elim d.at_take_profit [ some _ ↦ true | none ↦ false ]
]

abbrev pub Levels : Type 0
Levels = ByLevel ℤ

-- An optional price of a message; the outer `none` is a raise.
abbrev price_field : Option Double → ℕ → Option (Option ℤ)
price_field none precision = some none
price_field (some value) precision = elim (price_of value precision) [
  | none ↦ none
  | some price ↦ some (some price)
]

abbrev both_levels : Option (Option ℤ) → Option (Option ℤ) → Option Levels
both_levels none target = none
both_levels (some stop) none = none
both_levels (some stop) (some target) =
    some (record { at_stop_loss = stop; at_take_profit = target })

unfoldable pub levels_of : Order → ℕ → Option Levels
levels_of order precision =
    both_levels (price_field order.stop_price precision) (price_field order.limit_price precision)

pub position_levels : VenuePosition → ℕ → Option Levels
position_levels position precision =
    both_levels (price_field position.stop_loss precision)
      (price_field position.take_profit precision)

abbrev inverted : Bool → ℤ → ℤ → Option (ℤ × ℤ)
inverted b stop target = if b then some (stop, target) else none

abbrev pub triggered_level : TradeSide → Option ℤ → Option ℤ → ℤ → Level × Option (ℤ × ℤ)
triggered_level side stop none fill_price = (stop_loss, none)
triggered_level side none (some target) fill_price = (take_profit, none)
triggered_level buy (some stop) (some target) fill_price = (
  if leb_ℤ target fill_price then take_profit else stop_loss,
  inverted (leb_ℤ target stop) stop target,
)
triggered_level sell (some stop) (some target) fill_price = (
  if leb_ℤ fill_price target then take_profit else stop_loss,
  inverted (leb_ℤ stop target) stop target,
)

-- The level that a protective order's fill triggered, and both prices, for the notice, if its
-- levels are inverted.
pub which_level : TradeSide → Levels → ℤ → Level × Option (ℤ × ℤ)
which_level side levels fill_price =
    triggered_level side levels.at_stop_loss levels.at_take_profit fill_price
