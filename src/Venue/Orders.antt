-- ===== src/Venue/Orders.antt =====
-- A position's order list, and the entry among it (common/venue_book.py: `opening_orders`,
-- `entry_of`).
pub mod Earliest
use nautilus_ctrader_adapter.Prelude.{
  ℕ, Bool, true, false, not, ◌&&◌, ◌||◌, Option, none, some, List, [], ◌∷◌, ltb, leb, nat_eq,
  if◌then◌else◌, is_some, keep,
}
use nautilus_ctrader_adapter.Prelude.Sort.{sorted}
use nautilus_ctrader_adapter.OrderRecord.{parse_label}
use nautilus_ctrader_adapter.Messages.{OrderType, Order}
use nautilus_ctrader_adapter.Venue.Sync.{created_of}
use nautilus_ctrader_adapter.Venue.Unloaded.{is_protective}

-- `not o.closingOrder and o.orderType != STOP_LOSS_TAKE_PROFIT`
abbrev pub is_opening : Order → Bool
is_opening order = not order.closing_order && not (is_protective order.order_type)

-- The order of the keys `(created_of(order), order.orderId)`.
pub earlier : Order → Order → Bool
earlier a b =
    ltb (created_of a) (created_of b)
    || nat_eq (created_of a) (created_of b) && leb a.order_id b.order_id

unfoldable pub opening_orders : List Order → List Order
unfolding earlier
opening_orders orders = sorted earlier (keep is_opening orders)

-- `order_record.parse_label(o.tradeData.label) is not None`
abbrev pub is_named : Order → Bool
is_named order = is_some (parse_label order.trade_data.label)

-- `next(named, None)`
abbrev pub first_named : List Order → Option Order
first_named [] = none
first_named (o ∷ orders) = if is_named o then some o else first_named orders

abbrev pub first : List Order → Option Order
first [] = none
first (o ∷ orders) = some o

unfoldable pub entry_of : List Order → Option Order
unfolding opening_orders
entry_of orders = elim (first_named (opening_orders orders)) [
  | some order ↦ some order
  | none ↦ first (opening_orders orders)
]
