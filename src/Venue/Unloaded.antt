-- ===== src/Venue/Unloaded.antt =====
-- Symbols that the node has not loaded: activity, never an order (common/venue_book.py:
-- `_unloaded`, `_track_unloaded`, `_pending`).
pub mod Activities
use nautilus_ctrader_adapter.Prelude.{
  ℕ, ◌-◌, Bool, true, false, not, ◌&&◌, ◌||◌, Option, none, some, List, [], ◌∷◌, ltb, if◌then◌else◌,
  is_some,
}
use nautilus_ctrader_adapter.Prelude.Eq.{ℕ_eq}
use nautilus_ctrader_adapter.Prelude.Dict.{lookup, insert, erase}
use nautilus_ctrader_adapter.Messages.{
  TradeSide, OrderType, ExecutionType, order_accepted, order_filled, order_replaced,
  order_cancelled, order_expired, order_rejected, order_partial_fill, Order, VenuePosition, Deal,
  ExecutionEvent, stated, deal_of,
}
use nautilus_ctrader_adapter.Records.{
  Record, activity, Activity, ActivityKind, unloaded_symbol, stop_out, Action, opened, changed,
  closed, partially_closed, Subject, order_subject, position_subject, Exposure, volume_to_units,
}
use nautilus_ctrader_adapter.VenueState.{Position, Book, Turn}
use nautilus_ctrader_adapter.Venue.Foreign.{opposite}
use nautilus_ctrader_adapter.Venue.Sync.{is_fill, is_open_status, remaining_of}

abbrev pub is_protective : OrderType → Bool
is_protective OrderType.stop_loss_take_profit = true
is_protective _ = false

-- `_pending`
abbrev pub pending : Order → Exposure
pending order = record {
  symbol_id = order.trade_data.symbol_id;
  subject = order_subject;
  side = order.trade_data.trade_side;
  units = volume_to_units (remaining_of order);
}

-- A partial fill of a pending order that is held.
unfoldable pub reduce_pending : ℕ → ℕ → Book → Book
reduce_pending order_id filled book = elim (lookup order_id book.unloaded_orders) [
  | none ↦ book
  | some held ↦
      if ltb filled held.units
      then record book {
        unloaded_orders =
            insert order_id (record held { units = held.units - filled }) book.unloaded_orders;
      }
      else record book { unloaded_orders = erase order_id book.unloaded_orders }
]

abbrev keep_unloaded : Order → Book → Book
keep_unloaded order book = record book {
  unloaded_orders = insert order.order_id (pending order) book.unloaded_orders;
}

abbrev forget_unloaded : Order → Book → Book
forget_unloaded order book = record book {
  unloaded_orders = erase order.order_id book.unloaded_orders;
}

-- The pending orders' part of `_track_unloaded`.
unfoldable pub track_order : ExecutionEvent → Order → Book → Book
unfolding reduce_pending
track_order event order book =
    if is_protective order.order_type then book else elim event.execution_type [
      | order_accepted ↦ keep_unloaded order book
      | order_replaced ↦ keep_unloaded order book
      | order_partial_fill ↦ reduce_pending order.order_id (deal_of event).filled_volume book
      | order_filled ↦ forget_unloaded order book
      | order_cancelled ↦ forget_unloaded order book
      | order_expired ↦ forget_unloaded order book
      | order_rejected ↦ forget_unloaded order book
      | _ ↦ book
    ]

-- The side of the event's position; a closing order trades against it.
abbrev position_side : ExecutionEvent → Order → TradeSide
position_side event order = elim event.position [
  | some position ↦ position.trade_data.trade_side
  | none ↦
      if order.closing_order
      then opposite order.trade_data.trade_side
      else order.trade_data.trade_side
]

abbrev fill_action : ExecutionEvent → Order → Action
fill_action event order =
    if order.closing_order
    then elim event.position [
      | none ↦ closed
      | some position ↦ if is_open_status position.position_status then partially_closed else closed
    ]
    else opened

abbrev state_volume : ExecutionEvent → Order → ℕ
state_volume event order = elim event.position [
  | some position ↦ position.trade_data.volume
  | none ↦ order.trade_data.volume
]

abbrev activity_record : Order → Subject → TradeSide → ℕ → Action → ℕ → Record
activity_record order subject side units action ts_ms = activity (record {
  kind = if order.is_stop_out then stop_out else unloaded_symbol;
  symbol_id = order.trade_data.symbol_id;
  subject = subject;
  side = side;
  units = units;
  action = action;
  ts_ms = ts_ms;
})

-- A protective order's change is a change of its position.
abbrev is_state_kind : ExecutionType → Bool
is_state_kind order_accepted = true
is_state_kind order_replaced = true
is_state_kind order_cancelled = true
is_state_kind _ = false

abbrev order_action : ExecutionType → Option Action
order_action order_accepted = some opened
order_action order_replaced = some changed
order_action order_cancelled = some closed
order_action order_expired = some closed
order_action _ = none

-- The records of `_unloaded`.
pub unloaded_records : ExecutionEvent → Order → List Record
unloaded_records event order =
    let ts : ℕ = stated order.last_update in
    let deal : Deal = deal_of event in
    if is_fill event.execution_type
    then activity_record order position_subject (position_side event order)
        (volume_to_units deal.filled_volume) (fill_action event order) deal.execution_timestamp
      ∷ []
    else if is_protective order.order_type
    then if is_state_kind event.execution_type
      then activity_record order position_subject (position_side event order)
          (volume_to_units (state_volume event order)) changed ts
        ∷ []
      else []
    else elim (order_action event.execution_type) [
      | none ↦ []
      | some action ↦
          activity_record order order_subject order.trade_data.trade_side
            (volume_to_units order.trade_data.volume) action ts
          ∷ []
    ]
