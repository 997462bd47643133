-- ===== src/Venue/External.antt =====
-- External orders: an order that Nautilus learns of only from reports (common/venue_book.py:
-- `_external_report`, `_external_event`, `_order_updated`, `_keep_open_order`, `_activity`).
pub mod Known
pub mod Marks
use nautilus_ctrader_adapter.Prelude.{
  ℕ, Bool, true, false, not, ◌&&◌, Option, none, some, List, [], ◌∷◌, leb, if◌then◌else◌, is_some,
  get_or,
}
use nautilus_ctrader_adapter.Prelude.Eq.{Text, ℕ_eq}
use nautilus_ctrader_adapter.Prelude.Dict.{lookup, insert, erase, member, add}
use nautilus_ctrader_adapter.Prelude.Decimal.{decimal}
use nautilus_ctrader_adapter.Prelude.Int.{ℤ}
use nautilus_ctrader_adapter.LegId.{stop_loss, take_profit}
use nautilus_ctrader_adapter.Messages.{
  OrderType, ExecutionType, order_accepted, order_filled, order_replaced, order_cancelled,
  order_expired, order_rejected, order_partial_fill, Order, ExecutionEvent, stated, deal_of,
}
use nautilus_ctrader_adapter.Records.{
  Record, order_event, external_order, OrderEvent, OrderEventKind, plain_event, filled, updated,
  canceled, expired, rejected, Fill, fill_of, ExternalOrder, ExternalType, Levels, levels_of, at,
  volume_to_units,
}
use nautilus_ctrader_adapter.VenueState.{Book, Callbacks, Turn, Outcome, done, raised}
use nautilus_ctrader_adapter.Venue.Sync.{is_fill}

-- `_ENDED_EVENT_KIND.get(kind)`
abbrev pub ended_kind : ExecutionType → Option OrderEventKind
ended_kind order_cancelled = some canceled
ended_kind order_expired = some expired
ended_kind order_rejected = some rejected
ended_kind _ = none

-- `order_type in PENDING_ORDER_TYPES`
abbrev pub is_pending_type : OrderType → Bool
is_pending_type OrderType.limit = true
is_pending_type OrderType.stop = true
is_pending_type OrderType.stop_limit = true
is_pending_type _ = false

-- `EXTERNAL_TYPE.get(order_type, ExternalType.MARKET)`
abbrev pub external_type : OrderType → ExternalType
external_type OrderType.limit = ExternalType.limit
external_type OrderType.stop = ExternalType.stop_market
external_type OrderType.stop_limit = ExternalType.stop_limit
external_type _ = ExternalType.market

abbrev is_priced : ExternalType → Bool
is_priced ExternalType.limit = true
is_priced ExternalType.stop_limit = true
is_priced _ = false

abbrev is_triggered : ExternalType → Bool
is_triggered ExternalType.stop_market = true
is_triggered ExternalType.stop_limit = true
is_triggered _ = false

abbrev pub str_id : Order → Text
str_id order = decimal order.order_id

-- `_external_report` with its prices read
pub report_with : Order → Bool → List Fill → ExternalType → Levels → ExternalOrder
report_with order reduce_only fills kind prices = record {
  venue_order_id = str_id order;
  symbol_id = order.trade_data.symbol_id;
  side = order.trade_data.trade_side;
  order_type = kind;
  units = volume_to_units order.trade_data.volume;
  reduce_only = reduce_only;
  venue_position_id = elim order.position_id [ none ↦ none | some id ↦ some (decimal id) ];
  ts_ms = stated order.last_update;
  price = if is_priced kind then at take_profit prices else none;
  trigger_price = if is_triggered kind then at stop_loss prices else none;
  fills = fills;
  time_in_force = order.time_in_force;
  expire_ts_ms = order.expiration_timestamp;
  ts_accepted_ms = order.trade_data.open_timestamp;
}

-- `_external_report` at the order's own type and prices; `none` where a price raises
pub external_report : Order → ℕ → Bool → List Fill → Option ExternalOrder
unfolding report_with
external_report order precision reduce_only fills = elim (levels_of order precision) [
  | none ↦ none
  | some prices ↦ some (report_with order reduce_only fills (external_type order.order_type) prices)
]

-- `_order_updated`
pub order_updated : Order → ℕ → ℕ → Option Record
unfolding external_report
order_updated order precision ts_ms = elim (external_report order precision false []) [
  | none ↦ none
  | some report ↦ some (
      order_event (record (plain_event updated (some (str_id order)) none ts_ms) {
        quantity = some report.units;
        price = report.price;
        trigger_price = report.trigger_price;
      }))
]

-- The amend branch of `_keep_open_order`: a state no older than the one held is taken.
pub keep_newer : Order → Book → Bool × Book
keep_newer order book = elim (lookup order.order_id book.open_orders) [
  | none ↦ (false, book)
  | some held ↦
      if leb (stated held.last_update) (stated order.last_update)
      then (true, record book { open_orders = insert order.order_id order book.open_orders })
      else (false, book)
]

abbrev keep_state : Order → Book → Bool × Book
keep_state order book =
    (true, record book { open_orders = insert order.order_id order book.open_orders })

abbrev forget_state : Order → Book → Bool × Book
forget_state order book =
    (false, record book { open_orders = erase order.order_id book.open_orders })

pub keep_pending : ExecutionType → Order → Bool → Book → Bool × Book
unfolding keep_newer
keep_pending order_filled order known book = forget_state order book
keep_pending order_cancelled order known book = forget_state order book
keep_pending order_expired order known book = forget_state order book
keep_pending order_rejected order known book = forget_state order book
keep_pending order_accepted order known book =
    if known then (false, book) else keep_state order book
keep_pending order_partial_fill order known book =
    if known then keep_newer order book else keep_state order book
keep_pending order_replaced order known book = keep_newer order book
keep_pending _ order known book = (false, book)

-- `_keep_open_order`: whether the event's state was taken as the latest
pub keep_open_order : ExecutionType → Order → Bool → Book → Bool × Book
unfolding keep_pending
keep_open_order kind order known book =
    if is_pending_type order.order_type then keep_pending kind order known book else (false, book)

-- `raise`, or go on with a value.
abbrev pub or_raise {ℓ} : {A : Type ℓ} → Option A → Turn → (A → Outcome) → Outcome
or_raise none t f = raised t
or_raise (some a) t f = f a

abbrev pub report : Order → Turn → Turn
report order t = record t { book = record t.book { reported = add order.order_id t.book.reported } }

-- `event.errorCode or None`
abbrev pub reason_of : Text → Option Text
reason_of [] = none
reason_of (c ∷ t) = some (c ∷ t)

abbrev pub filled_event : Order → Option Text → Fill → Record
filled_event order client_order_id fill =
    order_event (record (plain_event filled (some (str_id order)) client_order_id fill.ts_ms) {
      fill = some fill;
    })

abbrev pub ended_event : OrderEventKind → ExecutionEvent → Order → Option Text → Record
ended_event kind event order client_order_id =
    order_event
      (record (plain_event kind (some (str_id order)) client_order_id (stated order.last_update)) {
        reason = reason_of event.error_code;
      })

-- The first report of an order: marked, then built.
pub report_first : Order → ℕ → Bool → List Fill → Turn → Outcome
unfolding external_report
report_first order precision reduce_only fills t =
    or_raise (external_report order precision reduce_only fills) (report order t)
      (λ built. done (report order t) (external_order built ∷ []))

-- `_external_event`, once its order's state has been kept
pub external_step : Callbacks → ExecutionEvent → Order → ℕ → Bool → Bool → Bool → Turn → Outcome
unfolding report_first order_updated
external_step c event order precision reduce_only known taken t = elim event.execution_type [
  | order_accepted ↦ if known then done t [] else report_first order precision reduce_only [] t
  | order_replaced ↦
      if not known
      then done t []
      else if is_pending_type order.order_type && not taken
      then done t []
      else or_raise (order_updated order precision (stated order.last_update)) t
          (λ told. done t (told ∷ []))
  | kind ↦
      if is_fill kind
      then or_raise (fill_of (deal_of event) precision c.money_digits) t (λ fill.
        if known
        then done t (filled_event order none fill ∷ [])
        else report_first order precision reduce_only (fill ∷ []) t)
      else if not known
      then done t []
      else elim (ended_kind kind) [
        | none ↦ done t []
        | some ended ↦ done t (ended_event ended event order none ∷ [])
      ]
]

-- `_external_event`
pub external_event : Callbacks → ExecutionEvent → Order → ℕ → Bool → Turn → Outcome
unfolding external_step keep_open_order
external_event c event order precision reduce_only t =
    let known : Bool = member order.order_id t.book.reported in
    let (taken, book) = keep_open_order event.execution_type order known t.book in
    external_step c event order precision reduce_only known taken (record t { book = book })
