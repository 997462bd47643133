-- ===== src/Venue/Apply.antt =====
-- Applying an execution event (common/venue_book.py: `apply`, `_handle`, `_unloaded`,
-- `trailing_stop_moved`).
pub mod Dedupe
pub mod Retry
pub mod Marks
use nautilus_ctrader_adapter.Prelude.{
  ℕ, Bool, true, false, not, ◌&&◌, ◌||◌, Option, none, some, List, [], ◌∷◌, leb, nat_eq,
  if◌then◌else◌, is_some, get_or,
}
use nautilus_ctrader_adapter.Prelude.Eq.{ℕ_eq, option_eq}
use nautilus_ctrader_adapter.Prelude.Dict.{lookup, insert, member, add, discard}
use nautilus_ctrader_adapter.Prelude.Int.{ℤ}
use nautilus_ctrader_adapter.Operations.{OperationsInFlight}
use nautilus_ctrader_adapter.Messages.{
  OrderType, ExecutionType, Order, Deal, ExecutionEvent, TrailingEvent, stated, deal_of,
}
use nautilus_ctrader_adapter.Records.{Record, Levels, price_of, set_at}
use nautilus_ctrader_adapter.LegId.{stop_loss}
use nautilus_ctrader_adapter.VenueState.{
  Position, Book, Callbacks, Turn, Outcome, done, raised, Key, trailing_key, is_seen, is_before,
  latest, ours,
}
use nautilus_ctrader_adapter.Venue.Foreign
use nautilus_ctrader_adapter.Venue.Legs.{level_changes}
use nautilus_ctrader_adapter.Venue.Sync.{is_fill, position_for, sync, key_of, event_ms}
use nautilus_ctrader_adapter.Venue.Opening.{opening}
use nautilus_ctrader_adapter.Venue.Protective.{protective}
use nautilus_ctrader_adapter.Venue.Closing.{closing}
use nautilus_ctrader_adapter.Venue.Unloaded.{is_protective, track_order, unloaded_records}

-- What a method leaves: the book, the operations, and its records, or `none` where it raised.
pub record Applied : Type 0 where
  pub book : Book
  pub operations : OperationsInFlight
  pub records : Option (List Record)

-- The position is the dict's own object, if it is kept there.
abbrev put_back : Turn → Book
put_back t =
    if t.is_kept
    then record t.book { positions = insert t.position.position_id t.position t.book.positions }
    else t.book

unfoldable pub finish : Outcome → Applied
finish (done t records) = record {
  book = put_back t;
  operations = t.operations;
  records = some records;
}
finish (raised t) = record { book = put_back t; operations = t.operations; records = none }

abbrev pub unchanged : Book → OperationsInFlight → Applied
unchanged book operations = record { book = book; operations = operations; records = some [] }

-- `_unloaded`
unfoldable pub unloaded : ExecutionEvent → Order → OperationsInFlight → Book → Applied
unfolding finish
unloaded event order operations book =
    let tracked : Book =
      if is_some event.position || is_fill event.execution_type
      then (finish (done (sync event order (position_for event order operations book)) [])).book
      else book in
    record {
      book = track_order event order tracked;
      operations = operations;
      records = some (unloaded_records event order);
    }

-- `_handle`, with the early return of `_opening`
unfoldable pub handle : Callbacks → ExecutionEvent → Order → OperationsInFlight → Book → Applied
unfolding finish unloaded
handle c event order operations book = elim (c.price_precision order.trade_data.symbol_id) [
  | none ↦ unloaded event order operations book
  | some precision ↦
      let ended : Bool = member order.order_id book.ended_entries in
      let turn : Turn = position_for event order operations book in
      if is_protective order.order_type
      then finish (protective c event order precision turn)
      else if order.closing_order
      then finish (closing c event order precision turn)
      else if ended && not (is_fill event.execution_type)
      then unchanged book operations
      else finish (opening c ended event order precision turn)
]

-- A fill: its deal fills once.
abbrev pub fills : ExecutionEvent → Bool
fills event = is_fill event.execution_type && is_some event.deal

-- What `apply` marks once an event is handled.
pub mark_seen : ExecutionEvent → Order → Book → Book
mark_seen event order book = record book {
  seen = key_of event order ∷ book.seen;
  applied_deals =
      if fills event then add (deal_of event).deal_id book.applied_deals else book.applied_deals;
}

-- Whether the position is open in the book.
abbrev pub is_held_open : ℕ → Book → Bool
is_held_open position_id book = elim (lookup position_id book.positions) [
  | none ↦ false
  | some position ↦ position.is_open
]

abbrev not_before : ℕ → Option ℕ → Bool
not_before t none = true
not_before t (some u) = leb u t

-- The end of a position's keep, at an event of it.
unfoldable pub end_kept : ExecutionEvent → Order → Book → Book
end_kept event order book =
    let position_id : ℕ = stated order.position_id in
    if not (member position_id book.kept)
    then book
    else if not (is_held_open position_id book)
    then record book { kept = discard position_id book.kept }
    else if not_before (event_ms event order) book.kept_ms
    then record book {
      kept = discard position_id book.kept;
      unconfirmed = add position_id book.unconfirmed;
    }
    else book

-- An event seen before, or a fill whose deal was applied.
unfoldable pub is_repeat : ExecutionEvent → Order → Book → Bool
is_repeat event order book =
    is_seen (key_of event order) book.seen
    || fills event && member (deal_of event).deal_id book.applied_deals

-- The event handled, and marked unless that raised.
unfoldable pub handled : ExecutionEvent → Order → Applied → Applied
unfolding mark_seen
handled event order applied = elim applied.records [
  | none ↦ applied
  | some records ↦ record applied {
    book = end_kept event order (mark_seen event order applied.book);
  }
]

-- `apply`, for an event with an order
unfoldable pub apply_order :
    Callbacks → ExecutionEvent → Order → OperationsInFlight → Book → Applied
unfolding is_repeat
apply_order c event order operations book =
    if member (stated order.position_id) book.closed_in_reconciliation
    then unchanged book operations
    else if is_repeat event order book
    then unchanged book operations
    else handled event order (handle c event order operations book)

-- `apply`
unfoldable pub apply : Callbacks → ExecutionEvent → OperationsInFlight → Book → Applied
unfolding apply_order
apply c event operations book = elim event.order [
  | none ↦ unchanged book operations
  | some order ↦ apply_order c event order operations book
]

-- A trailing move at its price, on the position it moves.
pub trail : ℕ → ℤ → Position → Position
trail ts price position = record position {
  levels = set_at stop_loss price position.levels;
  trailed_ms = latest position.trailed_ms ts;
}

pub trail_records : Callbacks → ℕ → Levels → Position → Position × List Record
trail_records c ts old_levels position =
    if ours position
    then level_changes old_levels false ts position
    else Foreign.level_changes c old_levels ts position

-- A trailing move of the position's current protective order.
pub trail_applied :
    Callbacks → TrailingEvent → ℕ → Key → OperationsInFlight → Position → Book → Applied
unfolding trail trail_records
trail_applied c event precision key operations position book =
    let marked : Book = record book { seen = key ∷ book.seen } in
    if is_before event.last_update position.protective_ms
    then unchanged marked operations
    else elim (price_of event.stop_price precision) [
      | none ↦ record { book = book; operations = operations; records = none }
      | some price ↦
          let (p, records) =
            trail_records c event.last_update position.levels
              (trail event.last_update price position) in
          record {
            book = record marked { positions = insert event.position_id p marked.positions };
            operations = operations;
            records = some records;
          }
    ]

-- `trailing_stop_moved`
pub trailing_stop_moved : Callbacks → TrailingEvent → OperationsInFlight → Book → Applied
unfolding trail_applied
trailing_stop_moved c event operations book =
    let key : Key = trailing_key event.order_id event.last_update event.stop_price in
    elim (lookup event.position_id book.positions) [
      | none ↦ unchanged book operations
      | some position ↦ elim (c.price_precision position.symbol_id) [
        | none ↦ unchanged book operations
        | some precision ↦
            if is_seen key book.seen
            then unchanged book operations
            else if not (option_eq position.protective_order_id (some event.order_id))
            then unchanged book operations
            else trail_applied c event precision key operations position book
      ]
    ]
