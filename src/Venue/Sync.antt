-- ===== src/Venue/Sync.antt =====
-- An event's position, and what the event says of it (common/venue_book.py: `_position_for`,
-- `_sync`, `_key`, and the small readers beside them).
pub mod Newest
pub mod Marks
pub mod Retired
use nautilus_ctrader_adapter.Prelude.{
  ℕ, ◌+◌, ◌-◌, Bool, true, false, not, ◌&&◌, Option, none, some, List, [], ◌∷◌, ltb, nat_eq, max,
  if◌then◌else◌, is_some,
}
use nautilus_ctrader_adapter.Prelude.Eq.{ℕ_eq}
use nautilus_ctrader_adapter.Prelude.Dict.{lookup, insert, member, add}
use nautilus_ctrader_adapter.LegId.{Level}
use nautilus_ctrader_adapter.Messages.{
  TradeSide, ExecutionType, order_filled, order_partial_fill, PositionStatus, status_open, Order,
  VenuePosition, ExecutionEvent, stated, deal_of,
}
use nautilus_ctrader_adapter.Records.{LevelTerms}
use nautilus_ctrader_adapter.OrderRecord.{parse_label}
use nautilus_ctrader_adapter.VenueState.{
  Position, Book, Turn, Outcome, done, raised, Key, deal_key, content_key, fresh_position,
  is_before,
}
use nautilus_ctrader_adapter.Operations.{OperationsInFlight}
use nautilus_ctrader_adapter.Venue.Foreign.{opposite}

-- `kind in _FILLS`
abbrev pub is_fill : ExecutionType → Bool
is_fill order_filled = true
is_fill order_partial_fill = true
is_fill _ = false

abbrev pub is_open_status : PositionStatus → Bool
is_open_status status_open = true
is_open_status _ = false

-- `opened_of` and `_opened_ms`
abbrev pub opened_of : Order → Option ℕ
opened_of order = order.trade_data.open_timestamp

abbrev pub opened_ms_of : VenuePosition → Option ℕ
opened_ms_of position = position.trade_data.open_timestamp

-- `created_of`
pub created_of : Order → ℕ
created_of order = elim (opened_of order) [ none ↦ stated order.last_update | some opened ↦ opened ]

-- `_event_ms`
pub event_ms : ExecutionEvent → Order → ℕ
event_ms event order =
    let state : ℕ = elim event.position [
      | none ↦ 0
      | some position ↦ stated position.last_update
    ] in
    let deal : ℕ = elim event.deal [ none ↦ 0 | some deal ↦ deal.execution_timestamp ] in
    max (stated order.last_update) (max state deal)

-- `terms_of`
abbrev pub terms_of : VenuePosition → LevelTerms
terms_of position = record {
  trailing_stop_loss = position.trailing_stop_loss;
  guaranteed_stop_loss = position.guaranteed_stop_loss;
  stop_loss_trigger_method = position.stop_loss_trigger_method;
}

-- `remaining_of`
abbrev pub remaining_of : Order → ℕ
remaining_of order = order.trade_data.volume - stated order.executed_volume

-- `_key`
unfoldable pub key_of : ExecutionEvent → Order → Key
key_of event order = elim event.deal [
  | some deal ↦ deal_key order.order_id event.execution_type deal.deal_id
  | none ↦
      content_key order.order_id event.execution_type (stated order.last_update) order.stop_price
        order.limit_price order.trade_data.volume
]

-- The symbol and side of a position created from an event.
abbrev created_symbol : ExecutionEvent → Order → ℕ
created_symbol event order = elim event.position [
  | some position ↦ position.trade_data.symbol_id
  | none ↦ order.trade_data.symbol_id
]

abbrev created_side : ExecutionEvent → Order → TradeSide
created_side event order = elim event.position [
  | some position ↦ position.trade_data.trade_side
  | none ↦
      if order.closing_order
      then opposite order.trade_data.trade_side
      else order.trade_data.trade_side
]

-- `_position_for`: the turn on the event's position.
unfoldable pub position_for : ExecutionEvent → Order → OperationsInFlight → Book → Turn
position_for event order operations book =
    let symbol_id : ℕ = created_symbol event order in
    let side : TradeSide = created_side event order in
    elim order.position_id [
      | none ↦ record {
        book = book;
        operations = operations;
        position = fresh_position 0 symbol_id side;
        is_kept = false;
      }
      | some id ↦ elim (lookup id book.positions) [
        | some position ↦ record {
          book = book;
          operations = operations;
          position = position;
          is_kept = true;
        }
        | none ↦
            let created : Position = fresh_position id symbol_id side in
            record {
              book = record book { positions = insert id created book.positions };
              operations = operations;
              position = created;
              is_kept = true;
            }
      ]
    ]

-- `a or b` on times: 0 is false.
abbrev pub or_time : Option ℕ → Option ℕ → Option ℕ
or_time none b = b
or_time (some a) b = if nat_eq a 0 then b else some a

-- `_sync`, with a position state
pub sync_state : VenuePosition → Position → Position
sync_state state position =
    let opened : Position = record position {
      opened_ms = or_time (opened_ms_of state) position.opened_ms;
    } in
    if is_before (stated state.last_update) position.updated_ms then opened else record opened {
      updated_ms = some (stated state.last_update);
      terms = some (terms_of state);
      volume = state.trade_data.volume;
      is_open = is_open_status state.position_status;
    }

-- `_sync`, by a fill's volume alone
pub sync_volume : Bool → ℕ → Position → Position
sync_volume closing filled position =
    if not closing
    then record position { volume = position.volume + filled; is_open = true }
    else if position.is_open
    then record position {
      volume = position.volume - filled;
      is_open = ltb 0 (position.volume - filled);
    }
    else position

pub sync_fill : ExecutionEvent → Order → Turn → Turn
unfolding sync_volume
sync_fill event order t = elim event.deal [
  | none ↦ t
  | some deal ↦
      if is_fill event.execution_type && not (member deal.deal_id t.book.synced_deals)
      then record t {
        book = record t.book { synced_deals = add deal.deal_id t.book.synced_deals };
        position = sync_volume order.closing_order deal.filled_volume t.position;
      }
      else t
]

-- `_sync`
pub sync : ExecutionEvent → Order → Turn → Turn
unfolding sync_state sync_fill
sync event order t = elim event.position [
  | some state ↦ record t { position = sync_state state t.position }
  | none ↦ sync_fill event order t
]
