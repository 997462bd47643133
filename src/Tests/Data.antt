-- ===== src/Tests/Data.antt =====
-- Inputs of the tests: one long position on a loaded symbol, its orders and events.
use nautilus_ctrader_adapter.Prelude.{
  ℕ, true, false, Option, none, some, [], ◌∷◌, nat_eq, if◌then◌else◌,
}
use nautilus_ctrader_adapter.Prelude.Eq.{codes, text_eq}
use nautilus_ctrader_adapter.Prelude.Int.{pos}
use nautilus_ctrader_adapter.Prelude.Decimal.{decimal}
use nautilus_ctrader_adapter.Operations.{OperationsInFlight}
use nautilus_ctrader_adapter.Messages.{
  buy, OrderType, ExecutionType, number, TradeData, Order, VenuePosition, status_open, Deal,
  ExecutionEvent,
}
use nautilus_ctrader_adapter.Records.{Levels, Fill}
use nautilus_ctrader_adapter.VenueState.{
  Position, Leg, ForeignLeg, Book, empty_book, Callbacks, Turn, fresh_position,
}

-- Symbol 1 is loaded; the first generation of the leg `7-SL` is held closed.
abbrev pub callbacks : Callbacks
callbacks = record {
  price_precision = λ symbol. if nat_eq symbol 1 then some 2 else none;
  held_closed = λ id. text_eq id (codes "7-SL");
  money_digits = 2;
  generations = 3;
}

abbrev pub no_operations : OperationsInFlight
no_operations = record { amends = []; lost_amends = []; closes = []; answers = [] }

abbrev pub trade_data : ℕ → TradeData
trade_data symbol = record {
  symbol_id = symbol;
  volume = 1000;
  trade_side = buy;
  open_timestamp = some 5;
  label = [];
  comment = [];
}

-- An order of position 3 by its id, its type and its symbol.
abbrev pub order_of : ℕ → OrderType → ℕ → Order
order_of id kind symbol = record {
  order_id = id;
  trade_data = trade_data symbol;
  order_type = kind;
  expiration_timestamp = none;
  executed_volume = none;
  last_update = some 20;
  closing_order = false;
  limit_price = none;
  stop_price = some (number (pos 150) 2);
  time_in_force = none;
  position_id = some 3;
  is_stop_out = false;
}

abbrev pub entry : Order
entry = order_of 7 OrderType.market 1

abbrev pub close : Order
close = record (order_of 8 OrderType.market 1) { closing_order = true }

abbrev pub protection : Order
protection = order_of 9 OrderType.stop_loss_take_profit 1

abbrev pub state : VenuePosition
state = record {
  position_id = 3;
  trade_data = trade_data 2;
  position_status = status_open;
  stop_loss = none;
  take_profit = none;
  last_update = some 30;
  guaranteed_stop_loss = false;
  stop_loss_trigger_method = 1;
  trailing_stop_loss = false;
}

abbrev pub deal : Deal
deal = record {
  deal_id = 4;
  position_id = 3;
  filled_volume = 400;
  execution_timestamp = 21;
  execution_price = some (number (pos 155) 2);
  trade_side = buy;
  commission = none;
  money_digits = none;
  close_position_detail = none;
}

abbrev pub event_of : ExecutionType → Order → Option Deal → ExecutionEvent
event_of kind order d = record {
  execution_type = kind;
  position = none;
  order = some order;
  deal = d;
  error_code = [];
  is_server_event = false;
}

abbrev pub fill : Fill
fill = record {
  trade_id = decimal 4;
  venue_position_id = decimal 3;
  side = buy;
  units = 400;
  price = pos 155;
  commission = (pos 0, 2);
  ts_ms = 21;
}

abbrev pub leg : Leg
leg = record {
  client_order_id = codes "O-1";
  alive = true;
  accepted = false;
  quantity = 0;
  filled = 0;
}

abbrev pub foreign_leg : ForeignLeg
foreign_leg = record {
  venue_order_id = codes "7-SL";
  generation = 1;
  quantity = 1000;
  alive = true;
  filled = 700;
}

abbrev pub stop_levels : ℕ → Levels
stop_levels price = record { at_stop_loss = some (pos price); at_take_profit = none }

-- The node's own position, with a stop-loss leg that waits.
abbrev pub own : Position
own = record (fresh_position 3 1 buy) {
  volume = 1000;
  is_open = true;
  entry_order_id = some 7;
  entry_client_order_id = some (codes "E-1");
  legs = record { at_stop_loss = some leg; at_take_profit = none };
  protective_order_id = some 9;
  protective_volume = 1000;
  levels = stop_levels 150;
  updated_ms = some 25;
  trailed_ms = some 22;
}

abbrev pub book : Book
book = record empty_book { positions = (3, own) ∷ [] }

abbrev pub turn_on : Position → Turn
turn_on position = record {
  book = book;
  operations = no_operations;
  position = position;
  is_kept = true;
}
