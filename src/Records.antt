-- ===== src/Records.antt =====
-- What the venue model hands the execution client (common/venue_records.py). Units are held in
-- hundredths, as the venue's volumes are, so `volume_to_units` keeps the number; prices are in
-- units of the last decimal of their symbol. A notice stands for its text by the values it names.
pub mod Prices
unfoldable pub use Prices.*
use nautilus_ctrader_adapter.Prelude.{ℕ, Bool, Option, none, some, List, get_or, if◌then◌else◌}
use nautilus_ctrader_adapter.Prelude.Eq.{Text}
use nautilus_ctrader_adapter.Prelude.Decimal.{decimal}
use nautilus_ctrader_adapter.Prelude.Int.{ℤ, pos}
use nautilus_ctrader_adapter.Messages.{TradeSide, Double, Deal, number}
use nautilus_ctrader_adapter.LegId.{Level, stop_loss, take_profit}

pub record LevelTerms : Type 0 where
  pub trailing_stop_loss : Bool
  pub guaranteed_stop_loss : Bool
  pub stop_loss_trigger_method : ℕ

abbrev pub volume_to_units : ℕ → ℕ
volume_to_units volume = volume

-- A leg's `price` and `trigger_price`.
abbrev pub leg_prices : Level → Option ℤ → Option ℤ × Option ℤ
leg_prices stop_loss price = (none, price)
leg_prices take_profit price = (price, none)

pub data OrderEventKind : Type 0 where
  accepted filled updated canceled rejected expired : OrderEventKind

-- The commission is a number and the digits to scale it by.
pub record Fill : Type 0 where
  pub trade_id : Text
  pub venue_position_id : Text
  pub side : TradeSide
  pub units : ℕ
  pub price : ℤ
  pub commission : ℤ × ℕ
  pub ts_ms : ℕ

-- `money_in`
abbrev pub money_in : ℤ → Option ℕ → ℕ → ℤ × ℕ
money_in amount money_digits account_money_digits =
    (amount, get_or account_money_digits money_digits)

-- `none` where `price_of` raises.
unfoldable pub fill_of : Deal → ℕ → ℕ → Option Fill
fill_of deal precision account_money_digits =
    elim (price_of (get_or (number (pos 0) 0) deal.execution_price) precision) [
      | none ↦ none
      | some price ↦ some (record {
        trade_id = decimal deal.deal_id;
        venue_position_id = decimal deal.position_id;
        side = deal.trade_side;
        units = volume_to_units deal.filled_volume;
        price = price;
        commission =
            money_in (get_or (pos 0) deal.commission) deal.money_digits account_money_digits;
        ts_ms = deal.execution_timestamp;
      })
    ]

pub record OrderEvent : Type 0 where
  pub kind : OrderEventKind
  pub venue_order_id : Option Text
  pub client_order_id : Option Text
  pub ts_ms : ℕ
  pub fill : Option Fill
  pub quantity : Option ℕ
  pub price : Option ℤ
  pub trigger_price : Option ℤ
  pub reason : Option Text

pub data ExternalType : Type 0 where
  market limit stop_market stop_limit : ExternalType

pub record ExternalOrder : Type 0 where
  pub venue_order_id : Text
  pub symbol_id : ℕ
  pub side : TradeSide
  pub order_type : ExternalType
  pub units : ℕ
  pub reduce_only : Bool
  pub venue_position_id : Option Text
  pub ts_ms : ℕ
  pub price : Option ℤ
  pub trigger_price : Option ℤ
  pub fills : List Fill
  pub time_in_force : Option ℕ
  pub expire_ts_ms : Option ℕ
  pub ts_accepted_ms : Option ℕ

pub data ActivityKind : Type 0 where
  unloaded_symbol manual_change stop_out : ActivityKind

pub data Action : Type 0 where
  opened changed closed partially_closed level_moved level_removed level_added : Action

pub data Subject : Type 0 where
  order_subject position_subject : Subject

pub record Activity : Type 0 where
  pub kind : ActivityKind
  pub symbol_id : ℕ
  pub subject : Subject
  pub side : TradeSide
  pub units : ℕ
  pub action : Action
  pub ts_ms : ℕ

pub record Exposure : Type 0 where
  pub symbol_id : ℕ
  pub subject : Subject
  pub side : TradeSide
  pub units : ℕ

pub data Notice : Type 0 where
  inverted_levels : ℤ → ℤ → ℤ → Level → Notice
  unreadable_legs : ℕ → Notice
  filled_after_end : ℕ → Notice
  filled_after_retired : ℕ → Notice
  no_level_known : ℤ → Notice
  unnamed_close : ℕ → ℕ → Notice

pub data Record : Type 0 where
  order_event : OrderEvent → Record
  external_order : ExternalOrder → Record
  activity : Activity → Record
  await_protection : ℕ → Record
  protection_missing : ℕ → Option Text → Option Text → Record
  notice : Notice → Record
  entry_unknown : ℕ → Record

-- An event with nothing but its kind, its ids and its time.
abbrev pub plain_event : OrderEventKind → Option Text → Option Text → ℕ → OrderEvent
plain_event kind venue_order_id client_order_id ts_ms = record {
  kind = kind;
  venue_order_id = venue_order_id;
  client_order_id = client_order_id;
  ts_ms = ts_ms;
  fill = none;
  quantity = none;
  price = none;
  trigger_price = none;
  reason = none;
}
