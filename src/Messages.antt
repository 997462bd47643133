-- ===== src/Messages.antt =====
-- The protocol's messages as the venue model reads them (messages/OpenApiModelMessages.proto and
-- messages/OpenApiMessages.proto): the fields that it uses, `Option` for a field that may be
-- unset, and the value an unset field reads as. Ids, volumes and times are not negative. The
-- values of `ProtoOATradeSide` serve as the texts "BUY" and "SELL" too.
use nautilus_ctrader_adapter.Prelude.{ℕ, Bool, Option, none, List, get_or}
use nautilus_ctrader_adapter.Prelude.Eq.{Text}
use nautilus_ctrader_adapter.Prelude.Int.{ℤ}

pub data TradeSide : Type 0 where
  buy : TradeSide
  sell : TradeSide

pub data OrderType : Type 0 where
  market limit stop stop_loss_take_profit market_range stop_limit : OrderType

pub data ExecutionType : Type 0 where
  order_accepted order_filled order_replaced order_cancelled order_expired : ExecutionType
  order_rejected order_cancel_rejected swap deposit_withdraw : ExecutionType
  order_partial_fill bonus_deposit_withdraw : ExecutionType

pub data PositionStatus : Type 0 where
  status_open status_closed status_created status_error : PositionStatus

-- A double by its shortest decimal form: `number m e` is m / 10 ^ e.
pub data Double : Type 0 where
  number : ℤ → ℕ → Double
  infinite : Bool → Double
  nan : Double

pub record TradeData : Type 0 where
  pub symbol_id : ℕ
  pub volume : ℕ
  pub trade_side : TradeSide
  pub open_timestamp : Option ℕ
  pub label : Text
  pub comment : Text

pub record Order : Type 0 where
  pub order_id : ℕ
  pub trade_data : TradeData
  pub order_type : OrderType
  pub expiration_timestamp : Option ℕ
  pub executed_volume : Option ℕ
  pub last_update : Option ℕ
  pub closing_order : Bool
  pub limit_price : Option Double
  pub stop_price : Option Double
  pub time_in_force : Option ℕ
  pub position_id : Option ℕ
  pub is_stop_out : Bool

pub record VenuePosition : Type 0 where
  pub position_id : ℕ
  pub trade_data : TradeData
  pub position_status : PositionStatus
  pub stop_loss : Option Double
  pub take_profit : Option Double
  pub last_update : Option ℕ
  pub guaranteed_stop_loss : Bool
  pub stop_loss_trigger_method : ℕ
  pub trailing_stop_loss : Bool

-- The amounts that a deal left out of its closing detail read as 0.
pub record ClosePositionDetail : Type 0 where
  pub gross_profit : ℤ
  pub swap : ℤ
  pub commission : ℤ
  pub balance : ℤ
  pub balance_version : Option ℕ
  pub money_digits : Option ℕ
  pub pnl_conversion_fee : ℤ

-- Whether the operation's type is `BALANCE_DEPOSIT` stands for the type.
pub record DepositWithdraw : Type 0 where
  pub is_deposit : Bool
  pub balance_history_id : ℕ
  pub balance : ℤ
  pub delta : ℤ
  pub change_balance_timestamp : ℕ
  pub balance_version : Option ℕ
  pub money_digits : Option ℕ

pub record Deal : Type 0 where
  pub deal_id : ℕ
  pub position_id : ℕ
  pub filled_volume : ℕ
  pub execution_timestamp : ℕ
  pub execution_price : Option Double
  pub trade_side : TradeSide
  pub commission : Option ℤ
  pub money_digits : Option ℕ
  pub close_position_detail : Option ClosePositionDetail

pub record ExecutionEvent : Type 0 where
  pub execution_type : ExecutionType
  pub position : Option VenuePosition
  pub order : Option Order
  pub deal : Option Deal
  pub error_code : Text
  pub is_server_event : Bool

pub record TrailingEvent : Type 0 where
  pub position_id : ℕ
  pub order_id : ℕ
  pub stop_price : Double
  pub last_update : ℕ

pub record Snapshot : Type 0 where
  pub positions : List VenuePosition
  pub orders : List Order

-- What an unset number reads as.
abbrev pub stated : Option ℕ → ℕ
stated = get_or 0

-- An event's deal; one that is unset reads as the empty message.
abbrev pub deal_of : ExecutionEvent → Deal
deal_of event = get_or unset event.deal
  where
    unset : Deal
    unset = record {
      deal_id = 0;
      position_id = 0;
      filled_volume = 0;
      execution_timestamp = 0;
      execution_price = none;
      trade_side = buy;
      commission = none;
      money_digits = none;
      close_position_detail = none;
    }
