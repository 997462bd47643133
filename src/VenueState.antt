-- ===== src/VenueState.antt =====
-- The state of the venue model (class `VenueBook`, common/venue_book.py), and how an event's
-- handler runs on it. A handler works on one position, which it shares with the book's dict
-- (`is_kept`) or holds alone: the position travels beside the book and is put back at the end,
-- after a raise too. A set is a list, a dict an association list in insertion order; a time of -1
-- is `none`.
pub mod Marks
use nautilus_ctrader_adapter.Prelude.{
  ℕ, Bool, true, false, not, Option, none, some, List, [], ◌∷◌, ◌++◌, ◌&&◌, ◌||◌, nat_eq,
  if◌then◌else◌, is_some, ltb, max,
}
use nautilus_ctrader_adapter.Prelude.Eq.{Text}
use nautilus_ctrader_adapter.Operations.{OperationsInFlight}
use nautilus_ctrader_adapter.Prelude.Dict.{Dict, insert}
use nautilus_ctrader_adapter.Prelude.Int.{int_eq}
use nautilus_ctrader_adapter.LegId.{Level, stop_loss, take_profit}
use nautilus_ctrader_adapter.Messages.{
  TradeSide, Double, number, infinite, Order, ExecutionType, order_accepted, order_filled,
  order_replaced, order_cancelled, order_expired, order_rejected, order_cancel_rejected, swap,
  deposit_withdraw, order_partial_fill, bonus_deposit_withdraw,
}
use nautilus_ctrader_adapter.Records.{LevelTerms, Record, Exposure, ByLevel, Levels, no_levels}

-- `_Leg`
pub record Leg : Type 0 where
  pub client_order_id : Text
  pub alive : Bool
  pub accepted : Bool
  pub quantity : ℕ
  pub filled : ℕ

-- `ForeignLeg`
pub record ForeignLeg : Type 0 where
  pub venue_order_id : Text
  pub generation : ℕ
  pub quantity : ℕ
  pub alive : Bool
  pub filled : ℕ

-- `_Position`. The legs are only ever added in the levels' order, and all at once.
pub record Position : Type 0 where
  pub position_id : ℕ
  pub symbol_id : ℕ
  pub side : TradeSide
  pub volume : ℕ
  pub is_open : Bool
  pub entry_order_id : Option ℕ
  pub entry_client_order_id : Option Text
  pub entry_accepted : Bool
  pub legs : ByLevel Leg
  pub foreign_legs : Dict Level ForeignLeg
  pub entry_unknown_told : Bool
  pub awaiting_protection : Bool
  pub protective_order_id : Option ℕ
  pub protective_volume : ℕ
  pub protective_opened_ms : Option ℕ
  pub entry_filled_ms : Option ℕ
  pub opened_ms : Option ℕ
  pub retired_protective_ids : List ℕ
  pub levels : Levels
  pub terms : Option LevelTerms
  pub updated_ms : Option ℕ
  pub trailed_ms : Option ℕ
  pub protective_ms : Option ℕ

-- `_Position.ours`
abbrev pub ours : Position → Bool
ours position = is_some position.entry_client_order_id

-- `_Position(position_id, symbol_id, side)`
abbrev pub fresh_position : ℕ → ℕ → TradeSide → Position
fresh_position position_id symbol_id side = record {
  position_id = position_id;
  symbol_id = symbol_id;
  side = side;
  volume = 0;
  is_open = false;
  entry_order_id = none;
  entry_client_order_id = none;
  entry_accepted = false;
  legs = no_levels;
  foreign_legs = [];
  entry_unknown_told = false;
  awaiting_protection = false;
  protective_order_id = none;
  protective_volume = 0;
  protective_opened_ms = none;
  entry_filled_ms = none;
  opened_ms = none;
  retired_protective_ids = [];
  levels = no_levels;
  terms = none;
  updated_ms = none;
  trailed_ms = none;
  protective_ms = none;
}

-- The tuples of `_seen`: an event with a deal, one without, and a trailing move.
pub data Key : Type 0 where
  deal_key : ℕ → ExecutionType → ℕ → Key
  content_key : ℕ → ExecutionType → ℕ → Option Double → Option Double → ℕ → Key
  trailing_key : ℕ → ℕ → Double → Key

-- The protocol's number of an execution type.
abbrev pub kind_number : ExecutionType → ℕ
kind_number order_accepted = 2
kind_number order_filled = 3
kind_number order_replaced = 4
kind_number order_cancelled = 5
kind_number order_expired = 6
kind_number order_rejected = 7
kind_number order_cancel_rejected = 8
kind_number swap = 9
kind_number deposit_withdraw = 10
kind_number order_partial_fill = 11
kind_number bonus_deposit_withdraw = 12

-- A NaN is not equal to itself; the infinities differ by their sign.
abbrev double_eq : Double → Double → Bool
double_eq (number a m) (number b n) = int_eq a b && nat_eq m n
double_eq (infinite negative) (infinite negative') = if negative then negative' else not negative'
double_eq _ _ = false

abbrev price_eq : Option Double → Option Double → Bool
price_eq none none = true
price_eq (some a) (some b) = double_eq a b
price_eq _ _ = false

abbrev pub key_eq : Key → Key → Bool
key_eq (deal_key order kind deal) (deal_key order' kind' deal') =
    nat_eq order order' && nat_eq (kind_number kind) (kind_number kind') && nat_eq deal deal'
key_eq (content_key order kind ts stop limit volume)
      (content_key order' kind' ts' stop' limit' volume') =
    nat_eq order order'
    && nat_eq (kind_number kind) (kind_number kind')
    && nat_eq ts ts'
    && price_eq stop stop'
    && price_eq limit limit'
    && nat_eq volume volume'
key_eq (trailing_key order ts price) (trailing_key order' ts' price') =
    nat_eq order order' && nat_eq ts ts' && double_eq price price'
key_eq _ _ = false

-- `key in self._seen`
abbrev pub is_seen : Key → List Key → Bool
is_seen key [] = false
is_seen key (k ∷ seen) = key_eq key k || is_seen key seen

pub record Book : Type 0 where
  pub positions : Dict ℕ Position
  pub closes : Dict ℕ Text
  pub closes_accepted : List ℕ
  pub close_positions : Dict ℕ ℕ
  pub unloaded_orders : Dict ℕ Exposure
  pub ended_entries : List ℕ
  pub reported : List ℕ
  pub open_orders : Dict ℕ Order
  pub seen : List Key
  pub synced_deals : List ℕ
  pub applied_deals : List ℕ
  pub kept : List ℕ
  pub kept_ms : Option ℕ
  pub unconfirmed : List ℕ
  pub closed_in_reconciliation : List ℕ

-- `VenueBook()`
abbrev pub empty_book : Book
empty_book = record {
  positions = [];
  closes = [];
  closes_accepted = [];
  close_positions = [];
  unloaded_orders = [];
  ended_entries = [];
  reported = [];
  open_orders = [];
  seen = [];
  synced_deals = [];
  applied_deals = [];
  kept = [];
  kept_ms = none;
  unconfirmed = [];
  closed_in_reconciliation = [];
}

-- What the constructor takes. `generations` bounds the loop over a leg's generations.
pub record Callbacks : Type 0 where
  pub price_precision : ℕ → Option ℕ
  pub held_closed : Text → Bool
  pub money_digits : ℕ
  pub generations : ℕ

-- A handler in progress.
pub record Turn : Type 0 where
  pub book : Book
  pub operations : OperationsInFlight
  pub position : Position
  pub is_kept : Bool

pub data Outcome : Type 0 where
  done : Turn → List Record → Outcome
  raised : Turn → Outcome

-- The records of one step, then those of the next.
infixl 5 ◌>>>◌
abbrev pub ◌>>>◌ : Outcome → (Turn → Outcome) → Outcome
done t records >>> f = elim (f t) [
  | done t' more ↦ done t' (records ++ more)
  | raised t' ↦ raised t'
]
raised t >>> f = raised t

-- The records of a step that was not stopped by a raise, and its turn.
abbrev pub told : Outcome → List Record
told (done t records) = records
told (raised t) = []

abbrev pub turn_of : Outcome → Turn
turn_of (done t records) = t
turn_of (raised t) = t

abbrev pub is_done : Outcome → Bool
is_done (done t records) = true
is_done (raised t) = false

-- A time against a time of the model, which may be -1.
abbrev pub is_before : ℕ → Option ℕ → Bool
is_before t none = false
is_before t (some u) = ltb t u

abbrev pub latest : Option ℕ → ℕ → Option ℕ
latest none t = some t
latest (some u) t = some (max u t)
