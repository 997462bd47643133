-- ===== src/Venue/Load.antt =====
-- Rebuilding the model from a snapshot (common/venue_book.py, `load`).
pub mod Held
pub mod Waiting
pub mod Reported
use nautilus_ctrader_adapter.Prelude.{
  ℕ, Bool, true, false, not, ◌&&◌, ◌||◌, Option, none, some, List, [], ◌∷◌, ◌++◌, nat_eq,
  if◌then◌else◌, is_some, get_or, any, keep,
}
use nautilus_ctrader_adapter.Prelude.Eq.{Text, ℕ_eq, Text_eq}
use nautilus_ctrader_adapter.Prelude.Dict.{Dict, lookup, insert, member, add, discard}
use nautilus_ctrader_adapter.LegId.{Level, stop_loss, take_profit}
use nautilus_ctrader_adapter.Messages.{Order, VenuePosition, Snapshot, stated}
use nautilus_ctrader_adapter.Records.{
  Record, await_protection, Exposure, ByLevel, Levels, any_level, at, position_levels,
}
use nautilus_ctrader_adapter.VenueState.{
  Position, Leg, ForeignLeg, ours, Book, Callbacks, fresh_position,
}
use nautilus_ctrader_adapter.Venue.Foreign
use nautilus_ctrader_adapter.Venue.Foreign.{open_legs}
use nautilus_ctrader_adapter.Venue.Legs.{adopt, waits}
use nautilus_ctrader_adapter.Venue.Sync.{opened_of, opened_ms_of, terms_of, remaining_of}
use nautilus_ctrader_adapter.Venue.External.{is_pending_type}
use nautilus_ctrader_adapter.Venue.Unloaded.{is_protective, pending}
use nautilus_ctrader_adapter.Venue.Orders.{entry_of}

-- What a load leaves: the book, and its records, or `none` where a price raised.
pub record Loaded : Type 0 where
  pub book : Book
  pub records : Option (List Record)

-- A leg that this model held ended or accepted.
abbrev pub settled_id : Option Leg → List Text
settled_id none = []
settled_id (some leg) = if not leg.alive || leg.accepted then leg.client_order_id ∷ [] else []

pub settled : Dict ℕ Position → List Text
settled [] = []
settled ((id, position) ∷ positions) =
    settled_id (at stop_loss position.legs)
    ++ (settled_id (at take_profit position.legs) ++ settled positions)

abbrev pub still_waiting : List Text → List Text → List Text
still_waiting settled_ids waiting = keep (λ id. not (member id settled_ids)) waiting

abbrev pub is_live : Option Leg → Bool
is_live none = false
is_live (some leg) = leg.alive

abbrev pub has_live_leg : Position → Bool
has_live_leg position =
    is_live (at stop_loss position.legs)
    || is_live (at take_profit position.legs)
    || any (λ (level, leg). leg.alive) position.foreign_legs

abbrev pub is_listed : ℕ → List VenuePosition → Bool
is_listed id states = any (λ state. nat_eq state.position_id id) states

abbrev pub is_gone : Bool → List VenuePosition → ℕ → Position → Bool
is_gone keep_gone states id position =
    keep_gone && not (is_listed id states) && position.is_open && has_live_leg position

-- `gone`
unfoldable pub gone_positions : Bool → List VenuePosition → Dict ℕ Position → Dict ℕ Position
gone_positions keep_gone states [] = []
gone_positions keep_gone states ((id, position) ∷ positions) =
    let rest = gone_positions keep_gone states positions in
    if is_gone keep_gone states id position then (id, position) ∷ rest else rest

abbrev pub ids_of : Dict ℕ Position → List ℕ
ids_of [] = []
ids_of ((id, position) ∷ positions) = id ∷ ids_of positions

-- A position as its state gives it, without its levels.
abbrev pub stated_position : VenuePosition → Position
stated_position state =
    record (fresh_position state.position_id state.trade_data.symbol_id
      state.trade_data.trade_side) {
        is_open = true;
        volume = state.trade_data.volume;
        opened_ms = opened_ms_of state;
        updated_ms = some (stated state.last_update);
        terms = some (terms_of state);
      }

-- Its levels, read if its symbol is loaded; `none` where a price raises.
abbrev pub standing_levels : Callbacks → VenuePosition → Option Levels
standing_levels c state = elim (c.price_precision state.trade_data.symbol_id) [
  | none ↦ some (record { at_stop_loss = none; at_take_profit = none })
  | some precision ↦ position_levels state precision
]

-- Its entry, and the wait for its protective order.
abbrev adopt_known : List Text → Option Order → Position → Position × List Record
adopt_known waiting none position = (position, [])
adopt_known waiting (some entry) position = adopt true waiting entry position

unfoldable pub adopt_listed : List Text → Option Order → Position → Position × List Record
adopt_listed waiting entry position =
    let (p, told) = adopt_known waiting entry position in
    if waits (at stop_loss p.legs) || waits (at take_profit p.legs)
    then (record p { awaiting_protection = true }, told ++ await_protection p.position_id ∷ [])
    else (p, told)

-- One round of the loop over the snapshot's positions; `none` in the second part is a raise.
unfoldable pub load_position :
    Callbacks → List Text → Dict ℕ (List Order) → VenuePosition → Position × Option (List Record)
unfolding adopt_listed
load_position c waiting position_orders state = elim (standing_levels c state) [
  | none ↦ (stated_position state, none)
  | some levels ↦
      let (p, records) =
        adopt_listed waiting (entry_of (get_or [] (lookup state.position_id position_orders)))
          (record (stated_position state) { levels = levels }) in
      (p, some records)
]

unfoldable pub load_positions :
    Callbacks
    → List Text
    → Dict ℕ (List Order)
    → List VenuePosition
    → Dict ℕ Position
    → Dict ℕ Position × Option (List Record)
unfolding load_position
load_positions c waiting position_orders [] positions = (positions, some [])
load_positions c waiting position_orders (state ∷ states) positions =
    let (p, records) = load_position c waiting position_orders state in
    let later =
      load_positions c waiting position_orders states (insert state.position_id p positions) in
    elim records [
      | none ↦ (insert state.position_id p positions, none)
      | some told ↦ elim later.1 [
        | none ↦ (later.0, none)
        | some more ↦ (later.0, some (told ++ more))
      ]
    ]

abbrev pub size_accepted : ℕ → Option Leg → Option Leg
size_accepted volume none = none
size_accepted volume (some leg) =
    if leg.accepted then some (record leg { quantity = volume }) else some leg

-- A listed protective order, on its position.
pub protect : Order → Position → Position
protect order position =
    let volume : ℕ = remaining_of order in
    record position {
      protective_order_id = some order.order_id;
      protective_volume = volume;
      protective_opened_ms = opened_of order;
      protective_ms =
          if is_some order.last_update then order.last_update else position.protective_ms;
      legs = record {
        at_stop_loss = size_accepted volume (at stop_loss position.legs);
        at_take_profit = size_accepted volume (at take_profit position.legs);
      };
    }

-- One round of the loop over the snapshot's orders.
unfoldable pub load_order : Callbacks → Order → Book → Book
unfolding protect
load_order c order book =
    if is_protective order.order_type
    then elim (lookup (stated order.position_id) book.positions) [
      | none ↦ book
      | some position ↦ record book {
        positions = insert (stated order.position_id) (protect order position) book.positions;
      }
    ]
    else let known : Book = record book { reported = add order.order_id book.reported } in
      elim (c.price_precision order.trade_data.symbol_id) [
        | none ↦ record known {
          unloaded_orders = insert order.order_id (pending order) known.unloaded_orders;
        }
        | some precision ↦
            if is_pending_type order.order_type
            then record known { open_orders = insert order.order_id order known.open_orders }
            else known
      ]

unfoldable pub load_orders : Callbacks → List Order → Book → Book
unfolding load_order
load_orders c [] book = book
load_orders c (order ∷ orders) book = load_orders c orders (load_order c order book)

-- One round of the last loop: a foreign position's standing levels get their legs.
abbrev pub open_foreign : Callbacks → Position → Position × List Record
open_foreign c position =
    if not (ours position) && any_level position.levels
    then open_legs c position
    else (position, [])

unfoldable pub open_all : Callbacks → Dict ℕ Position → Dict ℕ Position × List Record
open_all c [] = ([], [])
open_all c ((id, position) ∷ positions) =
    let (p, told) = open_foreign c position in
    let (later, more) = open_all c positions in ((id, p) ∷ later, told ++ more)

-- `self._positions.update(gone)`
abbrev pub update : Dict ℕ Position → Dict ℕ Position → Dict ℕ Position
update positions [] = positions
update positions ((id, position) ∷ others) = update (insert id position positions) others

-- The book that a load starts from.
abbrev pub cleared : Option ℕ → Dict ℕ Position → Book → Book
cleared read_ms gone book = record book {
  positions = [];
  unloaded_orders = [];
  reported = [];
  open_orders = [];
  kept = ids_of gone;
  kept_ms = read_ms;
  unconfirmed = [];
}

-- `load`
unfoldable pub load :
    Callbacks → Snapshot → Dict ℕ (List Order) → Bool → Option ℕ → List Text → Book → Loaded
unfolding load_positions load_orders open_all gone_positions settled
load c snapshot position_orders keep_gone read_ms waiting book =
    let waiting' : List Text = still_waiting (settled book.positions) waiting in
    let gone = gone_positions keep_gone snapshot.positions book.positions in
    let start : Book = cleared read_ms gone book in
    let (positions, told) = load_positions c waiting' position_orders snapshot.positions [] in
    let placed : Book = record start { positions = positions } in
    elim told [
      | none ↦ record { book = placed; records = none }
      | some notices ↦
          let ordered : Book = load_orders c snapshot.orders placed in
          let (opened, more) = open_all c ordered.positions in
          record {
            book = record ordered { positions = update opened gone };
            records = some (notices ++ more);
          }
    ]
