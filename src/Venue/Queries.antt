-- ===== src/Venue/Queries.antt =====
-- What the model is asked, and what the node itself ends (common/venue_book.py: `close_order`,
-- `match_close`, `leg_position`, `foreign_leg_position`, `entry_position`, `standing_order`,
-- `reject_entry`, `protection_timed_out`, `cancel_leg`, `reject_legs`, `open_positions`,
-- `exposure`).
pub mod Closes
pub mod Foreigns
pub mod Refused
use nautilus_ctrader_adapter.Prelude.{
  ℕ, Bool, true, false, not, ◌&&◌, ◌||◌, Option, none, some, List, [], ◌∷◌, ◌++◌, nat_eq, ltb, leb,
  if◌then◌else◌, is_some, or_else,
}
use nautilus_ctrader_adapter.Prelude.Eq.{Text, ℕ_eq, text_eq, option_eq}
use nautilus_ctrader_adapter.Prelude.Dict.{Dict, lookup, insert, contains, add}
use nautilus_ctrader_adapter.Prelude.Sort.{sorted}
use nautilus_ctrader_adapter.LegId.{Level, stop_loss, take_profit, parse_leg_venue_order_id}
use nautilus_ctrader_adapter.Messages.{TradeSide, buy, sell}
use nautilus_ctrader_adapter.OrderRecord.{LegIds}
use nautilus_ctrader_adapter.Records.{
  Record, order_event, plain_event, rejected, canceled, protection_missing, Subject,
  position_subject, order_subject, Exposure, at, volume_to_units,
}
use nautilus_ctrader_adapter.VenueState.{Position, Leg, ours, Book, Callbacks}
use nautilus_ctrader_adapter.Venue.Legs.{leg_event, set_leg, reject_round}
use nautilus_ctrader_adapter.Venue.External.{order_updated}
use nautilus_ctrader_adapter.Venue.Closing.{names_close, record_close}

-- The loop of `close_order`; the position is `none` where the second dict lacks the order.
pub close_among : Text → Dict ℕ ℕ → Dict ℕ Text → Option (ℕ × Option ℕ)
close_among client_order_id close_positions [] = none
close_among client_order_id close_positions ((order_id, close_id) ∷ closes) =
    if text_eq close_id client_order_id
    then some (order_id, lookup order_id close_positions)
    else close_among client_order_id close_positions closes

pub close_order : Text → Book → Option (ℕ × Option ℕ)
unfolding close_among
close_order client_order_id book = close_among client_order_id book.close_positions book.closes

pub match_close : ℕ → ℕ → Text → Book → Book
match_close order_id position_id close_id book =
    if contains order_id book.closes || names_close close_id book.closes
    then book
    else let matched : Book = record_close order_id position_id close_id book in
      record matched { closes_accepted = add order_id matched.closes_accepted }

abbrev has_id : Text → Option Leg → Bool
has_id client_order_id none = false
has_id client_order_id (some leg) = text_eq leg.client_order_id client_order_id

-- The loop of `leg_position`.
pub leg_among : Text → Dict ℕ Position → Option (ℕ × Level)
leg_among client_order_id [] = none
leg_among client_order_id ((id, position) ∷ positions) =
    let later = leg_among client_order_id positions in
    if has_id client_order_id (at stop_loss position.legs)
    then some (position.position_id, stop_loss)
    else if has_id client_order_id (at take_profit position.legs)
    then some (position.position_id, take_profit)
    else later

pub leg_position : Text → Book → Option (ℕ × Level)
unfolding leg_among
leg_position client_order_id book = leg_among client_order_id book.positions

-- The loop of `entry_position`.
unfoldable pub entry_among : ℕ → Dict ℕ Position → Option ℕ
entry_among entry_order_id [] = none
entry_among entry_order_id ((id, position) ∷ positions) =
    let later = entry_among entry_order_id positions in
    if option_eq position.entry_order_id (some entry_order_id)
    then some position.position_id
    else later

unfoldable pub entry_position : ℕ → Book → Option ℕ
unfolding entry_among
entry_position entry_order_id book = entry_among entry_order_id book.positions

abbrev is_ours : ℕ → Book → Bool
is_ours position_id book = elim (lookup position_id book.positions) [
  | none ↦ false
  | some position ↦ ours position
]

pub foreign_leg_position : Text → Book → Option (ℕ × Level)
unfolding entry_position
foreign_leg_position venue_order_id book = elim (parse_leg_venue_order_id venue_order_id) [
  | none ↦ none
  | some (entry_order_id, level, generation) ↦ elim (entry_position entry_order_id book) [
    | none ↦ none
    | some position_id ↦ if is_ours position_id book then none else some (position_id, level)
  ]
]

-- `standing_order`; the outer `none` is a raise.
pub standing_order : Callbacks → ℕ → ℕ → Book → Option (List Record)
standing_order c order_id ts_ms book = elim (lookup order_id book.open_orders) [
  | none ↦ some []
  | some order ↦ elim (c.price_precision order.trade_data.symbol_id) [
    | none ↦ some []
    | some precision ↦ elim (order_updated order precision ts_ms) [
      | none ↦ none
      | some told ↦ some (told ∷ [])
    ]
  ]
]

abbrev cancel_unplaced : ℕ → Option Text → List Record
cancel_unplaced ts_ms none = []
cancel_unplaced ts_ms (some leg_id) =
    order_event (plain_event canceled none (some leg_id) ts_ms) ∷ []

pub reject_entry : Text → LegIds → Text → ℕ → List Record
reject_entry client_order_id legs reason ts_ms =
    order_event
      (record (plain_event rejected none (some client_order_id) ts_ms) { reason = some reason })
    ∷ (cancel_unplaced ts_ms legs.stop_loss ++ cancel_unplaced ts_ms legs.take_profit)

-- A live leg that the broker holds no level for.
abbrev pub missing_leg : Bool → Option Leg → Option Text
missing_leg unprotected none = none
missing_leg unprotected (some leg) =
    if leg.alive && (unprotected || not leg.accepted) then some leg.client_order_id else none

pub protection_timed_out : ℕ → Book → List Record
protection_timed_out position_id book = elim (lookup position_id book.positions) [
  | none ↦ []
  | some position ↦
      if not (ours position) || not position.is_open
      then []
      else let unprotected : Bool = not (is_some position.protective_order_id) in
        let stop = missing_leg unprotected (at stop_loss position.legs) in
        let target = missing_leg unprotected (at take_profit position.legs) in
        if is_some stop || is_some target
        then protection_missing position_id stop target ∷ []
        else []
]

-- A leg that may be cancelled without a request: it lives, and its level does not stand.
abbrev cancellable : Level → Position → Option Leg
cancellable level position = elim (at level position.legs) [
  | none ↦ none
  | some leg ↦ if not leg.alive || is_some (at level position.levels) then none else some leg
]

pub cancel_leg : ℕ → Level → ℕ → Book → Book × List Record
cancel_leg position_id level ts_ms book = elim (lookup position_id book.positions) [
  | none ↦ (book, [])
  | some position ↦ elim (cancellable level position) [
    | none ↦ (book, [])
    | some leg ↦ (
      record book {
        positions =
            insert position_id (set_leg level (record leg { alive = false }) position)
              book.positions;
      },
      leg_event canceled position level leg ts_ms none none none ∷ [],
    )
  ]
]

-- The loop of `reject_legs`.
pub reject_both : Text → ℕ → Position → Position × List Record
reject_both reason ts_ms position =
    let (p1, stop) = reject_round reason ts_ms stop_loss (at stop_loss position.legs) position in
    let (p2, target) = reject_round reason ts_ms take_profit (at take_profit p1.legs) p1 in
    (p2, stop ++ target)

pub reject_legs : ℕ → Text → ℕ → Book → Book × List Record
unfolding reject_both
reject_legs position_id reason ts_ms book = elim (lookup position_id book.positions) [
  | none ↦ (book, [])
  | some position ↦
      let (p, records) = reject_both reason ts_ms position in
      (record book { positions = insert position_id p book.positions }, records)
]

-- `OpenPosition`
pub record OpenPosition : Type 0 where
  pub position_id : ℕ
  pub symbol_id : ℕ
  pub side : TradeSide
  pub units : ℕ

abbrev side_number : TradeSide → ℕ
side_number buy = 0
side_number sell = 1

abbrev subject_number : Subject → ℕ
subject_number order_subject = 0
subject_number position_subject = 1

-- A tuple before or at another, field by field.
abbrev pub tuple_le : ℕ × ℕ × ℕ × ℕ → ℕ × ℕ × ℕ × ℕ → Bool
tuple_le (a, b, c, d) (a', b', c', d') =
    ltb a a' || nat_eq a a' && (ltb b b' || nat_eq b b' && (ltb c c' || nat_eq c c' && leb d d'))

abbrev pub open_le : OpenPosition → OpenPosition → Bool
open_le a b =
    tuple_le (a.position_id, a.symbol_id, side_number a.side, a.units)
      (b.position_id, b.symbol_id, side_number b.side, b.units)

abbrev open_of : Position → List OpenPosition
open_of position =
    if position.is_open
    then record {
      position_id = position.position_id;
      symbol_id = position.symbol_id;
      side = position.side;
      units = volume_to_units position.volume;
    }
      ∷ []
    else []

abbrev pub all_open : Dict ℕ Position → List OpenPosition
all_open [] = []
all_open ((id, position) ∷ positions) = open_of position ++ all_open positions

pub open_positions : Book → List OpenPosition
open_positions book = sorted open_le (all_open book.positions)

-- `Exposure`'s order: its texts compare as "order" < "position" and "BUY" < "SELL".
abbrev pub exposure_le : Exposure → Exposure → Bool
exposure_le a b =
    tuple_le (a.symbol_id, subject_number a.subject, side_number a.side, a.units)
      (b.symbol_id, subject_number b.subject, side_number b.side, b.units)

abbrev exposure_of : Callbacks → Position → List Exposure
exposure_of c position =
    if position.is_open && not (is_some (c.price_precision position.symbol_id))
    then record {
      symbol_id = position.symbol_id;
      subject = position_subject;
      side = position.side;
      units = volume_to_units position.volume;
    }
      ∷ []
    else []

abbrev pub positions_exposed : Callbacks → Dict ℕ Position → List Exposure
positions_exposed c [] = []
positions_exposed c ((id, position) ∷ positions) =
    exposure_of c position ++ positions_exposed c positions

abbrev pub values : Dict ℕ Exposure → List Exposure
values [] = []
values ((id, held) ∷ orders) = held ∷ values orders

pub exposure : Callbacks → Book → List Exposure
exposure c book =
    sorted exposure_le (positions_exposed c book.positions ++ values book.unloaded_orders)
