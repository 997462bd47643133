-- ===== src/Venue/Foreign.antt =====
-- The legs of positions that the node did not open (common/foreign_legs.py): each function
-- returns the changed position and what Nautilus is told.
pub mod Settled
pub mod Fills
pub mod Retired
use nautilus_ctrader_adapter.Prelude.{
  ℕ, zero, suc, ◌+◌, Bool, true, false, not, ◌&&◌, Option, none, some, List, [], ◌∷◌, ◌++◌, ltb,
  leb, nat_eq, max, if◌then◌else◌, is_some, get_or,
}
use nautilus_ctrader_adapter.Prelude.Eq.{Text, option_eq}
use nautilus_ctrader_adapter.Prelude.Dict.{Dict, lookup, insert}
use nautilus_ctrader_adapter.Prelude.Decimal.{decimal}
use nautilus_ctrader_adapter.Prelude.Int.{ℤ, ℤ_eq}
use nautilus_ctrader_adapter.LegId.{Level, stop_loss, take_profit, Level_eq, leg_venue_order_id}
use nautilus_ctrader_adapter.Messages.{TradeSide, buy, sell}
use nautilus_ctrader_adapter.Records.{
  Record, order_event, external_order, entry_unknown, ExternalOrder, ExternalType, OrderEvent,
  plain_event, Fill, canceled, updated, filled as filled_kind, Levels, at, any_level, leg_prices,
  volume_to_units,
}
use nautilus_ctrader_adapter.VenueState.{Position, ForeignLeg, Callbacks}

-- A leg's id at a generation of 1 or more, where `leg_venue_order_id` does not raise.
unfoldable pub leg_name : ℕ → Level → ℕ → Text
leg_name entry_order_id level generation =
    get_or [] (leg_venue_order_id entry_order_id level generation)

abbrev pub opposite : TradeSide → TradeSide
opposite buy = sell
opposite sell = buy

abbrev leg_type : Level → ExternalType
leg_type stop_loss = ExternalType.stop_market
leg_type take_profit = ExternalType.limit

-- `ProtoOATimeInForce.GOOD_TILL_CANCEL`
abbrev good_till_cancel : ℕ
good_till_cancel = 2

pub foreign_leg : Text → Level → Position → ℤ → ℕ → ℕ → ℕ → ExternalOrder
foreign_leg venue_order_id level position price volume ts_ms accepted_ms =
    let (limit, trigger) = leg_prices level (some price) in
    record {
      venue_order_id = venue_order_id;
      symbol_id = position.symbol_id;
      side = opposite position.side;
      order_type = leg_type level;
      units = volume_to_units volume;
      reduce_only = true;
      venue_position_id = some (decimal position.position_id);
      ts_ms = ts_ms;
      price = limit;
      trigger_price = trigger;
      fills = [];
      time_in_force = some good_till_cancel;
      expire_ts_ms = none;
      ts_accepted_ms = some accepted_ms;
    }

-- `_rest`
abbrev pub rest : Position → ℕ
rest position =
    if is_some position.protective_order_id then position.protective_volume else position.volume

-- `_entry_unknown`
pub tell_entry_unknown : Position → Position × List Record
tell_entry_unknown position =
    if any_level position.levels && not position.entry_unknown_told
    then (record position { entry_unknown_told = true }, entry_unknown position.position_id ∷ [])
    else (position, [])

-- The loop over the generations from `generation` on; `fuel` bounds it.
pub free_generation : ℕ → (Text → Bool) → ℕ → Level → ℕ → ℕ
free_generation zero held_closed entry level generation = generation
free_generation (suc fuel) held_closed entry level generation =
    let later = free_generation fuel held_closed entry level (generation + 1) in
    if held_closed (leg_name entry level generation) then later else generation

abbrev pub next_generation : Option ForeignLeg → ℕ
next_generation none = 1
next_generation (some last) = last.generation + 1

-- `_open`
pub open_leg : Callbacks → ℕ → Level → Position → ForeignLeg
unfolding free_generation leg_name
open_leg c entry level position =
    let generation : ℕ =
      free_generation c.generations c.held_closed entry level
        (next_generation (lookup level position.foreign_legs)) in
    record {
      venue_order_id = leg_name entry level generation;
      generation = generation;
      quantity = rest position;
      alive = true;
      filled = 0;
    }

abbrev pub set_leg : Level → ForeignLeg → Position → Position
set_leg level leg position = record position {
  foreign_legs = insert level leg position.foreign_legs;
}

-- `_accepted_ms`
abbrev pub accepted_ms : Option ℕ → Option ℕ → ℕ → ℕ
accepted_ms none none ts = ts
accepted_ms none (some entry_filled) ts = entry_filled
accepted_ms (some opened) none ts = opened
accepted_ms (some opened) (some entry_filled) ts = max opened entry_filled

-- `_new_leg`
pub new_leg : Callbacks → ℕ → Level → ℤ → ℕ → Position → Position × List Record
unfolding open_leg foreign_leg
new_leg c entry level price ts position =
    let leg = open_leg c entry level position in
    let accepted : ℕ = accepted_ms position.protective_opened_ms position.entry_filled_ms ts in
    (
      set_leg level leg position,
      external_order (
            foreign_leg leg.venue_order_id level position price leg.quantity (max ts accepted)
              accepted)
          ∷ [],
    )

-- `_resized`
abbrev pub resized : ForeignLeg → ℕ → Record
resized leg ts = order_event (record (plain_event updated (some leg.venue_order_id) none ts) {
  quantity = some (volume_to_units leg.quantity);
})

-- `_moved`
abbrev pub moved : ForeignLeg → Level → ℤ → ℕ → Record
moved leg level price ts =
    let (limit, trigger) = leg_prices level (some price) in
    order_event (record (plain_event updated (some leg.venue_order_id) none ts) {
      quantity = some (volume_to_units leg.quantity);
      price = limit;
      trigger_price = trigger;
    })

abbrev pub cancelled : ForeignLeg → ℕ → Record
cancelled leg ts = order_event (plain_event canceled (some leg.venue_order_id) none ts)

-- A leg, if it is alive.
abbrev pub live : Option ForeignLeg → Option ForeignLeg
live none = none
live (some leg) = if leg.alive then some leg else none

-- One round of the first loop of `level_changes`, by the level's new price and its live leg.
pub change_level :
    Callbacks
    → ℕ
    → Option ℤ
    → ℕ
    → Level
    → Option ℤ
    → Option ForeignLeg
    → Position
    → Position × List Record
unfolding new_leg
change_level c entry old ts level (some price) none position =
    new_leg c entry level price ts position
change_level c entry old ts level none none position = (position, [])
change_level c entry old ts level none (some leg) position =
    (set_leg level (record leg { alive = false }) position, cancelled leg ts ∷ [])
change_level c entry old ts level (some price) (some leg) position =
    if option_eq (some price) old
    then (position, [])
    else let leg' : ForeignLeg = record leg { quantity = leg.filled + rest position } in
      (set_leg level leg' position, moved leg' level price ts ∷ [])

pub level_round : Callbacks → ℕ → Levels → ℕ → Level → Position → Position × List Record
unfolding change_level
level_round c entry old_levels ts level position =
    change_level c entry (at level old_levels) ts level (at level position.levels)
      (live (lookup level position.foreign_legs)) position

-- The second loop: each live leg's quantity follows the protection.
pub resize_leg : ℕ → ForeignLeg → ForeignLeg
resize_leg rest leg =
    if leg.alive && not (nat_eq leg.quantity (leg.filled + rest))
    then record leg { quantity = leg.filled + rest }
    else leg

pub resize_records : ℕ → ℕ → ForeignLeg → List Record
resize_records rest ts leg =
    if leg.alive && not (nat_eq leg.quantity (leg.filled + rest))
    then resized (record leg { quantity = leg.filled + rest }) ts ∷ []
    else []

pub resize_legs : ℕ → ℕ → Dict Level ForeignLeg → Dict Level ForeignLeg × List Record
unfolding resize_leg resize_records
resize_legs rest ts [] = ([], [])
resize_legs rest ts ((level, leg) ∷ legs) =
    let (legs', records) = resize_legs rest ts legs in
    ((level, resize_leg rest leg) ∷ legs', resize_records rest ts leg ++ records)

pub change_levels : Callbacks → ℕ → Levels → ℕ → Position → Position × List Record
unfolding level_round resize_legs
change_levels c entry old_levels ts position =
    let (p1, stop) = level_round c entry old_levels ts stop_loss position in
    let (p2, target) = level_round c entry old_levels ts take_profit p1 in
    let (legs, sized) = resize_legs (rest p2) ts p2.foreign_legs in
    (record p2 { foreign_legs = legs }, stop ++ (target ++ sized))

-- `level_changes`, by the position's entry
pub changes_by : Option ℕ → Callbacks → Levels → ℕ → Position → Position × List Record
unfolding change_levels tell_entry_unknown
changes_by none c old_levels ts position = tell_entry_unknown position
changes_by (some entry) c old_levels ts position = change_levels c entry old_levels ts position

pub level_changes : Callbacks → Levels → ℕ → Position → Position × List Record
unfolding changes_by
level_changes c old_levels ts position = changes_by position.entry_order_id c old_levels ts position

-- One round of the loop of `open_legs`.
pub open_standing : Callbacks → ℕ → Level → Position → Position
unfolding open_leg
open_standing c entry level position =
    if is_some (at level position.levels)
      && not (is_some (live (lookup level position.foreign_legs)))
    then set_leg level (open_leg c entry level position) position
    else position

pub open_legs : Callbacks → Position → Position × List Record
unfolding open_standing tell_entry_unknown
open_legs c position = elim position.entry_order_id [
  | none ↦ tell_entry_unknown position
  | some entry ↦ (open_standing c entry take_profit (open_standing c entry stop_loss position), [])
]

-- `filled`: the leg's quantity is raised to cover the fill first.
pub fill_leg : ForeignLeg → ℕ → Fill → ForeignLeg × List Record
fill_leg leg volume fill =
    let raise : Bool = ltb leg.quantity (leg.filled + volume) in
    let quantity : ℕ = if raise then leg.filled + volume else leg.quantity in
    let leg' : ForeignLeg = record leg { quantity = quantity } in
    let told : Record =
      order_event (record (plain_event filled_kind (some leg.venue_order_id) none fill.ts_ms) {
        fill = some fill;
      }) in
    (
      record leg' {
        filled = leg.filled + volume;
        alive = leg.alive && ltb (leg.filled + volume) quantity;
      },
      (if raise then resized leg' fill.ts_ms ∷ [] else []) ++ told ∷ [],
    )

pub cancel_legs : ℕ → Dict Level ForeignLeg → Dict Level ForeignLeg × List Record
cancel_legs ts [] = ([], [])
cancel_legs ts ((level, leg) ∷ legs) =
    let (legs', records) = cancel_legs ts legs in
    (
      (level, record leg { alive = false }) ∷ legs',
      (if leg.alive then cancelled leg ts ∷ [] else []) ++ records,
    )

pub cancel_all : ℕ → Position → Position × List Record
unfolding cancel_legs
cancel_all ts position =
    let (legs, records) = cancel_legs ts position.foreign_legs in
    (record position { foreign_legs = legs }, records)
