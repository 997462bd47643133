-- ===== src/Venue/Legs.antt =====
-- The node's own legs (common/venue_book.py: `_adopt`, `_level_changes`, `_cancel_legs`,
-- `_closed_by`, and what `reject_legs` and `cancel_leg` do to a position).
pub mod Changes
pub mod Ends
pub mod Accepted
pub mod Retired
use nautilus_ctrader_adapter.Prelude.{
  ℕ, ◌+◌, Bool, true, false, not, ◌&&◌, Option, none, some, List, [], ◌∷◌, ◌++◌, nat_eq,
  if◌then◌else◌, is_some, any,
}
use nautilus_ctrader_adapter.Prelude.Eq.{Text, Text_eq, option_eq}
use nautilus_ctrader_adapter.Prelude.Dict.{member}
use nautilus_ctrader_adapter.Prelude.Int.{ℤ, ℤ_eq}
use nautilus_ctrader_adapter.LegId.{Level, stop_loss, take_profit, leg_venue_order_id}
use nautilus_ctrader_adapter.OrderRecord.{LegIds, parse_label, parse_comment, Result, ok, err}
use nautilus_ctrader_adapter.Messages.{Order, Deal}
use nautilus_ctrader_adapter.Records.{
  Record, order_event, activity, notice, unreadable_legs, OrderEvent, OrderEventKind, plain_event,
  Fill, accepted, updated, canceled, rejected, Activity, ActivityKind, Action, position_subject,
  manual_change, level_added, level_moved, level_removed, ByLevel, Levels, no_levels, at, set_at,
  leg_prices, volume_to_units,
}
use nautilus_ctrader_adapter.VenueState.{Position, Leg}
use nautilus_ctrader_adapter.Venue.Foreign.{cancel_all}

-- `_leg_id`
abbrev pub leg_id : Position → Level → Option Text
leg_id position level = elim position.entry_order_id [
  | none ↦ none
  | some entry ↦ leg_venue_order_id entry level 1
]

-- `_leg_event`; `leg` is the position's leg at `level`.
pub leg_event :
    OrderEventKind → Position → Level → Leg → ℕ → Option ℕ → Option ℤ → Option Fill → Record
leg_event kind position level leg ts_ms quantity price fill =
    let (limit, trigger) = leg_prices level price in
    order_event
      (record (plain_event kind (leg_id position level) (some leg.client_order_id) ts_ms) {
        fill = fill;
        quantity = quantity;
        price = limit;
        trigger_price = trigger;
      })

-- `_activity`, of the position's volume
pub activity_of : ActivityKind → Position → Action → ℕ → ℕ → Record
activity_of kind position action ts_ms units = activity (record {
  kind = kind;
  symbol_id = position.symbol_id;
  subject = position_subject;
  side = position.side;
  units = units;
  action = action;
  ts_ms = ts_ms;
})

abbrev pub set_leg : Level → Leg → Position → Position
set_leg level leg position = record position { legs = set_at level leg position.legs }

-- A manual change, told only of a trader's own.
abbrev pub told_manual : Bool → Position → Action → ℕ → List Record
told_manual manual position action ts =
    if manual
    then activity_of manual_change position action ts (volume_to_units position.volume) ∷ []
    else []

-- `leg is not None and leg.alive`
abbrev pub live_leg : Option Leg → Option Leg
live_leg none = none
live_leg (some leg) = if leg.alive then some leg else none

abbrev pub waits : Option Leg → Bool
waits none = false
waits (some leg) = leg.alive && not leg.accepted

-- The change of a level that no live leg waits for, by the old price, the new one and the live leg.
pub change_known :
    Bool → ℕ → Level → Option ℤ → Option ℤ → Option Leg → Position → Position × List Record
unfolding leg_event activity_of
change_known manual ts level old none none position =
    (position, told_manual manual position level_removed ts)
change_known manual ts level old none (some leg) position = (
  set_leg level (record leg { alive = false }) position,
  leg_event canceled position level leg ts none none none
      ∷ told_manual manual position level_removed ts,
)
change_known manual ts level none (some new) leg position =
    (position, told_manual manual position level_added ts)
change_known manual ts level (some old) (some new) none position =
    (position, told_manual manual position level_moved ts)
change_known manual ts level (some old) (some new) (some leg) position =
    let quantity : ℕ = leg.filled + position.protective_volume in
    (
      set_leg level (record leg { quantity = quantity }) position,
      leg_event updated position level leg ts (some (volume_to_units quantity)) (some new) none
          ∷ told_manual manual position level_moved ts,
    )

-- One round of the first loop of `_level_changes`, by the level's new price and its live leg.
pub change_leg :
    Bool → ℕ → Level → Option ℤ → Option ℤ → Option Leg → Position → Position × List Record
unfolding change_known
change_leg manual ts level old (some new) (some leg) position =
    if leg.accepted
    then if option_eq old (some new)
      then (position, [])
      else change_known manual ts level old (some new) (some leg) position
    else let quantity : ℕ = leg.filled + position.protective_volume in
      (
        set_leg level (record leg { accepted = true; quantity = quantity }) position,
        leg_event accepted position level leg ts (some (volume_to_units quantity)) (some new) none
            ∷ told_manual manual position (if is_some old then level_moved else level_added) ts,
      )
change_leg manual ts level old new leg position =
    if option_eq old new then (position, []) else change_known manual ts level old new leg position

pub leg_round : Levels → Bool → ℕ → Level → Position → Position × List Record
unfolding change_leg
leg_round old_levels manual ts level position =
    change_leg manual ts level (at level old_levels) (at level position.levels)
      (live_leg (at level position.legs)) position

-- One round of the second loop: an accepted leg's quantity follows the protective order.
pub size_leg : ℕ → Level → Option Leg → Position → Position × List Record
unfolding leg_event
size_leg ts level none position = (position, [])
size_leg ts level (some leg) position =
    let quantity : ℕ = leg.filled + position.protective_volume in
    if leg.alive && leg.accepted && not (nat_eq leg.quantity quantity)
    then (
      set_leg level (record leg { quantity = quantity }) position,
      leg_event updated position level leg ts (some (volume_to_units quantity)) none none ∷ [],
    )
    else (position, [])

-- `_level_changes`
pub level_changes : Levels → Bool → ℕ → Position → Position × List Record
unfolding leg_round size_leg
level_changes old_levels manual ts position =
    let (p1, stop) = leg_round old_levels manual ts stop_loss position in
    let (p2, target) = leg_round old_levels manual ts take_profit p1 in
    let (p3, stop_sized) = size_leg ts stop_loss (at stop_loss p2.legs) p2 in
    let (p4, target_sized) = size_leg ts take_profit (at take_profit p3.legs) p3 in
    (p4, stop ++ (target ++ (stop_sized ++ target_sized)))

-- One round of `_cancel_legs`.
pub cancel_round : ℕ → Level → Option Leg → Position → Position × List Record
unfolding leg_event
cancel_round ts level none position = (position, [])
cancel_round ts level (some leg) position =
    if leg.alive
    then (
      set_leg level (record leg { alive = false }) position,
      leg_event canceled position level leg ts none none none ∷ [],
    )
    else (position, [])

-- `_cancel_legs`
pub cancel_legs : ℕ → Position → Position × List Record
unfolding cancel_round
cancel_legs ts position =
    let (p1, stop) = cancel_round ts stop_loss (at stop_loss position.legs) position in
    let (p2, target) = cancel_round ts take_profit (at take_profit p1.legs) p1 in
    (p2, stop ++ target)

-- `_closed_by`
pub closed_by : Deal → Position → Position × List Record
unfolding cancel_legs
closed_by deal position =
    let ts : ℕ = deal.execution_timestamp in
    let (p1, own) =
      cancel_legs ts (record position { protective_order_id = none; levels = no_levels }) in
    let (p2, foreign) = cancel_all ts p1 in (p2, own ++ foreign)

-- One leg of `_adopt`.
abbrev new_leg : Text → Bool → Bool → ℕ → Leg
new_leg client_order_id alive told quantity = record {
  client_order_id = client_order_id;
  alive = alive;
  accepted = told;
  quantity = quantity;
  filled = 0;
}

pub adopt_leg : Bool → List Text → Level → Option Text → Position → Position
adopt_leg restored waiting level none position = position
adopt_leg false waiting level (some client_order_id) position =
    set_leg level (new_leg client_order_id true false 0) position
adopt_leg true waiting level (some client_order_id) position =
    if is_some (at level position.levels)
    then set_leg level (new_leg client_order_id true true position.volume) position
    else set_leg level (new_leg client_order_id (member client_order_id waiting) false 0) position

pub adopt_legs : Bool → List Text → LegIds → Position → Position
unfolding adopt_leg
adopt_legs restored waiting legs position =
    adopt_leg restored waiting take_profit legs.take_profit
      (adopt_leg restored waiting stop_loss legs.stop_loss position)

-- `parse_comment` as it is called: a comment that it would raise on counts as none.
abbrev legs_record : Text → Option LegIds
legs_record comment = elim (parse_comment comment) [ ok legs ↦ legs | err e ↦ none ]

-- `_adopt`
pub adopt : Bool → List Text → Order → Position → Position × List Record
unfolding adopt_legs
adopt restored waiting entry position =
    let p1 : Position = record position { entry_order_id = some entry.order_id } in
    elim (parse_label entry.trade_data.label) [
      | none ↦ (p1, [])
      | some entry_id ↦
          let p2 : Position = record p1 {
            entry_client_order_id = some entry_id;
            entry_accepted = restored;
          } in
          elim (legs_record entry.trade_data.comment) [
            | none ↦ (p2, notice (unreadable_legs position.position_id) ∷ [])
            | some legs ↦ (adopt_legs restored waiting legs p2, [])
          ]
    ]

-- One round of `reject_legs`.
unfoldable pub reject_round : Text → ℕ → Level → Option Leg → Position → Position × List Record
reject_round reason ts level none position = (position, [])
reject_round reason ts level (some leg) position =
    if leg.alive && not leg.accepted
    then (
      set_leg level (record leg { alive = false }) position,
      order_event
            (record (plain_event rejected (leg_id position level) (some leg.client_order_id) ts) {
              reason = some reason;
            })
          ∷ [],
    )
    else (position, [])
