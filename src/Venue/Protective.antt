-- ===== src/Venue/Protective.antt =====
-- Events of the protective order, which holds a position's levels (common/venue_book.py:
-- `_protective`, `_triggered`, `trailing_stop_moved`).
pub mod Trailing
pub mod Retired
pub mod Marks
use nautilus_ctrader_adapter.Prelude.{
  ℕ, ◌+◌, ◌-◌, Bool, true, false, not, ◌&&◌, ◌||◌, Option, none, some, List, [], ◌∷◌, ◌++◌, ltb,
  leb, nat_eq, if◌then◌else◌, is_some,
}
use nautilus_ctrader_adapter.Prelude.Eq.{Text, ℕ_eq, option_eq}
use nautilus_ctrader_adapter.Prelude.Dict.{Dict, lookup, insert, member, add}
use nautilus_ctrader_adapter.Prelude.Int.{ℤ}
use nautilus_ctrader_adapter.LegId.{Level, stop_loss, take_profit, Level_eq}
use nautilus_ctrader_adapter.Messages.{
  ExecutionType, order_accepted, order_replaced, order_cancelled, Order, Deal, ExecutionEvent,
  stated, deal_of,
}
use nautilus_ctrader_adapter.Records.{
  Record, notice, filled_after_retired, no_level_known, inverted_levels, external_order, filled,
  Fill, fill_of, ExternalType, Levels, levels_of, which_level, no_levels, any_level, at, set_at,
}
use nautilus_ctrader_adapter.VenueState.{
  Position, Leg, ForeignLeg, ours, Book, Callbacks, Turn, Outcome, done, raised, ◌>>>◌, is_before,
  latest,
}
use nautilus_ctrader_adapter.Operations.{late_amend, amending}
use nautilus_ctrader_adapter.Venue.Foreign
use nautilus_ctrader_adapter.Venue.Foreign.{live, fill_leg}
use nautilus_ctrader_adapter.Venue.Legs.{level_changes, closed_by, leg_event, live_leg, set_leg}
use nautilus_ctrader_adapter.Venue.Sync.{is_fill, opened_of, remaining_of, sync}
use nautilus_ctrader_adapter.Venue.External.{or_raise, report, report_with, filled_event}
use nautilus_ctrader_adapter.Venue.Opening.{on_position}

-- The levels to read a fill by: the order's own, else the position's.
abbrev fill_levels : Levels → Position → Levels
fill_levels own position = if any_level own then own else position.levels

-- The level a fill triggered, and the notice it comes with.
pub read_trigger : Position → Levels → ℤ → Option Level × List Record
read_trigger position levels fill_price =
    if any_level levels
    then (let (level, inverted) = which_level position.side levels fill_price in
        (
          some level,
          elim inverted [
            | none ↦ []
            | some (stop, target) ↦ notice (inverted_levels stop target fill_price level) ∷ []
          ],
        ))
    else (none, notice (no_level_known fill_price) ∷ [])

abbrev trigger_type : Option Level → ExternalType
trigger_type none = ExternalType.market
trigger_type (some stop_loss) = ExternalType.stop_market
trigger_type (some take_profit) = ExternalType.limit

-- The node's own leg fills; one left with a remainder lives on.
pub fill_own : Level → Leg → ℕ → Fill → Position → Position × List Record
fill_own level leg volume fill position = (
  set_leg level
      (record leg {
        filled = leg.filled + volume;
        alive = leg.alive && ltb (leg.filled + volume) leg.quantity;
      })
      position,
  leg_event filled position level leg fill.ts_ms none none (some fill) ∷ [],
)

-- A fill that belongs to no live leg: of an order known from reports, or reported now.
pub fill_external : Order → Option Level → Levels → Fill → Turn → Outcome
fill_external order level levels fill t =
    if member order.order_id t.book.reported
    then done t (filled_event order none fill ∷ [])
    else done (report order t)
        (external_order (report_with order true (fill ∷ []) (trigger_type level) levels) ∷ [])

-- `position.legs.get(level)`, of the node's own position, if it is alive
pub own_leg : Option Level → Position → Option (Level × Leg)
own_leg none position = none
own_leg (some level) position = elim (live_leg (at level position.legs)) [
  | none ↦ none
  | some leg ↦ if ours position then some (level, leg) else none
]

-- `position.foreign_legs.get(level)`, of a foreign position, if it is alive
pub other_leg : Option Level → Position → Option (Level × ForeignLeg)
other_leg none position = none
other_leg (some level) position = elim (live (lookup level position.foreign_legs)) [
  | none ↦ none
  | some leg ↦ if ours position then none else some (level, leg)
]

pub fill_step : Order → Deal → Option Level → Levels → Fill → Turn → Outcome
unfolding fill_own fill_external own_leg other_leg
fill_step order deal level levels fill t = elim (own_leg level t.position) [
  | some (own_level, leg) ↦ on_position (fill_own own_level leg deal.filled_volume fill) t
  | none ↦ elim (other_leg level t.position) [
    | some (foreign_level, leg) ↦
        let (leg', records) = fill_leg leg deal.filled_volume fill in
        on_position (λ p. (Foreign.set_leg foreign_level leg' p, records)) t
    | none ↦ fill_external order level levels fill t
  ]
]

-- `_triggered`
pub triggered : Callbacks → ExecutionEvent → Order → ℕ → Turn → Outcome
unfolding read_trigger fill_step
triggered c event order precision t =
    let deal : Deal = deal_of event in
    or_raise (fill_of deal precision c.money_digits) t (λ fill.
      or_raise (levels_of order precision) t (λ own.
        let levels : Levels = fill_levels own t.position in
        let (level, notices) = read_trigger t.position levels fill.price in
        let synced = sync event order t in
        done
          (record synced {
            position = record synced.position {
              protective_volume = synced.position.protective_volume - deal.filled_volume;
            };
          })
          notices
        >>> fill_step order deal level levels fill
        >>> on_position (λ p. if p.is_open then (p, []) else closed_by deal p)))

-- The levels a protective order's state sets: a stop-loss older than a trailing move keeps it.
pub set_levels : Order → Levels → Position → Levels
set_levels order levels position = elim (at stop_loss position.levels) [
  | none ↦ levels
  | some trailed ↦ elim order.last_update [
    | none ↦ levels
    | some stamp ↦
        if option_eq (some order.order_id) position.protective_order_id
          && is_before stamp position.trailed_ms
          && is_some (at stop_loss levels)
        then set_at stop_loss trailed levels
        else levels
  ]
]

-- Another protective order takes over: the current one is retired.
pub retire_current : Order → Position → Position
retire_current order position = elim position.protective_order_id [
  | none ↦ position
  | some current ↦
      if nat_eq order.order_id current
      then position
      else record position { retired_protective_ids = add current position.retired_protective_ids }
]

-- The fields that a protective order's state sets before its prices are read.
pub take_protective : Order → Position → Position
unfolding retire_current
take_protective order position = record (retire_current order position) {
  protective_order_id = some order.order_id;
  protective_volume = remaining_of order;
  protective_opened_ms = opened_of order;
}

pub take_levels : Order → Levels → Position → Position
take_levels order levels position = record position {
  protective_ms = elim order.last_update [
    | none ↦ position.protective_ms
    | some stamp ↦ latest position.protective_ms stamp
  ];
  levels = levels;
  awaiting_protection = false;
}

-- An accepted or replaced protective order; `before` is the position before the event.
unfoldable pub protective_set : Order → ℕ → Position → Turn → Outcome
unfolding take_protective take_levels set_levels
protective_set order precision before t =
    let taken : Turn = record t { position = take_protective order t.position } in
    or_raise (levels_of order precision) taken (λ levels.
      done
        (record taken {
          position = take_levels order (set_levels order levels before) taken.position;
        })
        [])

pub protective_cancelled : Order → Position → Position
protective_cancelled order position = record position {
  retired_protective_ids = add order.order_id position.retired_protective_ids;
  protective_order_id = none;
  levels = no_levels;
}

-- The records of a level change that has been applied.
pub tell_levels : Callbacks → ExecutionEvent → Order → Levels → Turn → Outcome
tell_levels c event order old_levels t =
    let ts : ℕ = stated order.last_update in
    let (matched, operations) = late_amend t.position.position_id t.position.levels t.operations in
    let late : Bool = not event.is_server_event && matched in
    let asked : Turn = if event.is_server_event then t else record t { operations = operations } in
    let manual : Bool =
      not event.is_server_event
      && not late
      && not (amending t.position.position_id asked.operations) in
    if ours t.position
    then on_position (level_changes old_levels manual ts) asked
    else on_position (Foreign.level_changes c old_levels ts) asked

-- Whether a state is of a protective order that the broker has since replaced.
abbrev is_superseded : ExecutionType → Order → Option ℕ → Bool
is_superseded order_accepted order current = false
is_superseded kind order none = false
is_superseded kind order (some current) = not (nat_eq order.order_id current)

-- A protective order's new state; nothing for any other event.
unfoldable pub protective_state : ExecutionType → Order → ℕ → Turn → Option Outcome
unfolding protective_set protective_cancelled
protective_state order_accepted order precision t =
    some (protective_set order precision t.position t)
protective_state order_replaced order precision t =
    some (protective_set order precision t.position t)
protective_state order_cancelled order precision t =
    some (done (record t { position = protective_cancelled order t.position }) [])
protective_state _ order precision t = none

-- `_protective`
unfoldable pub protective : Callbacks → ExecutionEvent → Order → ℕ → Turn → Outcome
unfolding triggered protective_state tell_levels
protective c event order precision t =
    let retired : Bool = member order.order_id t.position.retired_protective_ids in
    if is_fill event.execution_type
    then done t (if retired then notice (filled_after_retired order.order_id) ∷ [] else [])
      >>> triggered c event order precision
    else if retired || is_superseded event.execution_type order t.position.protective_order_id
    then done t []
    else elim (protective_state event.execution_type order precision t) [
      | none ↦ done t []
      | some outcome ↦
          outcome
          >>> (λ t'. done (sync event order t') [])
          >>> tell_levels c event order t.position.levels
    ]
