-- ===== src/Venue/Opening.antt =====
-- Events of orders that open or raise a position (common/venue_book.py: `_opening`, `_raises`,
-- `_entry_event`, `_unnamed_close`).
pub mod Entry
pub mod Marks
use nautilus_ctrader_adapter.Prelude.{
  ℕ, Bool, true, false, not, ◌&&◌, ◌||◌, Option, none, some, List, [], ◌∷◌, ◌++◌, ltb, nat_eq,
  if◌then◌else◌, is_some, get_or,
}
use nautilus_ctrader_adapter.Prelude.Eq.{Text, ℕ_eq, option_eq}
use nautilus_ctrader_adapter.Prelude.Dict.{Dict, erase, member, add}
use nautilus_ctrader_adapter.OrderRecord.{parse_label}
use nautilus_ctrader_adapter.LegId.{Level, stop_loss, take_profit}
use nautilus_ctrader_adapter.Messages.{
  ExecutionType, order_accepted, Order, Deal, ExecutionEvent, stated, deal_of,
}
use nautilus_ctrader_adapter.Records.{
  Record, notice, unnamed_close, filled_after_end, await_protection, order_event, plain_event,
  accepted, rejected, OrderEventKind, Fill, fill_of, Action, opened, closed, partially_closed,
  manual_change, stop_out, ByLevel, no_levels, any_level, at, volume_to_units,
}
use nautilus_ctrader_adapter.VenueState.{
  Position, Leg, ours, Book, Callbacks, Turn, Outcome, done, raised, ◌>>>◌,
}
use nautilus_ctrader_adapter.Venue.Foreign
use nautilus_ctrader_adapter.Venue.Legs.{
  level_changes, cancel_legs, closed_by, adopt, activity_of, waits,
}
use nautilus_ctrader_adapter.Venue.Sync.{is_fill, opened_of, opened_ms_of, sync}
use nautilus_ctrader_adapter.Venue.External.{
  ended_kind, or_raise, str_id, filled_event, ended_event, external_event,
}

-- A step that changes only the position.
abbrev pub on_position : (Position → Position × List Record) → Turn → Outcome
on_position f t = let (p, records) = f t.position in done (record t { position = p }) records

abbrev pub accepted_event : Order → Option Text → Record
accepted_event order client_order_id =
    order_event
      (plain_event accepted (some (str_id order)) client_order_id (stated order.last_update))

-- `_raises`
pub raises : Position → ExecutionEvent → Order → Bool
raises position event order =
    let stated_open : Option ℕ = elim event.position [
      | none ↦ none
      | some state ↦ opened_ms_of state
    ] in
    let opened_at : Option ℕ = if is_some stated_open then stated_open else position.opened_ms in
    if is_some (parse_label order.trade_data.label) then false else elim (opened_of order) [
      | none ↦ false
      | some created ↦ elim opened_at [ none ↦ false | some since ↦ ltb since created ]
    ]

-- `_unnamed_close`
abbrev pub unnamed : Position → Deal → Record
unnamed position deal =
    notice (unnamed_close (volume_to_units deal.filled_volume) position.position_id)

-- The acceptance of the entry, told once.
pub entry_accepted_step : Order → Turn → Outcome
entry_accepted_step order t =
    if t.position.entry_accepted
    then done t []
    else done (record t { position = record t.position { entry_accepted = true } })
        (accepted_event order t.position.entry_client_order_id ∷ [])

-- Levels that came before the fill accept the legs at the fill's time.
pub early_levels : ℕ → Position → Position × List Record
early_levels ts position =
    if is_some position.protective_order_id
    then level_changes no_levels false ts position
    else (position, [])

pub await_step : Position → Position × List Record
await_step position =
    if (waits (at stop_loss position.legs) || waits (at take_profit position.legs))
      && not position.awaiting_protection
    then (
      record position { awaiting_protection = true },
      await_protection position.position_id ∷ [],
    )
    else (position, [])

-- A fill of the entry.
pub entry_filled_step : Callbacks → ExecutionEvent → Order → ℕ → Turn → Outcome
unfolding entry_accepted_step early_levels await_step
entry_filled_step c event order precision t =
    or_raise (fill_of (deal_of event) precision c.money_digits) t (λ fill.
      entry_accepted_step order t
      >>> (λ t'. done t' (filled_event order t'.position.entry_client_order_id fill ∷ []))
      >>> on_position (early_levels fill.ts_ms)
      >>> on_position await_step)

abbrev is_rejected : OrderEventKind → Bool
is_rejected rejected = true
is_rejected _ = false

-- The legs of an entry that ended without leaving a position end with it.
pub cancel_unopened : OrderEventKind → ℕ → Position → Position × List Record
cancel_unopened ended ts position =
    if is_rejected ended || nat_eq position.volume 0
    then cancel_legs ts position
    else (position, [])

-- A never-opened entry that ended is dropped.
pub drop_unopened : Order → Turn → Turn
drop_unopened order t =
    if nat_eq t.position.volume 0 && not t.position.is_open
    then record t {
      book = record t.book {
        ended_entries = add order.order_id t.book.ended_entries;
        positions =
            if t.is_kept then erase t.position.position_id t.book.positions else t.book.positions;
      };
      is_kept = false;
    }
    else t

pub entry_ended_step : OrderEventKind → ExecutionEvent → Order → Turn → Outcome
unfolding cancel_unopened drop_unopened
entry_ended_step ended event order t =
    done t (ended_event ended event order t.position.entry_client_order_id ∷ [])
    >>> on_position (cancel_unopened ended (stated order.last_update))
    >>> (λ t'. done (drop_unopened order t') [])

-- `_entry_event`
pub entry_event : Callbacks → ExecutionEvent → Order → ℕ → Turn → Outcome
unfolding entry_accepted_step entry_filled_step entry_ended_step
entry_event c event order precision t = elim event.execution_type [
  | order_accepted ↦ entry_accepted_step order t
  | kind ↦
      if is_fill kind then entry_filled_step c event order precision t else elim (ended_kind kind) [
        | none ↦ done t []
        | some ended ↦ entry_ended_step ended event order t
      ]
]

abbrev pub is_entry : Position → Order → Bool
is_entry position order = option_eq position.entry_order_id (some order.order_id)

abbrev end_leg : Option Leg → Option Leg
end_leg none = none
end_leg (some leg) = some (record leg { alive = false })

-- A fill of an entry that had ended: its legs are not live again.
pub filled_late : Order → Position → Position × List Record
filled_late order position = (
  record position {
    entry_accepted = true;
    legs = record {
      at_stop_loss = end_leg (at stop_loss position.legs);
      at_take_profit = end_leg (at take_profit position.legs);
    };
  },
  notice (filled_after_end order.order_id) ∷ [],
)

-- Whether the order is taken as the entry of a position that has none.
pub learns : ExecutionEvent → Order → Position → Bool
unfolding raises
learns event order position =
    not (is_some position.entry_order_id) && not (raises position event order)

-- The end of the first fill of the entry.
pub note_fill : Bool → Bool → ExecutionEvent → Order → Position → Position
note_fill filled was_open event order position =
    if filled && not was_open && is_entry position order
    then record position { entry_filled_ms = some (deal_of event).execution_timestamp }
    else position

-- What `_opening` does before the order's own records.
pub opening_prelude : Bool → Bool → ExecutionEvent → Order → Turn → Outcome
unfolding filled_late note_fill
opening_prelude learnt ended event order t =
    let filled : Bool = is_fill event.execution_type in
    on_position (λ p. if learnt then adopt false [] order p else (p, [])) t
    >>> on_position (λ p. if ended then filled_late order p else (p, []))
    >>> (λ t'.
        let was_open : Bool = t'.position.is_open in
        let volume_before : ℕ = t'.position.volume in
        let synced = sync event order t' in
        let noted : Position = note_fill filled was_open event order synced.position in
        let reduced : Bool = was_open && (not noted.is_open || ltb noted.volume volume_before) in
        done (record synced { position = noted })
          (if filled && event.is_server_event && not order.is_stop_out && reduced
            then unnamed noted (deal_of event) ∷ []
            else []))

-- The records of an order that is not the position's own entry.
pub raise_step : Callbacks → Bool → ExecutionEvent → Order → ℕ → Turn → Outcome
raise_step c learnt event order precision t =
    let filled : Bool = is_fill event.execution_type in
    let deal : Deal = deal_of event in
    external_event c event order precision false t
    >>> (λ t'. done t' (
        if filled && ours t'.position && not event.is_server_event && not order.is_stop_out
        then activity_of manual_change t'.position opened deal.execution_timestamp
            (volume_to_units deal.filled_volume)
          ∷ []
        else []))
    >>> on_position (λ p.
      if learnt && any_level p.levels
      then Foreign.level_changes c no_levels (stated order.last_update) p
      else (p, []))

abbrev pub closing_action : Position → Action
closing_action position = if position.is_open then partially_closed else closed

pub stop_out_step : ExecutionEvent → Order → Turn → Outcome
stop_out_step event order t =
    let deal : Deal = deal_of event in
    done t (
      if is_fill event.execution_type && order.is_stop_out
      then activity_of stop_out t.position (closing_action t.position) deal.execution_timestamp
          (volume_to_units deal.filled_volume)
        ∷ []
      else [])

abbrev is_empty {ℓ} : {A : Type ℓ} → List A → Bool
is_empty [] = true
is_empty (a ∷ l) = false

-- The legs of a position that a fill closed.
pub close_opened : ExecutionEvent → Position → Position × List Record
close_opened event position =
    if is_fill event.execution_type
      && (any_level position.legs || not (is_empty position.foreign_legs))
      && not position.is_open
    then closed_by (deal_of event) position
    else (position, [])

-- `_opening`, on the event's position; `ended` says that the entry ended before.
pub opening : Callbacks → Bool → ExecutionEvent → Order → ℕ → Turn → Outcome
unfolding opening_prelude entry_event raise_step stop_out_step close_opened learns
opening c ended event order precision t =
    let learnt : Bool = learns event order t.position in
    opening_prelude learnt ended event order t
    >>> (λ t'.
        if ours t'.position && is_entry t'.position order
        then entry_event c event order precision t'
        else raise_step c learnt event order precision t')
    >>> stop_out_step event order
    >>> on_position (close_opened event)
