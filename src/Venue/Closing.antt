-- ===== src/Venue/Closing.antt =====
-- Events of closing orders (common/venue_book.py: `_closing`, `_node_close`, `_close_activity`).
pub mod Match
pub mod Marks
use nautilus_ctrader_adapter.Prelude.{
  ℕ, Bool, true, false, not, ◌&&◌, ◌||◌, Option, none, some, List, [], ◌∷◌, ◌++◌, nat_eq,
  if◌then◌else◌, is_some, any,
}
use nautilus_ctrader_adapter.Prelude.Eq.{Text, ℕ_eq, text_eq}
use nautilus_ctrader_adapter.Prelude.Dict.{Dict, lookup, insert, member, add}
use nautilus_ctrader_adapter.Messages.{
  ExecutionType, order_accepted, Order, Deal, ExecutionEvent, deal_of,
}
use nautilus_ctrader_adapter.Records.{
  Record, ActivityKind, Fill, fill_of, manual_change, stop_out, volume_to_units,
}
use nautilus_ctrader_adapter.VenueState.{
  Position, ours, Book, Callbacks, Turn, Outcome, done, raised, ◌>>>◌,
}
use nautilus_ctrader_adapter.Operations.{closing as operations_closing}
use nautilus_ctrader_adapter.Venue.Legs.{closed_by, activity_of}
use nautilus_ctrader_adapter.Venue.Sync.{is_fill, created_of, sync}
use nautilus_ctrader_adapter.Venue.External.{
  ended_kind, or_raise, filled_event, ended_event, external_event,
}
use nautilus_ctrader_adapter.Venue.Opening.{on_position, accepted_event, unnamed, closing_action}

-- `close_id in self._closes.values()`
unfoldable pub names_close : Text → Dict ℕ Text → Bool
names_close close_id [] = false
names_close close_id ((order_id, id) ∷ closes) = text_eq id close_id || names_close close_id closes

abbrev pub record_close : ℕ → ℕ → Text → Book → Book
record_close order_id position_id close_id book = record book {
  closes = insert order_id close_id book.closes;
  close_positions = insert order_id position_id book.close_positions;
}

-- The close an order is matched to now, if it may be the node's and names none already.
pub match_candidate : ExecutionEvent → Order → Turn → Option Text
unfolding names_close
match_candidate event order t =
    if event.is_server_event || order.is_stop_out || member order.order_id t.book.reported
    then none
    else elim (operations_closing t.position.position_id order.trade_data.volume (created_of order)
        order.order_id t.operations) [
          | none ↦ none
          | some candidate ↦ if names_close candidate t.book.closes then none else some candidate
        ]

-- The node's close that the order is, matched before or now.
pub match_order : ExecutionEvent → Order → Turn → Option Text × Turn
unfolding match_candidate
match_order event order t = elim (lookup order.order_id t.book.closes) [
  | some close_id ↦ (some close_id, t)
  | none ↦ elim (match_candidate event order t) [
    | none ↦ (none, t)
    | some candidate ↦ (
      some candidate,
      record t { book = record_close order.order_id t.position.position_id candidate t.book },
    )
  ]
]

-- The acceptance of a close, told once.
pub close_accepted_step : Order → Text → Turn → Outcome
close_accepted_step order close_id t =
    if member order.order_id t.book.closes_accepted
    then done t []
    else done
        (record t {
          book = record t.book { closes_accepted = add order.order_id t.book.closes_accepted };
        })
        (accepted_event order (some close_id) ∷ [])

-- `_node_close`
pub node_close : Callbacks → ExecutionEvent → Order → Text → ℕ → Turn → Outcome
unfolding close_accepted_step
node_close c event order close_id precision t = elim event.execution_type [
  | order_accepted ↦ close_accepted_step order close_id t
  | kind ↦
      if is_fill kind
      then or_raise (fill_of (deal_of event) precision c.money_digits) t (λ fill.
        close_accepted_step order close_id t
        >>> (λ t'. done t' (filled_event order (some close_id) fill ∷ [])))
      else elim (ended_kind kind) [
        | none ↦ done t []
        | some ended ↦ done t (ended_event ended event order (some close_id) ∷ [])
      ]
]

-- `_close_activity`
pub close_activity : ExecutionEvent → Order → Position → List Record
close_activity event order position =
    let deal : Deal = deal_of event in
    let told = λ (kind : ActivityKind).
      activity_of kind position (closing_action position) deal.execution_timestamp
        (volume_to_units deal.filled_volume)
      ∷ [] in
    if order.is_stop_out
    then told stop_out
    else if ours position && not event.is_server_event
    then told manual_change
    else []

-- A close that is not the node's: an external order, and what it did to the position.
pub foreign_close : Callbacks → ExecutionEvent → Order → ℕ → Turn → Outcome
unfolding close_activity
foreign_close c event order precision t = external_event c event order precision true t >>> (λ t'.
    done t' (if is_fill event.execution_type then close_activity event order t'.position else []))

pub close_step : Callbacks → ExecutionEvent → Order → ℕ → Option Text → Turn → Outcome
unfolding node_close foreign_close
close_step c event order precision none t = foreign_close c event order precision t
close_step c event order precision (some close_id) t = node_close c event order close_id precision t

-- `_closing`, on the event's position
pub closing : Callbacks → ExecutionEvent → Order → ℕ → Turn → Outcome
unfolding match_order close_step
closing c event order precision t =
    let filled : Bool = is_fill event.execution_type in
    let (close_id, matched) = match_order event order (sync event order t) in
    done matched (
      if filled && event.is_server_event && not order.is_stop_out
      then unnamed matched.position (deal_of event) ∷ []
      else [])
    >>> close_step c event order precision close_id
    >>> on_position (λ p. if filled && not p.is_open then closed_by (deal_of event) p else (p, []))
