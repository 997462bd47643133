-- ===== src/Tests/Applied.antt =====
-- Events applied to a concrete position.
use nautilus_ctrader_adapter.Records.{levels_of}
use nautilus_ctrader_adapter.Records.{quantize}
use nautilus_ctrader_adapter.Venue.Sync.{position_for}
use nautilus_ctrader_adapter.Records.{price_of}
use nautilus_ctrader_adapter.Venue.Apply.{finish}
use nautilus_ctrader_adapter.Venue.Apply.{unloaded}
use nautilus_ctrader_adapter.Records.{fill_of}
use nautilus_ctrader_adapter.Prelude.{
  ◌≡◌, refl, true, false, none, some, List, [], ◌∷◌, ◌++◌, if◌then◌else◌,
}
use nautilus_ctrader_adapter.Prelude.Eq.{ℕ_eq}
use nautilus_ctrader_adapter.Prelude.Dict.{lookup, member}
use nautilus_ctrader_adapter.Messages.{
  OrderType, ExecutionType, order_accepted, order_filled, order_replaced, nan, Order,
  ExecutionEvent,
}
use nautilus_ctrader_adapter.Records.{rejected, Record}
use nautilus_ctrader_adapter.VenueState.{told, turn_of, empty_book}
use nautilus_ctrader_adapter.Venue.Sync.{key_of}
use nautilus_ctrader_adapter.Venue.Unloaded.{unloaded_records}
use nautilus_ctrader_adapter.Venue.Apply.{apply, apply_order, handle, handled, unchanged, is_repeat}
use nautilus_ctrader_adapter.Venue.Apply.Marks.{Happening, comes, happen_all}
use nautilus_ctrader_adapter.Venue.Legs.Accepted.{accepts}
use nautilus_ctrader_adapter.Messages.{order_partial_fill}
use nautilus_ctrader_adapter.Venue.Apply.Dedupe.{apply_again, apply-deal_once}
use nautilus_ctrader_adapter.Venue.Apply.Retry.{apply_order-retried}
use nautilus_ctrader_adapter.Venue.Opening.{entry_filled_step, entry_ended_step, accepted_event}
use nautilus_ctrader_adapter.Venue.Opening.Entry.{
  entry_filled_step-told, entry_told, entry_ended_step-drops,
}
use nautilus_ctrader_adapter.Venue.External.{filled_event}
use nautilus_ctrader_adapter.Venue.Legs.Ends.{NoLive}
use nautilus_ctrader_adapter.Venue.Protective.{protective, protective_state, protective_set}
use nautilus_ctrader_adapter.Tests.Data

abbrev unloaded_order : Order
unloaded_order = Data.order_of 6 OrderType.limit 2

abbrev unloaded_event : ExecutionEvent
unloaded_event = Data.event_of order_accepted unloaded_order none

-- Another event comes in between.
abbrev meanwhile : List Happening
meanwhile =
    comes Data.callbacks (Data.event_of order_replaced Data.protection none) Data.no_operations ∷ []

apply_again_example :
    let book' =
      happen_all meanwhile
        (apply Data.callbacks unloaded_event Data.no_operations empty_book).book in
    apply Data.callbacks unloaded_event Data.no_operations book'
    ≡ unchanged book' Data.no_operations
unfolding apply apply_order is_repeat handle unloaded handled key_of
apply_again_example =
    apply_again Data.callbacks Data.callbacks unloaded_event unloaded_order Data.no_operations
      Data.no_operations empty_book (unloaded_records unloaded_event unloaded_order) meanwhile refl
      refl refl

-- A deal of an order of a symbol that is not loaded, and another event of the same deal.
abbrev filled_unloaded : ExecutionEvent
filled_unloaded = Data.event_of order_filled unloaded_order (some Data.deal)

abbrev filled_other : ExecutionEvent
filled_other = Data.event_of order_partial_fill unloaded_order (some Data.deal)

apply-deal_once_example :
    let book' =
      happen_all meanwhile
        (apply Data.callbacks filled_unloaded Data.no_operations empty_book).book in
    apply Data.callbacks filled_other Data.no_operations book' ≡ unchanged book' Data.no_operations
unfolding apply apply_order is_repeat handle unloaded handled key_of
apply-deal_once_example =
    apply-deal_once Data.callbacks Data.callbacks filled_unloaded filled_other unloaded_order
      unloaded_order Data.no_operations Data.no_operations empty_book
      (unloaded_records filled_unloaded unloaded_order) meanwhile refl refl refl refl refl refl refl
      refl

-- A protective order whose price is no number.
abbrev unreadable : Order
unreadable = record Data.protection { stop_price = some nan }

abbrev unreadable_event : ExecutionEvent
unreadable_event = Data.event_of order_replaced unreadable none

apply_order-retried_example :
    let book' =
      (apply_order Data.callbacks unreadable_event unreadable Data.no_operations Data.book).book in
    apply_order Data.callbacks unreadable_event unreadable Data.no_operations book'
    ≡ handled unreadable_event unreadable
        (handle Data.callbacks unreadable_event unreadable Data.no_operations book')
unfolding apply_order is_repeat handle handled finish position_for protective protective_state
    protective_set levels_of price_of
apply_order-retried_example =
    apply_order-retried Data.callbacks Data.callbacks unreadable_event unreadable Data.no_operations
      Data.no_operations Data.book refl

abbrev fill_event : ExecutionEvent
fill_event = Data.event_of order_filled Data.entry (some Data.deal)

entry_filled_step-told_example :
    let t = Data.turn_on Data.own in
    let outcome = entry_filled_step Data.callbacks fill_event Data.entry 2 t in
    let id = t.position.entry_client_order_id in
    ((more : List Record) × (told outcome
        ≡ (if t.position.entry_accepted then [] else accepted_event Data.entry id ∷ [])
          ++ filled_event Data.entry id Data.fill ∷ more)
      × (accepts more ≡ false))
    × (accepts (entry_told Data.callbacks ((fill_event, Data.entry, 2) ∷ []) (turn_of outcome))
        ≡ false)
unfolding fill_of price_of quantize
entry_filled_step-told_example =
    entry_filled_step-told Data.callbacks fill_event Data.entry 2 (Data.turn_on Data.own) Data.fill
      ((fill_event, Data.entry, 2) ∷ []) refl

entry_ended_step-drops_example :
    let p = record Data.own { volume = 0; is_open = false } in
    let t' = turn_of (
      entry_ended_step rejected
        (Data.event_of ExecutionType.order_rejected Data.entry none)
        Data.entry
        (Data.turn_on p)) in
    (lookup 3 t'.book.positions ≡ none)
    × (t'.is_kept ≡ false)
    × (member 7 t'.book.ended_entries ≡ true)
    × NoLive t'.position.legs
entry_ended_step-drops_example =
    entry_ended_step-drops rejected (Data.event_of ExecutionType.order_rejected Data.entry none)
      Data.entry (Data.turn_on (record Data.own { volume = 0; is_open = false })) refl refl refl
