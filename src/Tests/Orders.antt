-- ===== src/Tests/Orders.antt =====
-- Orders of a concrete position: externals, closes, protective orders, the entry.
use nautilus_ctrader_adapter.Records.{quantize}
use nautilus_ctrader_adapter.Records.{price_of}
use nautilus_ctrader_adapter.Prelude.{
  ℕ, ◌≡◌, refl, true, false, none, some, [], ◌∷◌, arith, any, ◌≢◌, ◌&&◌, ◌||◌, Bool, List,
}
use nautilus_ctrader_adapter.Prelude.Eq.{codes, ℕ_eq}
use nautilus_ctrader_adapter.Prelude.Dict.{lookup, member}
use nautilus_ctrader_adapter.Prelude.Int.{pos}
use nautilus_ctrader_adapter.LegId.{stop_loss, take_profit}
use nautilus_ctrader_adapter.Messages.{
  OrderType, order_accepted, order_replaced, order_cancelled, Order,
}
use nautilus_ctrader_adapter.Records.{levels_of, at, Exposure, order_subject}
use nautilus_ctrader_adapter.Messages.{buy}
use nautilus_ctrader_adapter.VenueState.{Book, Turn, told, turn_of, done, is_done, empty_book}
use nautilus_ctrader_adapter.Venue.External.{keep_open_order, external_event}
use nautilus_ctrader_adapter.Venue.External.Known.{
  keep_all, keep_open_order-ended, external_event-reports_once, is_report, after_all,
}
use nautilus_ctrader_adapter.Venue.Closing.{match_order}
use nautilus_ctrader_adapter.Venue.Closing.Match.{Matched, match_order-OneOrder}
use nautilus_ctrader_adapter.Venue.Protective.{protective, protective_set}
use nautilus_ctrader_adapter.Venue.Protective.Trailing.{protective_set-levels}
use nautilus_ctrader_adapter.Messages.{ExecutionEvent}
use nautilus_ctrader_adapter.Venue.Protective.Retired
use nautilus_ctrader_adapter.Venue.Protective.Retired.{protective-supersedes}
use nautilus_ctrader_adapter.Venue.Orders.{entry_of}
use nautilus_ctrader_adapter.Venue.Orders.Earliest.{entry_of-same}
use nautilus_ctrader_adapter.Tests.Data

abbrev pending_order : Order
pending_order = Data.order_of 6 OrderType.limit 1

abbrev holding : Book
holding = record empty_book { open_orders = (6, pending_order) ∷ []; reported = 6 ∷ [] }

-- Cancelled, then a late replace.
keep_open_order-ended_example :
    lookup 6
      (keep_all
        ((order_replaced, pending_order) ∷ [])
        (keep_open_order order_cancelled pending_order true holding).1).open_orders
    ≡ none
keep_open_order-ended_example =
    keep_open_order-ended order_cancelled pending_order ((order_replaced, pending_order) ∷ []) true
      holding refl refl (refl, tt)

-- The end of another external order comes in between.
abbrev foreign_cancel : List (ExecutionEvent × Order × ℕ × Bool)
foreign_cancel = (Data.event_of order_cancelled Data.close none, Data.close, 2, true) ∷ []

external_event-reports_once_example :
    let event = Data.event_of order_accepted pending_order none in
    let outcome =
      external_event Data.callbacks event pending_order 2 false (Data.turn_on Data.own) in
    (any is_report (told outcome) ≡ (is_done outcome && true && true))
    × (is_done outcome ≡ true
        → member 6 (turn_of outcome).book.reported ≡ (any is_report (told outcome) || false))
    × (is_done outcome && (any is_report (told outcome) || false) ≡ true
        → (event' : ExecutionEvent) (order' : Order) (precision' : ℕ) (reduce' : Bool)
        → order'.order_id ≡ 6
        → any is_report (
            told (
              external_event Data.callbacks event' order' precision' reduce'
                (after_all Data.callbacks foreign_cancel (turn_of outcome))))
          ≡ false)
external_event-reports_once_example =
    external_event-reports_once Data.callbacks (Data.event_of order_accepted pending_order none)
      pending_order 2 false (Data.turn_on Data.own) foreign_cancel

-- A close of the node's in flight, and the broker's order for it.
abbrev closing_turn : Turn
closing_turn = record (Data.turn_on Data.own) {
  operations = record Data.no_operations {
    closes =
        (codes "C-1", record { close_position = 3; close_volume = 1000; anchor_ms = none }) ∷ [];
  };
}

match_order-OneOrder_example :
    Matched
      (Data.event_of order_accepted Data.close none)
      Data.close
      closing_turn
      (match_order (Data.event_of order_accepted Data.close none) Data.close closing_turn)
match_order-OneOrder_example =
    match_order-OneOrder (Data.event_of order_accepted Data.close none) Data.close closing_turn
      (λ i j id a b. ground (arith, a))

-- A state from before the trailing move.
protective_set-levels_example :
    let p =
      (turn_of (protective_set Data.protection 2 Data.own (Data.turn_on Data.own))).position in
    (at take_profit p.levels ≡ none)
    × (at stop_loss p.levels ≡ some (pos 150))
    × (p.protective_order_id ≡ some 9)
    × ((old : ℕ)
        → Data.own.protective_order_id ≡ some old
        → old ≢ 9
        → member old p.retired_protective_ids ≡ true)
    × ((old : ℕ)
        → member old Data.own.retired_protective_ids ≡ true
        → member old p.retired_protective_ids ≡ true)
unfolding levels_of price_of quantize
protective_set-levels_example =
    protective_set-levels Data.protection 2 (Data.turn_on Data.own) (Data.stop_levels 150) refl

-- Another protective order is accepted, then a third, and then an old state of the first comes.
abbrev second_protection : Order
second_protection = Data.order_of 10 OrderType.stop_loss_take_profit 1

abbrev third : List (ExecutionEvent × Order × ℕ)
third =
    let order = Data.order_of 11 OrderType.stop_loss_take_profit 1 in
    (Data.event_of order_accepted order none, order, 2) ∷ []

protective-supersedes_example :
    let taking = Data.event_of order_accepted second_protection none in
    let event = Data.event_of order_replaced Data.protection none in
    let t' =
      Retired.after_all Data.callbacks third
        (turn_of (protective Data.callbacks taking second_protection 2 (Data.turn_on Data.own))) in
    protective Data.callbacks event Data.protection 2 t' ≡ done t' []
protective-supersedes_example =
    protective-supersedes Data.callbacks (Data.event_of order_accepted second_protection none)
      (Data.event_of order_replaced Data.protection none) Data.protection second_protection 2 2
      (Data.turn_on Data.own) third refl refl (λ e. ground (arith, e)) refl refl

abbrev exposed : Exposure
exposed = record { symbol_id = 2; subject = order_subject; side = buy; units = 1000 }

-- Two orders of one position, listed both ways.
entry_of-same_example :
    entry_of (Data.entry ∷ pending_order ∷ []) ≡ entry_of (pending_order ∷ Data.entry ∷ [])
entry_of-same_example =
    entry_of-same (Data.entry ∷ pending_order ∷ []) (pending_order ∷ Data.entry ∷ [])
      (λ o. (λ m. ground (arith, m), λ m. ground (arith, m)))
      (λ o o' m m' e. ground (arith, m, m', e))
