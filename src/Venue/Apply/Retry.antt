-- ===== src/Venue/Apply/Retry.antt =====
-- An event whose handling raised is not marked (common/venue_book.py, `apply`).
use nautilus_ctrader_adapter.Prelude.{◌≡◌, none, arith}
use nautilus_ctrader_adapter.Messages.{Order, ExecutionEvent}
use nautilus_ctrader_adapter.Operations.{OperationsInFlight}
use nautilus_ctrader_adapter.VenueState.{Book, Callbacks}
use nautilus_ctrader_adapter.Venue.Apply.{apply_order, handle, handled, is_repeat}
use nautilus_ctrader_adapter.Venue.Apply.Marks.{handle-marks}

-- An event whose handling raised is not taken as seen: applied again, whatever the node waits on by
-- then, it is handled again, on the state that the raise left.
pub apply_order-retried :
    (c c' : Callbacks) (event : ExecutionEvent) (order : Order)
    (operations operations' : OperationsInFlight) (book : Book)
    → (apply_order c event order operations book).records ≡ none
    → let book' = (apply_order c event order operations book).book in
      apply_order c' event order operations' book'
      ≡ handled event order (handle c' event order operations' book')
unfolding apply_order handled is_repeat
apply_order-retried c c' event order operations operations' book h =
    ground (arith, handle-marks c event order operations book)
