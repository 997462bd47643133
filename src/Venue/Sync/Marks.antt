-- ===== src/Venue/Sync/Marks.antt =====
-- `_sync` leaves the marks of `apply` alone (common/venue_book.py).
use nautilus_ctrader_adapter.Prelude.{arith}
use nautilus_ctrader_adapter.Messages.{Order, ExecutionEvent}
use nautilus_ctrader_adapter.Operations.{OperationsInFlight}
use nautilus_ctrader_adapter.VenueState.{Book, Turn}
use nautilus_ctrader_adapter.VenueState.Marks.{SameMarks}
use nautilus_ctrader_adapter.Venue.Sync.{sync, sync_fill, position_for}

pub sync-marks :
    (event : ExecutionEvent) (order : Order) (t : Turn) → SameMarks t.book (sync event order t).book
unfolding sync sync_fill
sync-marks event order t = ground arith

pub position_for-marks :
    (event : ExecutionEvent) (order : Order) (operations : OperationsInFlight) (b : Book)
    → SameMarks b (position_for event order operations b).book
unfolding position_for
position_for-marks event order operations b = ground arith
