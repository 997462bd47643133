-- ===== src/Venue/External/Marks.antt =====
-- External orders' events leave the marks of `apply` alone (common/venue_book.py).
use nautilus_ctrader_adapter.Prelude.{ℕ, Bool, arith}
use nautilus_ctrader_adapter.Prelude.Eq.{ℕ_eq}
use nautilus_ctrader_adapter.Prelude.Dict.{member}
use nautilus_ctrader_adapter.Messages.{Order, ExecutionEvent, ExecutionType}
use nautilus_ctrader_adapter.VenueState.{Book, Callbacks, Turn, turn_of}
use nautilus_ctrader_adapter.VenueState.Marks.{SameMarks, Keeps}
use nautilus_ctrader_adapter.Venue.External.{
  external_event, external_step, keep_open_order, keep_pending, keep_newer, report_first,
}

keep_open_order-marks :
    (kind : ExecutionType) (order : Order) (known : Bool) (b : Book)
    → SameMarks b (keep_open_order kind order known b).1
unfolding keep_open_order keep_pending keep_newer
keep_open_order-marks kind order known b = ground arith

external_step-marks :
    (c : Callbacks) (event : ExecutionEvent) (order : Order) (precision : ℕ)
    (reduce known taken : Bool) (t : Turn)
    → SameMarks t.book (turn_of (external_step c event order precision reduce known taken t)).book
unfolding external_step report_first
external_step-marks c event order precision reduce known taken t = ground arith

pub external_event-marks :
    (c : Callbacks) (event : ExecutionEvent) (order : Order) (precision : ℕ) (reduce : Bool)
    (t : Turn)
    → Keeps t.book (external_event c event order precision reduce t)
unfolding external_event
external_event-marks c event order precision reduce t =
    let known = member order.order_id t.book.reported in
    let kept = keep_open_order event.execution_type order known t.book in
    ground (
      arith,
      keep_open_order-marks event.execution_type order known t.book,
      external_step-marks c event order precision reduce known kept.0 (record t { book = kept.1 }),
    )
