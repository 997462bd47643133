-- ===== src/Venue/Closing/Marks.antt =====
-- Events of closing orders leave the marks of `apply` alone (common/venue_book.py).
use nautilus_ctrader_adapter.Prelude.{ℕ, true, Option, none, some, arith}
use nautilus_ctrader_adapter.Prelude.Eq.{Text}
use nautilus_ctrader_adapter.Messages.{Order, ExecutionEvent}
use nautilus_ctrader_adapter.VenueState.{Callbacks, Turn}
use nautilus_ctrader_adapter.VenueState.Marks.{SameMarks, Keeps}
use nautilus_ctrader_adapter.Venue.Sync.{sync}
use nautilus_ctrader_adapter.Venue.Sync.Marks.{sync-marks}
use nautilus_ctrader_adapter.Venue.External.Marks.{external_event-marks}
use nautilus_ctrader_adapter.Venue.Closing.{
  closing, match_order, close_step, node_close, foreign_close, close_accepted_step,
}

match_order-marks :
    (event : ExecutionEvent) (order : Order) (t : Turn)
    → SameMarks t.book (match_order event order t).1.book
unfolding match_order
match_order-marks event order t = ground arith

close_step-Keeps :
    (c : Callbacks) (event : ExecutionEvent) (order : Order) (precision : ℕ) (id : Option Text)
    (t : Turn)
    → Keeps t.book (close_step c event order precision id t)
unfolding close_step foreign_close node_close close_accepted_step
close_step-Keeps c event order precision none t =
    ground (arith, external_event-marks c event order precision true t)
close_step-Keeps c event order precision (some id) t = ground arith

pub closing-Keeps :
    (c : Callbacks) (event : ExecutionEvent) (order : Order) (precision : ℕ) (t : Turn)
    → Keeps t.book (closing c event order precision t)
unfolding closing
closing-Keeps c event order precision t =
    let matched = match_order event order (sync event order t) in
    ground (
      arith,
      sync-marks event order t,
      match_order-marks event order (sync event order t),
      close_step-Keeps c event order precision matched.0 matched.1,
    )
