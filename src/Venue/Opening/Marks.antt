-- ===== src/Venue/Opening/Marks.antt =====
-- Events of opening orders leave the marks of `apply` alone (common/venue_book.py).
use nautilus_ctrader_adapter.Prelude.{ℕ, Bool, if◌then◌else◌, ◌&&◌, false, [], arith}
use nautilus_ctrader_adapter.Messages.{Order, ExecutionEvent}
use nautilus_ctrader_adapter.VenueState.{Callbacks, Turn, ◌>>>◌, ours}
use nautilus_ctrader_adapter.VenueState.Marks.{Keeps, >>>-Keeps}
use nautilus_ctrader_adapter.Venue.Legs.{adopt}
use nautilus_ctrader_adapter.Venue.Sync.Marks.{sync-marks}
use nautilus_ctrader_adapter.Venue.External.Marks.{external_event-marks}
use nautilus_ctrader_adapter.Venue.Opening.{
  opening, opening_prelude, entry_event, entry_accepted_step, entry_filled_step, entry_ended_step,
  raise_step, stop_out_step, drop_unopened, learns, is_entry, filled_late,
}

entry_event-Keeps :
    (c : Callbacks) (event : ExecutionEvent) (order : Order) (precision : ℕ) (t : Turn)
    → Keeps t.book (entry_event c event order precision t)
unfolding entry_event entry_accepted_step entry_filled_step entry_ended_step drop_unopened
entry_event-Keeps c event order precision t = ground arith

prelude-Keeps :
    (learnt ended : Bool) (event : ExecutionEvent) (order : Order) (t : Turn)
    → Keeps t.book (opening_prelude learnt ended event order t)
unfolding opening_prelude
prelude-Keeps learnt ended event order t =
    let known = if learnt then adopt false [] order t.position else (t.position, []) in
    let late = if ended then filled_late order known.0 else (known.0, []) in
    sync-marks event order (record t { position = late.0 })

raise_step-Keeps :
    (c : Callbacks) (learnt : Bool) (event : ExecutionEvent) (order : Order) (precision : ℕ)
    (t : Turn)
    → Keeps t.book (raise_step c learnt event order precision t)
unfolding raise_step
raise_step-Keeps c learnt event order precision t =
    ground (arith, external_event-marks c event order precision false t)

pub opening-Keeps :
    (c : Callbacks) (ended : Bool) (event : ExecutionEvent) (order : Order) (precision : ℕ)
    (t : Turn)
    → Keeps t.book (opening c ended event order precision t)
unfolding opening stop_out_step
opening-Keeps c ended event order precision t =
    let learnt = learns event order t.position in
    let second = λ (u : Turn).
      if ours u.position && is_entry u.position order
      then entry_event c event order precision u
      else raise_step c learnt event order precision u in
    let chosen : (u : Turn) → Keeps u.book (second u) = λ u. ground (
      arith,
      entry_event-Keeps c event order precision u,
      raise_step-Keeps c learnt event order precision u,
    ) in
    let a : Keeps t.book (opening_prelude learnt ended event order t >>> second) =
      >>>-Keeps t.book (opening_prelude learnt ended event order t) second
        (prelude-Keeps learnt ended event order t) chosen in
    ground (arith, a)
