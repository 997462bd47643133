-- ===== src/Venue/Protective/Marks.antt =====
-- Events of protective orders leave the marks of `apply` alone (common/venue_book.py).
use nautilus_ctrader_adapter.Prelude.{ℕ, ◌≡◌, Option, some, Option-cases, inl, inr, [], arith}
use nautilus_ctrader_adapter.Messages.{Order, Deal, ExecutionEvent, ExecutionType}
use nautilus_ctrader_adapter.LegId.{Level}
use nautilus_ctrader_adapter.Records.{Levels, Fill}
use nautilus_ctrader_adapter.VenueState.{Book, Callbacks, Turn, Outcome, done, raised, ◌>>>◌}
use nautilus_ctrader_adapter.VenueState.Marks.{Keeps}
use nautilus_ctrader_adapter.Venue.Sync.{sync}
use nautilus_ctrader_adapter.Venue.Sync.Marks.{sync-marks}
use nautilus_ctrader_adapter.Venue.Protective.{
  protective, triggered, protective_state, protective_set, tell_levels, fill_step, fill_external,
}

fill_step-Keeps :
    (order : Order) (deal : Deal) (level : Option Level) (levels : Levels) (fill : Fill) (t : Turn)
    → Keeps t.book (fill_step order deal level levels fill t)
unfolding fill_step fill_external
fill_step-Keeps order deal level levels fill t = ground arith

triggered-Keeps :
    (c : Callbacks) (event : ExecutionEvent) (order : Order) (precision : ℕ) (t : Turn)
    → Keeps t.book (triggered c event order precision t)
unfolding triggered fill_step fill_external
triggered-Keeps c event order precision t = ground (arith, sync-marks event order t)

state-Keeps :
    (kind : ExecutionType) (order : Order) (precision : ℕ) (t : Turn) (o : Outcome)
    → protective_state kind order precision t ≡ some o
    → Keeps t.book o
unfolding protective_state protective_set
state-Keeps kind order precision t o h = ground arith

tell-Keeps :
    (c : Callbacks) (event : ExecutionEvent) (order : Order) (old : Levels) (t : Turn)
    → Keeps t.book (tell_levels c event order old t)
unfolding tell_levels
tell-Keeps c event order old t = ground arith

told-Keeps :
    (c : Callbacks) (event : ExecutionEvent) (order : Order) (old : Levels) (b : Book) (o : Outcome)
    → Keeps b o
    → Keeps b (o >>> (λ t. done (sync event order t) []) >>> tell_levels c event order old)
told-Keeps c event order old b (done t records) h =
    ground (arith, h, sync-marks event order t, tell-Keeps c event order old (sync event order t))
told-Keeps c event order old b (raised t) h = h

pub protective-Keeps :
    (c : Callbacks) (event : ExecutionEvent) (order : Order) (precision : ℕ) (t : Turn)
    → Keeps t.book (protective c event order precision t)
unfolding protective
protective-Keeps c event order precision t =
    let state = protective_state event.execution_type order precision t in
    let told : (o : Outcome)
        → state ≡ some o
        → Keeps t.book (
            o
            >>> (λ t'. done (sync event order t') [])
            >>> tell_levels c event order t.position.levels) =
      λ o h.
        told-Keeps c event order t.position.levels t.book o
          (state-Keeps event.execution_type order precision t o h) in
    elim (Option-cases state) [
      | inl e ↦ ground (arith, e, triggered-Keeps c event order precision t)
      | inr (o, e) ↦ ground (arith, e, told o e, triggered-Keeps c event order precision t)
    ]
