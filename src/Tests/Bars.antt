-- ===== src/Tests/Bars.antt =====
-- A closer of bars of a minute.
use nautilus_ctrader_adapter.Prelude.{ℕ, ◌≡◌, refl, some, List, [], ◌∷◌, map}
use nautilus_ctrader_adapter.BarCloser.{
  RawBar, new_closer, enqueue, drain, on_update, on_disconnect, close,
}
use nautilus_ctrader_adapter.BarCloser.Steps.{
  apply, begin_backfill, serve_backfill, end_backfill, resolve, ask_history, Event, updates,
  disconnects, begins, serves, ends, resolves, answered, run_all,
}
use nautilus_ctrader_adapter.BarCloser.Runs.{InOrderSince, run_all-InOrder}
use nautilus_ctrader_adapter.BarCloser.Closed.{IsClosed, close-Closed}

abbrev bar : ℕ → RawBar
bar boundary = record {
  boundary_secs = boundary;
  low = 100;
  delta_open = 1;
  delta_high = 2;
  delta_close = 1;
  volume = 5;
}

-- Two bars, a connection lost and a backfill that serves the second.
abbrev events : List Event
events =
    updates 6010 (bar 6000)
    ∷ updates 6065 (bar 6060)
    ∷ disconnects
    ∷ begins
    ∷ serves 6060 6060 (bar 6060 ∷ [])
    ∷ ends 6060 6190
    ∷ resolves 6120 (answered (some (bar 6120)) ∷ [])
    ∷ []

run_all-InOrder_example : InOrderSince 60 6000 (run_all events (new_closer 60 6000))
run_all-InOrder_example = run_all-InOrder 60 6000 events

close-Closed_example : IsClosed [] (run_all events (close (new_closer 60 6000)))
close-Closed_example = close-Closed events (new_closer 60 6000)

three_emitted :
    map (λ (b : RawBar). b.boundary_secs) (run_all events (new_closer 60 6000)).emitted
    ≡ 6000 ∷ 6060 ∷ 6120 ∷ []
unfolding apply on_update enqueue drain on_disconnect begin_backfill serve_backfill end_backfill
    resolve ask_history
three_emitted = refl
