-- ===== src/BarCloser/Closed.antt =====
-- A closer that is closed (common/bars.py, `close`).
use nautilus_ctrader_adapter.Prelude.{
  ◌≡◌, refl, sym, subst, ap, Bool, true, false, not, ◌||◌, none, List, [], ◌∷◌, arith,
  if◌then◌else◌,
}
use nautilus_ctrader_adapter.BarCloser.{
  RawBar, BarCloser, on_update, on_disconnect, close, on_timer, timer_for,
}
use nautilus_ctrader_adapter.BarCloser.Steps.{
  begin_backfill, serve_backfill, end_backfill, break_backfill, resolve, Event, updates,
  disconnects, closes, timer_fires, begins, serves, ends, breaks, resolves, apply, run_all,
}

-- The closer is closed, has nothing left to emit, and has emitted these bars.
abbrev pub IsClosed : List RawBar → BarCloser → Type 0
IsClosed bars closer =
    (closer.closed ≡ true)
    × (closer.queue ≡ [])
    × (closer.current ≡ none)
    × (closer.resolving ≡ false)
    × (closer.emitted ≡ bars)

-- Nothing is done when the test, which holds of a closed closer, holds.
skipped :
    (bars : List RawBar) (b : Bool) (x y : BarCloser)
    → b ≡ true
    → IsClosed bars x
    → IsClosed bars (if b then x else y)
skipped bars true x y e h = h
skipped bars false x y e h = ground (arith, e)

apply-Closed :
    (event : Event) (bars : List RawBar) (closer : BarCloser)
    → IsClosed bars closer
    → IsClosed bars (apply event closer)
unfolding apply on_update on_disconnect close on_timer begin_backfill serve_backfill end_backfill
    resolve
apply-Closed (updates now bar) bars closer h = skipped bars closer.closed closer _ h.0 h
apply-Closed disconnects bars closer h = skipped bars closer.closed closer _ h.0 h
apply-Closed closes bars closer (c, q, n, r, e) = (refl, refl, refl, refl, e)
apply-Closed (timer_fires boundary) bars closer (c, q, n, r, e) =
    subst (IsClosed bars) (sym (ap (λ current. timer_for current boundary closer) n))
      (c, q, n, r, e)
apply-Closed begins bars closer h =
    skipped bars (closer.closed || closer.holding) closer _ (ground (arith, h.0)) h
apply-Closed (serves start end listed) bars closer h = skipped bars closer.closed closer _ h.0 h
apply-Closed (ends end now) bars closer (c, q, n, r, e) =
    skipped bars closer.closed (break_backfill closer) _ c (c, q, n, r, e)
apply-Closed breaks bars closer h = h
apply-Closed (resolves boundary answers) bars closer h =
    skipped bars (closer.closed || not closer.resolving) closer _ (ground (arith, h.0)) h

run_all-Closed :
    (events : List Event) (bars : List RawBar) (closer : BarCloser)
    → IsClosed bars closer
    → IsClosed bars (run_all events closer)
run_all-Closed [] bars closer h = h
run_all-Closed (event ∷ events) bars closer h =
    run_all-Closed events bars (apply event closer) (apply-Closed event bars closer h)

-- Closing stops a closer for good: whatever happens to it afterwards, it stays closed, queues
-- nothing, runs no resolver, and has emitted what it had when it was closed.
pub close-Closed :
    (events : List Event) (closer : BarCloser)
    → IsClosed closer.emitted (run_all events (close closer))
unfolding close
close-Closed events closer =
    run_all-Closed events closer.emitted (close closer) (refl, refl, refl, refl, refl)
