-- ===== src/BarCloser/Steps.antt =====
-- The closer's asynchronous parts (common/bars.py) as steps between which anything may happen: a
-- backfill begins, is served, and ends or breaks; the resolver is answered by history.
use nautilus_ctrader_adapter.Prelude.{
  ℕ, zero, suc, ◌+◌, ◌-◌, ◌/◌, max, min, Bool, true, false, not, ◌&&◌, ◌||◌, Option, none, some,
  List, [], ◌∷◌, leb, nat_eq, if◌then◌else◌,
}
use nautilus_ctrader_adapter.Prelude.Sort.{sorted}
use nautilus_ctrader_adapter.BarCloser.{
  RawBar, Pending, BarCloser, observe, floor_boundary, last_closed_boundary, emit_ready, resolve_on,
  pump, enqueue, on_update, on_disconnect, close, on_timer,
}

-- `backfill` up to its fetch.
unfoldable pub begin_backfill : BarCloser → BarCloser
begin_backfill closer =
    if closer.closed || closer.holding
    then closer
    else pump (record closer { holding = true; held = none; timer = none; current = none })

-- The first boundary that `_fetch_and_drain` asks for.
abbrev pub fetch_start : BarCloser → ℕ
fetch_start closer = elim closer.last_emitted [
  | none ↦ closer.floor
  | some last ↦ max closer.floor (last + closer.period)
]

abbrev pub bar_le : RawBar → RawBar → Bool
bar_le a b = leb a.boundary_secs b.boundary_secs

abbrev pub enqueue_bars : ℕ → ℕ → List RawBar → BarCloser → BarCloser
enqueue_bars start end [] closer = closer
enqueue_bars start end (bar ∷ bars) closer =
    let seen : BarCloser = observe bar.boundary_secs closer in
    enqueue_bars start end bars (
      if leb start bar.boundary_secs && leb bar.boundary_secs end
      then enqueue bar.boundary_secs (some bar) false seen
      else seen)

-- `_fetch_and_drain` after its fetch.
unfoldable pub serve_backfill : ℕ → ℕ → List RawBar → BarCloser → BarCloser
serve_backfill start end bars closer =
    if closer.closed then closer else enqueue_bars start end (sorted bar_le bars) closer

-- `range(first, newest + 1, period)`, of that many boundaries.
abbrev pub enqueue_range : ℕ → ℕ → BarCloser → BarCloser
enqueue_range zero boundary closer = closer
enqueue_range (suc n) boundary closer =
    enqueue_range n (boundary + closer.period) (enqueue boundary none true closer)

-- `_queue_tail`, by the phase.
abbrev pub tail_with : Option ℕ → ℕ → ℕ → BarCloser → BarCloser
tail_with none end now closer = closer
tail_with (some phase) end now closer =
    let newest : ℕ = last_closed_boundary now closer in
    let first : ℕ = min (floor_boundary end closer) newest in
    enqueue_range ((newest - first) / closer.period + 1) first closer

abbrev pub queue_tail : ℕ → ℕ → BarCloser → BarCloser
queue_tail end now closer = tail_with closer.phase end now closer

-- The `finally` of `backfill`, all that an error of the fetch leaves to do.
abbrev pub break_backfill : BarCloser → BarCloser
break_backfill closer = record closer { holding = false; baseline = true }

abbrev pub replay : ℕ → Option RawBar → BarCloser → BarCloser
replay now none closer = closer
replay now (some bar) closer = on_update now bar closer

-- `backfill` after its wait.
unfoldable pub end_backfill : ℕ → ℕ → BarCloser → BarCloser
unfolding on_update
end_backfill end now closer =
    if closer.closed
    then break_backfill closer
    else (let done : BarCloser = break_backfill (queue_tail end now closer) in
        replay now done.held (record done { held = none }))

-- What history answers to one request: a bar or none, a failure, or no connection.
pub data Answer : Type 0 where
  answered : Option RawBar → Answer
  request_failed : Answer
  no_connection : Answer

-- What asking history comes to: a bar, none after every attempt, or no connection.
pub data Resolution : Type 0 where
  bar_found : RawBar → Resolution
  use_fallback : Resolution
  left_queued : Resolution

-- The attempts of `_from_history`, by the answers that come before its retries or its time are
-- spent, and where the boundaries fall by the bars seen. A bar of another boundary is no bar.
unfoldable pub ask_history : ℕ → List Answer → BarCloser → BarCloser × Resolution
ask_history boundary [] closer = (closer, use_fallback)
ask_history boundary (no_connection ∷ answers) closer = (closer, left_queued)
ask_history boundary (request_failed ∷ answers) closer = ask_history boundary answers closer
ask_history boundary (answered none ∷ answers) closer = ask_history boundary answers closer
ask_history boundary (answered (some bar) ∷ answers) closer =
    let seen : BarCloser = observe bar.boundary_secs closer in
    let later = ask_history boundary answers seen in
    if nat_eq bar.boundary_secs boundary then (seen, bar_found bar) else later

-- The entry carries its final bar.
abbrev pub settle_entry : ℕ → (Option RawBar → Option RawBar) → List Pending → List Pending
settle_entry boundary result [] = []
settle_entry boundary result (p ∷ queue) =
    if nat_eq p.boundary boundary
    then record p { streamed = result p.streamed; needs_history = false } ∷ queue
    else p ∷ settle_entry boundary result queue

-- What the resolver does with the resolution of its entry.
abbrev pub resolved : ℕ → BarCloser → Resolution → BarCloser
resolved boundary closer left_queued = record closer { resolving = false }
resolved boundary closer use_fallback = resolve_on (
    emit_ready
      (record closer { queue = settle_entry boundary (λ streamed. streamed) closer.queue }))
resolved boundary closer (bar_found bar) = resolve_on (
    emit_ready
      (record closer { queue = settle_entry boundary (λ streamed. some bar) closer.queue }))

-- A round of `_resolve`, for the entry that it waits on; closed meanwhile, it ends.
unfoldable pub resolve : ℕ → List Answer → BarCloser → BarCloser
unfolding ask_history
resolve boundary answers closer =
    let (seen, resolution) = ask_history boundary answers closer in
    if closer.closed || not closer.resolving then closer else resolved boundary seen resolution

pub data Event : Type 0 where
  updates : ℕ → RawBar → Event
  disconnects closes : Event
  timer_fires : ℕ → Event
  begins : Event
  serves : ℕ → ℕ → List RawBar → Event
  ends : ℕ → ℕ → Event
  breaks : Event
  resolves : ℕ → List Answer → Event

unfoldable pub apply : Event → BarCloser → BarCloser
unfolding on_update on_disconnect close on_timer begin_backfill serve_backfill end_backfill resolve
apply (updates now bar) closer = on_update now bar closer
apply disconnects closer = on_disconnect closer
apply closes closer = close closer
apply (timer_fires boundary) closer = on_timer boundary closer
apply begins closer = begin_backfill closer
apply (serves start end bars) closer = serve_backfill start end bars closer
apply (ends end now) closer = end_backfill end now closer
apply breaks closer = break_backfill closer
apply (resolves boundary answers) closer = resolve boundary answers closer

abbrev pub run_all : List Event → BarCloser → BarCloser
run_all [] closer = closer
run_all (event ∷ events) closer = run_all events (apply event closer)
