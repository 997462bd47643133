-- ===== src/BarCloser/Floor.antt =====
-- The floor of a closer (common/bars.py) is the one that it is made with.
use nautilus_ctrader_adapter.Prelude.{
  ℕ, zero, suc, ◌+◌, ◌-◌, ◌/◌, ◌≡◌, Bool, true, false, not, ◌&&◌, ◌||◌, Option, none, some, List,
  [], ◌∷◌, min, ltb, leb, nat_eq, if◌then◌else◌,
}
use nautilus_ctrader_adapter.Prelude.Sort.{sorted}
use nautilus_ctrader_adapter.BarCloser.{
  RawBar, Pending, BarCloser, observe, is_covered, has_entry, attach, with_entry, floor_boundary,
  last_closed_boundary, emit_streamed, drain, emit_ready, resolve_on, pump, enqueue, take_after,
  timer_for, on_update, on_disconnect, close, on_timer,
}
use nautilus_ctrader_adapter.BarCloser.Steps.{
  begin_backfill, enqueue_bars, serve_backfill, bar_le, enqueue_range, tail_with, queue_tail,
  end_backfill, break_backfill, replay, Answer, answered, request_failed, no_connection,
  ask_history, Resolution, bar_found, use_fallback, left_queued, settle_entry, resolved, resolve,
  Event, updates, disconnects, closes, timer_fires, begins, serves, ends, breaks, resolves, apply,
  run_all,
}

module _ (low : ℕ) where
  abbrev pub Floored : BarCloser → Type 0
  Floored closer = closer.floor ≡ low

  either-Floored :
      (b : Bool) (x y : BarCloser) → Floored x → Floored y → Floored (if b then x else y)
  either-Floored true x y h k = h
  either-Floored false x y h k = k

  emit-Floored :
      (streamed : Option RawBar) (closer : BarCloser)
      → Floored closer
      → Floored (emit_streamed streamed closer)
  emit-Floored none closer f = f
  emit-Floored (some bar) closer f =
      either-Floored (is_covered bar.boundary_secs closer) closer _ f f

  drain-Floored :
      (queue : List Pending) (closer : BarCloser) → Floored closer → Floored (drain queue closer)
  unfolding drain
  drain-Floored [] closer f = f
  drain-Floored (p ∷ queue) closer f =
      either-Floored (p.needs_history && not (is_covered p.boundary closer))
        (record closer { queue = p ∷ queue }) _ f
        (drain-Floored queue (emit_streamed p.streamed closer) (emit-Floored p.streamed closer f))

  emit_ready-Floored : (closer : BarCloser) → Floored closer → Floored (emit_ready closer)
  emit_ready-Floored closer f =
      either-Floored closer.closed closer _ f (drain-Floored closer.queue closer f)

  pump-Floored : (closer : BarCloser) → Floored closer → Floored (pump closer)
  pump-Floored closer f =
      either-Floored closer.resolving closer (resolve_on (emit_ready closer)) f
        (emit_ready-Floored closer f)

  enqueue-Floored :
      (boundary : ℕ) (streamed : Option RawBar) (needs_history : Bool) (closer : BarCloser)
      → Floored closer
      → Floored (enqueue boundary streamed needs_history closer)
  unfolding enqueue
  enqueue-Floored boundary streamed needs_history closer f =
      either-Floored (closer.closed || ltb boundary closer.floor || is_covered boundary closer)
        closer _ f
        (either-Floored (has_entry boundary closer.queue)
          (record closer { queue = attach boundary streamed closer.queue }) _ f
          (pump-Floored
            (with_entry
              (record { boundary = boundary; streamed = streamed; needs_history = needs_history })
              closer)
            f))

  take_after-Floored :
      (current : Option RawBar) (bar : RawBar) (closer : BarCloser)
      → Floored closer
      → Floored (take_after current bar closer)
  take_after-Floored none bar closer f = f
  take_after-Floored (some current) bar closer f =
      either-Floored (nat_eq bar.boundary_secs current.boundary_secs)
        (record closer { current = some bar }) _ f
        (either-Floored (ltb current.boundary_secs bar.boundary_secs) _ closer
          (enqueue-Floored current.boundary_secs (some current) false
            (record closer { current = some bar; timer = some bar.boundary_secs }) f)
          f)

  on_update-Floored :
      (now : ℕ) (bar : RawBar) (closer : BarCloser)
      → Floored closer
      → Floored (on_update now bar closer)
  unfolding on_update
  on_update-Floored now bar closer f =
      let seen : BarCloser = observe bar.boundary_secs closer in
      let begun : BarCloser = record seen { baseline = false } in
      either-Floored closer.closed closer _ f (
        either-Floored (ltb bar.boundary_secs closer.floor || is_covered bar.boundary_secs closer)
          seen _ f
          (either-Floored closer.holding (record seen { held = some bar }) _ f
            (either-Floored (has_entry bar.boundary_secs closer.queue) _ _
              (enqueue-Floored bar.boundary_secs (some bar) true seen f)
              (either-Floored (closer.baseline && leb (bar.boundary_secs + closer.period) now) _ _
                (enqueue-Floored bar.boundary_secs (some bar) true begun f)
                (take_after-Floored closer.current bar begun f)))))

  timer_for-Floored :
      (current : Option RawBar) (boundary : ℕ) (closer : BarCloser)
      → Floored closer
      → Floored (timer_for current boundary closer)
  timer_for-Floored none boundary closer f = f
  timer_for-Floored (some current) boundary closer f =
      either-Floored (closer.closed || not (nat_eq current.boundary_secs boundary)) closer _ f (
        enqueue-Floored boundary (some current) true
          (record closer { timer = none; current = none }) f)

  enqueue_bars-Floored :
      (start end : ℕ) (bars : List RawBar) (closer : BarCloser)
      → Floored closer
      → Floored (enqueue_bars start end bars closer)
  enqueue_bars-Floored start end [] closer f = f
  enqueue_bars-Floored start end (bar ∷ bars) closer f =
      let seen : BarCloser = observe bar.boundary_secs closer in
      let next : BarCloser =
        if leb start bar.boundary_secs && leb bar.boundary_secs end
        then enqueue bar.boundary_secs (some bar) false seen
        else seen in
      let kept : Floored next =
        either-Floored (leb start bar.boundary_secs && leb bar.boundary_secs end) _ seen
          (enqueue-Floored bar.boundary_secs (some bar) false seen f) f in
      enqueue_bars-Floored start end bars next kept

  enqueue_range-Floored :
      (n boundary : ℕ) (closer : BarCloser)
      → Floored closer
      → Floored (enqueue_range n boundary closer)
  enqueue_range-Floored zero boundary closer f = f
  enqueue_range-Floored (suc n) boundary closer f =
      enqueue_range-Floored n (boundary + closer.period) (enqueue boundary none true closer)
        (enqueue-Floored boundary none true closer f)

  tail_with-Floored :
      (phase : Option ℕ) (end now : ℕ) (closer : BarCloser)
      → Floored closer
      → Floored (tail_with phase end now closer)
  tail_with-Floored none end now closer f = f
  tail_with-Floored (some phase) end now closer f =
      let newest : ℕ = last_closed_boundary now closer in
      let first : ℕ = min (floor_boundary end closer) newest in
      enqueue_range-Floored ((newest - first) / closer.period + 1) first closer f

  replay-Floored :
      (now : ℕ) (held : Option RawBar) (closer : BarCloser)
      → Floored closer
      → Floored (replay now held closer)
  replay-Floored now none closer f = f
  replay-Floored now (some bar) closer f = on_update-Floored now bar closer f

  ask_history-Floored :
      (boundary : ℕ) (answers : List Answer) (closer : BarCloser)
      → Floored closer
      → Floored (ask_history boundary answers closer).0
  unfolding ask_history
  ask_history-Floored boundary [] closer f = f
  ask_history-Floored boundary (no_connection ∷ answers) closer f = f
  ask_history-Floored boundary (request_failed ∷ answers) closer f =
      ask_history-Floored boundary answers closer f
  ask_history-Floored boundary (answered none ∷ answers) closer f =
      ask_history-Floored boundary answers closer f
  ask_history-Floored boundary (answered (some bar) ∷ answers) closer f =
      either-first (nat_eq bar.boundary_secs boundary) _ _ f
        (ask_history-Floored boundary answers (observe bar.boundary_secs closer) f)
    where
      either-first :
          (b : Bool) (x y : BarCloser × Resolution)
          → Floored x.0
          → Floored y.0
          → Floored (if b then x else y).0
      either-first true x y h k = h
      either-first false x y h k = k

  resolved-Floored :
      (boundary : ℕ) (closer : BarCloser) (resolution : Resolution)
      → Floored closer
      → Floored (resolved boundary closer resolution)
  resolved-Floored boundary closer left_queued f = f
  resolved-Floored boundary closer use_fallback f =
      emit_ready-Floored
        (record closer { queue = settle_entry boundary (λ streamed. streamed) closer.queue }) f
  resolved-Floored boundary closer (bar_found bar) f =
      emit_ready-Floored
        (record closer { queue = settle_entry boundary (λ streamed. some bar) closer.queue }) f

  apply-Floored :
      (event : Event) (closer : BarCloser) → Floored closer → Floored (apply event closer)
  unfolding apply on_disconnect close on_timer begin_backfill serve_backfill end_backfill resolve
  apply-Floored (updates now bar) closer f = on_update-Floored now bar closer f
  apply-Floored disconnects closer f = either-Floored closer.closed closer _ f f
  apply-Floored closes closer f = f
  apply-Floored (timer_fires boundary) closer f = timer_for-Floored closer.current boundary closer f
  apply-Floored begins closer f =
      either-Floored (closer.closed || closer.holding) closer _ f (
        pump-Floored (record closer { holding = true; held = none; timer = none; current = none })
          f)
  apply-Floored (serves start end bars) closer f =
      either-Floored closer.closed closer _ f
        (enqueue_bars-Floored start end (sorted bar_le bars) closer f)
  apply-Floored (ends end now) closer f =
      let done : BarCloser = break_backfill (queue_tail end now closer) in
      either-Floored closer.closed (break_backfill closer) _ f (
        replay-Floored now done.held (record done { held = none })
          (tail_with-Floored closer.phase end now closer f))
  apply-Floored breaks closer f = f
  apply-Floored (resolves boundary answers) closer f =
      let (seen, resolution) = ask_history boundary answers closer in
      either-Floored (closer.closed || not closer.resolving) closer _ f
        (resolved-Floored boundary seen resolution (ask_history-Floored boundary answers closer f))

  pub run_all-Floored :
      (events : List Event) (closer : BarCloser) → Floored closer → Floored (run_all events closer)
  run_all-Floored [] closer f = f
  run_all-Floored (event ∷ events) closer f =
      run_all-Floored events (apply event closer) (apply-Floored event closer f)
