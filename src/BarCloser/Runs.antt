-- ===== src/BarCloser/Runs.antt =====
-- Whatever happens to a closer (common/bars.py), the bars that it emits are in order.
use nautilus_ctrader_adapter.Prelude.{
  ℕ, zero, suc, ◌+◌, ◌-◌, ◌/◌, ◌≡◌, refl, sym, subst, Bool, true, false, not, ◌&&◌, ◌||◌, Option,
  none, some, List, [], ◌∷◌, arith, min, leb, nat_eq, if◌then◌else◌,
}
use nautilus_ctrader_adapter.Prelude.Sort.{sorted}
use nautilus_ctrader_adapter.BarCloser.{
  RawBar, Pending, BarCloser, new_closer, observe, floor_boundary, last_closed_boundary, enqueue,
  on_disconnect, close, on_timer,
}
use nautilus_ctrader_adapter.BarCloser.Floor.{run_all-Floored}
use nautilus_ctrader_adapter.BarCloser.Steps.{
  begin_backfill, enqueue_bars, serve_backfill, bar_le, enqueue_range, tail_with, queue_tail,
  end_backfill, break_backfill, replay, Answer, answered, request_failed, no_connection,
  ask_history, Resolution, bar_found, use_fallback, left_queued, settle_entry, resolved, resolve,
  Event, updates, disconnects, closes, timer_fires, begins, serves, ends, breaks, resolves, apply,
  run_all,
}
use nautilus_ctrader_adapter.BarCloser.Emitted.{
  IsOrdered, Fits, Queued, InOrder, either-InOrder, emit_ready-InOrder, pump-InOrder,
}
use nautilus_ctrader_adapter.BarCloser.Queue.{either-Queued, enqueue-InOrder}
use nautilus_ctrader_adapter.BarCloser.Taken.{on_update-InOrder, on_timer-InOrder}

enqueue_bars-InOrder :
    (start end : ℕ) (bars : List RawBar) (closer : BarCloser)
    → InOrder closer
    → InOrder (enqueue_bars start end bars closer)
enqueue_bars-InOrder start end [] closer o = o
enqueue_bars-InOrder start end (bar ∷ bars) closer o =
    let seen : BarCloser = observe bar.boundary_secs closer in
    let next : BarCloser =
      if leb start bar.boundary_secs && leb bar.boundary_secs end
      then enqueue bar.boundary_secs (some bar) false seen
      else seen in
    let kept : InOrder next =
      either-InOrder (leb start bar.boundary_secs && leb bar.boundary_secs end) _ seen
        (λ _. enqueue-InOrder bar.boundary_secs (some bar) false seen refl o) (λ _. o) in
    enqueue_bars-InOrder start end bars next kept

enqueue_range-InOrder :
    (n boundary : ℕ) (closer : BarCloser)
    → InOrder closer
    → InOrder (enqueue_range n boundary closer)
enqueue_range-InOrder zero boundary closer o = o
enqueue_range-InOrder (suc n) boundary closer o =
    enqueue_range-InOrder n (boundary + closer.period) (enqueue boundary none true closer)
      (enqueue-InOrder boundary none true closer tt o)

tail_with-InOrder :
    (phase : Option ℕ) (end now : ℕ) (closer : BarCloser)
    → InOrder closer
    → InOrder (tail_with phase end now closer)
tail_with-InOrder none end now closer o = o
tail_with-InOrder (some phase) end now closer o =
    let newest : ℕ = last_closed_boundary now closer in
    let first : ℕ = min (floor_boundary end closer) newest in
    enqueue_range-InOrder ((newest - first) / closer.period + 1) first closer o

replay-InOrder :
    (now : ℕ) (held : Option RawBar) (closer : BarCloser)
    → InOrder closer
    → InOrder (replay now held closer)
replay-InOrder now none closer o = o
replay-InOrder now (some bar) closer o = on_update-InOrder now bar closer o

end_backfill-InOrder :
    (end now : ℕ) (closer : BarCloser) → InOrder closer → InOrder (end_backfill end now closer)
unfolding end_backfill
end_backfill-InOrder end now closer o =
    let done : BarCloser = break_backfill (queue_tail end now closer) in
    either-InOrder closer.closed (break_backfill closer) _ (λ _. o)
      (λ _.
        replay-InOrder now done.held (record done { held = none })
          (tail_with-InOrder closer.phase end now closer o))

-- An entry's final bar, if it has one, is of the entry's boundary.
settle_entry-Queued :
    (boundary : ℕ) (result : Option RawBar → Option RawBar) (low : ℕ) (queue : List Pending)
    → ((streamed : Option RawBar) → Fits boundary streamed → Fits boundary (result streamed))
    → Queued low queue
    → Queued low (settle_entry boundary result queue)
settle_entry-Queued boundary result low [] fits q = tt
settle_entry-Queued boundary result low (p ∷ queue) fits (l, f, q) =
    either-Queued low (nat_eq p.boundary boundary) _ _
      (λ here.
        let at : boundary ≡ p.boundary = ground (arith, here) in
        (
          l,
          subst (λ b. Fits b (result p.streamed)) at
              (fits p.streamed (subst (λ b. Fits b p.streamed) (sym at) f)),
          q,
        ))
      (l, f, settle_entry-Queued boundary result (suc p.boundary) queue fits q)

-- What a resolution may be: a bar that is found is of the boundary that was asked.
abbrev IsAnswer : ℕ → Resolution → Type 0
IsAnswer boundary (bar_found bar) = bar.boundary_secs ≡ boundary
IsAnswer boundary use_fallback = Unit
IsAnswer boundary left_queued = Unit

-- A resolution and the closer it leaves.
abbrev Answers : ℕ → BarCloser × Resolution → Type 0
Answers boundary (closer, resolution) = InOrder closer × IsAnswer boundary resolution

either-Answers :
    (boundary : ℕ) (b : Bool) (x y : BarCloser × Resolution)
    → (b ≡ true → Answers boundary x)
    → Answers boundary y
    → Answers boundary (if b then x else y)
either-Answers boundary true x y h k = h refl
either-Answers boundary false x y h k = k

ask_history-Answers :
    (boundary : ℕ) (answers : List Answer) (closer : BarCloser)
    → InOrder closer
    → Answers boundary (ask_history boundary answers closer)
unfolding ask_history
ask_history-Answers boundary [] closer o = (o, tt)
ask_history-Answers boundary (no_connection ∷ answers) closer o = (o, tt)
ask_history-Answers boundary (request_failed ∷ answers) closer o =
    ask_history-Answers boundary answers closer o
ask_history-Answers boundary (answered none ∷ answers) closer o =
    ask_history-Answers boundary answers closer o
ask_history-Answers boundary (answered (some bar) ∷ answers) closer o =
    either-Answers boundary (nat_eq bar.boundary_secs boundary)
      (observe bar.boundary_secs closer, bar_found bar) _ (λ same. (o, ground (arith, same)))
      (ask_history-Answers boundary answers (observe bar.boundary_secs closer) o)

resolved-InOrder :
    (boundary : ℕ) (closer : BarCloser) (resolution : Resolution)
    → Answers boundary (closer, resolution)
    → InOrder (resolved boundary closer resolution)
resolved-InOrder boundary closer left_queued (o, at) = o
resolved-InOrder boundary closer use_fallback ((b, q), at) =
    emit_ready-InOrder
      (record closer { queue = settle_entry boundary (λ streamed. streamed) closer.queue })
      (b, settle_entry-Queued boundary (λ streamed. streamed) _ closer.queue (λ streamed f. f) q)
resolved-InOrder boundary closer (bar_found bar) ((b, q), at) =
    emit_ready-InOrder
      (record closer { queue = settle_entry boundary (λ streamed. some bar) closer.queue })
      (b, settle_entry-Queued boundary (λ streamed. some bar) _ closer.queue (λ streamed f. at) q)

apply-InOrder : (event : Event) (closer : BarCloser) → InOrder closer → InOrder (apply event closer)
unfolding apply on_disconnect close on_timer begin_backfill serve_backfill resolve
apply-InOrder (updates now bar) closer o = on_update-InOrder now bar closer o
apply-InOrder disconnects closer o = either-InOrder closer.closed closer _ (λ _. o) (λ _. o)
apply-InOrder closes closer (b, q) = (b, tt)
apply-InOrder (timer_fires boundary) closer o = on_timer-InOrder closer.current boundary closer o
apply-InOrder begins closer o =
    either-InOrder (closer.closed || closer.holding) closer _ (λ _. o)
      (λ _.
        pump-InOrder (record closer { holding = true; held = none; timer = none; current = none })
          o)
apply-InOrder (serves start end bars) closer o =
    either-InOrder closer.closed closer _ (λ _. o)
      (λ _. enqueue_bars-InOrder start end (sorted bar_le bars) closer o)
apply-InOrder (ends end now) closer o = end_backfill-InOrder end now closer o
apply-InOrder breaks closer o = o
apply-InOrder (resolves boundary answers) closer o =
    let (seen, resolution) = ask_history boundary answers closer in
    either-InOrder (closer.closed || not closer.resolving) closer _ (λ _. o)
      (λ _.
        resolved-InOrder boundary seen resolution (ask_history-Answers boundary answers closer o))

run_all-kept :
    (events : List Event) (closer : BarCloser) → InOrder closer → InOrder (run_all events closer)
run_all-kept [] closer o = o
run_all-kept (event ∷ events) closer o =
    run_all-kept events (apply event closer) (apply-InOrder event closer o)

-- What a closer made at a time has emitted and queued is in order, from the oldest bar that was
-- still forming then.
abbrev pub InOrderSince : ℕ → ℕ → BarCloser → Type 0
InOrderSince period now closer =
    IsOrdered (now - period + 1) closer.last_emitted closer.emitted closer.queue

-- Whatever happens to a closer, in whatever order updates, timers, backfills, history's answers,
-- disconnects and closing come, what it has emitted and what it has queued are in order: the bars
-- emitted rise strictly by their boundary, none is older than a bar that was still forming at the
-- start, and each queued boundary is after all of them and after those queued before it.
pub run_all-InOrder :
    (period now : ℕ) (events : List Event)
    → InOrderSince period now (run_all events (new_closer period now))
run_all-InOrder period now events =
    let closer : BarCloser = run_all events (new_closer period now) in
    subst (λ floor. IsOrdered floor closer.last_emitted closer.emitted closer.queue)
      (run_all-Floored (now - period + 1) events (new_closer period now) refl)
      (run_all-kept events (new_closer period now) (omega arith, tt))
