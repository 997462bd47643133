-- ===== src/BarCloser/Taken.antt =====
-- What an update and the timer queue (common/bars.py, `on_update`, `_on_timer`).
use nautilus_ctrader_adapter.Prelude.{
  ℕ, ◌+◌, refl, true, false, not, ◌&&◌, ◌||◌, Option, none, some, arith, ltb, leb, nat_eq,
}
use nautilus_ctrader_adapter.BarCloser.{
  RawBar, BarCloser, is_covered, has_entry, observe, take_after, timer_for, on_update,
}
use nautilus_ctrader_adapter.BarCloser.Emitted.{InOrder, either-InOrder}
use nautilus_ctrader_adapter.BarCloser.Queue.{enqueue-InOrder}

take_after-InOrder :
    (current : Option RawBar) (bar : RawBar) (closer : BarCloser)
    → InOrder closer
    → InOrder (take_after current bar closer)
take_after-InOrder none bar closer o = o
take_after-InOrder (some current) bar closer o =
    either-InOrder (nat_eq bar.boundary_secs current.boundary_secs) _ _ (λ _. o)
      (λ _.
        either-InOrder (ltb current.boundary_secs bar.boundary_secs) _ closer
          (λ _.
            enqueue-InOrder current.boundary_secs (some current) false
              (record closer { current = some bar; timer = some bar.boundary_secs }) refl o)
          (λ _. o))

pub on_update-InOrder :
    (now : ℕ) (bar : RawBar) (closer : BarCloser)
    → InOrder closer
    → InOrder (on_update now bar closer)
unfolding on_update
on_update-InOrder now bar closer o =
    let seen : BarCloser = observe bar.boundary_secs closer in
    let begun : BarCloser = record seen { baseline = false } in
    either-InOrder closer.closed closer _ (λ _. o)
      (λ _.
        either-InOrder (ltb bar.boundary_secs closer.floor || is_covered bar.boundary_secs closer)
          seen _ (λ _. o)
          (λ _.
            either-InOrder closer.holding (record seen { held = some bar }) _ (λ _. o)
              (λ _.
                either-InOrder (has_entry bar.boundary_secs closer.queue) _ _
                  (λ _. enqueue-InOrder bar.boundary_secs (some bar) true seen refl o)
                  (λ _.
                    either-InOrder (closer.baseline && leb (bar.boundary_secs + closer.period) now)
                      _ _ (λ _. enqueue-InOrder bar.boundary_secs (some bar) true begun refl o)
                      (λ _. take_after-InOrder closer.current bar begun o)))))

pub on_timer-InOrder :
    (current : Option RawBar) (boundary : ℕ) (closer : BarCloser)
    → InOrder closer
    → InOrder (timer_for current boundary closer)
on_timer-InOrder none boundary closer o = o
on_timer-InOrder (some current) boundary closer o =
    either-InOrder (closer.closed || not (nat_eq current.boundary_secs boundary)) closer _ (λ _. o)
      (λ same.
        enqueue-InOrder boundary (some current) true
          (record closer { timer = none; current = none }) (ground (arith, same)) o)
