-- ===== src/BarCloser.antt =====
-- When a live bar is closed (common/bars.py, `BarCloser`). A time is in whole seconds, later than
-- one period. The callback is the list of the bars emitted, and does not call the closer.
pub mod Steps
pub mod Emitted
pub mod Queue
pub mod Taken
pub mod Floor
pub mod Runs
pub mod Closed
use nautilus_ctrader_adapter.Prelude.{
  ℕ, zero, suc, ◌+◌, ◌-◌, ◌*◌, ◌/◌, ◌%◌, max, min, Bool, true, false, not, ◌&&◌, ◌||◌, Option, none,
  some, List, [], ◌∷◌, ◌++◌, ltb, leb, nat_eq, if◌then◌else◌, is_some, or_else,
}
use nautilus_ctrader_adapter.Prelude.Sort.{sorted}

pub record RawBar : Type 0 where
  pub boundary_secs : ℕ
  pub low : ℕ
  pub delta_open : ℕ
  pub delta_high : ℕ
  pub delta_close : ℕ
  pub volume : ℕ

-- `_Pending`
pub record Pending : Type 0 where
  pub boundary : ℕ
  pub streamed : Option RawBar
  pub needs_history : Bool

-- The boundary that the timer is armed for is `timer`; whether the resolver runs, `resolving`.
pub record BarCloser : Type 0 where
  pub period : ℕ
  pub floor : ℕ
  pub phase : Option ℕ
  pub last_emitted : Option ℕ
  pub current : Option RawBar
  pub timer : Option ℕ
  pub queue : List Pending
  pub resolving : Bool
  pub holding : Bool
  pub held : Option RawBar
  pub baseline : Bool
  pub closed : Bool
  pub emitted : List RawBar

-- `__init__`
abbrev pub new_closer : ℕ → ℕ → BarCloser
new_closer period now = record {
  period = period;
  floor = now - period + 1;
  phase = none;
  last_emitted = none;
  current = none;
  timer = none;
  queue = [];
  resolving = false;
  holding = false;
  held = none;
  baseline = true;
  closed = false;
  emitted = [];
}

-- `_is_covered`, by what was emitted last.
abbrev pub covered : ℕ → Option ℕ → Bool
covered boundary none = false
covered boundary (some last) = leb boundary last

abbrev pub is_covered : ℕ → BarCloser → Bool
is_covered boundary closer = covered boundary closer.last_emitted

-- `_find`, as far as whether it finds.
abbrev pub has_entry : ℕ → List Pending → Bool
has_entry boundary [] = false
has_entry boundary (p ∷ queue) = nat_eq p.boundary boundary || has_entry boundary queue

-- `_observe`
abbrev pub observe : ℕ → BarCloser → BarCloser
observe boundary closer = record closer { phase = some (boundary % closer.period) }

-- `_floor_boundary`
abbrev pub floor_boundary : ℕ → BarCloser → ℕ
floor_boundary t closer =
    let phase : ℕ = elim closer.phase [ none ↦ 0 | some phase ↦ phase ] in
    ((t - phase) / closer.period) * closer.period + phase

-- `_last_closed_boundary`
abbrev pub last_closed_boundary : ℕ → BarCloser → ℕ
last_closed_boundary now closer = floor_boundary now closer - closer.period

-- `_emit`
abbrev pub emit : RawBar → BarCloser → BarCloser
emit bar closer = if is_covered bar.boundary_secs closer then closer else record closer {
  last_emitted = some bar.boundary_secs;
  emitted = closer.emitted ++ bar ∷ [];
}

abbrev pub emit_streamed : Option RawBar → BarCloser → BarCloser
emit_streamed none closer = closer
emit_streamed (some bar) closer = emit bar closer

-- The loop of `_emit_ready` over the queue.
unfoldable pub drain : List Pending → BarCloser → BarCloser
drain [] closer = record closer { queue = [] }
drain (front ∷ queue) closer =
    let rest = drain queue (emit_streamed front.streamed closer) in
    if front.needs_history && not (is_covered front.boundary closer)
    then record closer { queue = front ∷ queue }
    else rest

-- `_emit_ready`
abbrev pub emit_ready : BarCloser → BarCloser
emit_ready closer = if closer.closed then closer else drain closer.queue closer

-- Whether `_emit_ready` leaves an entry that needs history.
abbrev pub has_front : BarCloser → Bool
has_front closer = not closer.closed && (elim closer.queue [ [] ↦ false | p ∷ queue ↦ true ])

-- The resolver goes on while an entry needs history.
abbrev pub resolve_on : BarCloser → BarCloser
resolve_on closer = record closer { resolving = has_front closer }

-- `_pump`
abbrev pub pump : BarCloser → BarCloser
pump closer = if closer.resolving then closer else resolve_on (emit_ready closer)

-- An entry that is there takes a streamed state that it lacks.
abbrev pub attach : ℕ → Option RawBar → List Pending → List Pending
attach boundary streamed [] = []
attach boundary streamed (p ∷ queue) =
    if nat_eq p.boundary boundary
    then record p { streamed = or_else p.streamed streamed } ∷ queue
    else p ∷ attach boundary streamed queue

-- `sum(1 for p in self._queue if p.boundary < boundary)`
abbrev pub count_older : ℕ → List Pending → ℕ
count_older boundary [] = 0
count_older boundary (p ∷ queue) =
    if ltb p.boundary boundary then suc (count_older boundary queue) else count_older boundary queue

-- `deque.insert`
abbrev pub insert_at : ℕ → Pending → List Pending → List Pending
insert_at zero entry queue = entry ∷ queue
insert_at (suc n) entry [] = entry ∷ []
insert_at (suc n) entry (p ∷ queue) = p ∷ insert_at n entry queue

-- The queue with a new entry.
abbrev pub with_entry : Pending → BarCloser → BarCloser
with_entry entry closer = record closer {
  queue = insert_at (count_older entry.boundary closer.queue) entry closer.queue;
}

-- `_enqueue`
unfoldable pub enqueue : ℕ → Option RawBar → Bool → BarCloser → BarCloser
unfolding drain
enqueue boundary streamed needs_history closer =
    if closer.closed || ltb boundary closer.floor || is_covered boundary closer
    then closer
    else if has_entry boundary closer.queue
    then record closer { queue = attach boundary streamed closer.queue }
    else pump (
        with_entry
          (record { boundary = boundary; streamed = streamed; needs_history = needs_history })
          closer)

-- `on_update` of a bar that is neither too old nor held, queued or a closed baseline, by the bar
-- that is forming.
abbrev pub take_after : Option RawBar → RawBar → BarCloser → BarCloser
take_after none bar closer = record closer { current = some bar; timer = some bar.boundary_secs }
take_after (some current) bar closer =
    if nat_eq bar.boundary_secs current.boundary_secs
    then record closer { current = some bar }
    else if ltb current.boundary_secs bar.boundary_secs
    then enqueue current.boundary_secs (some current) false
        (record closer { current = some bar; timer = some bar.boundary_secs })
    else closer

abbrev pub take_baseline : ℕ → RawBar → BarCloser → BarCloser
take_baseline now bar closer =
    let begun : BarCloser = record closer { baseline = false } in
    if closer.baseline && leb (bar.boundary_secs + closer.period) now
    then enqueue bar.boundary_secs (some bar) true begun
    else take_after closer.current bar begun

abbrev pub take_update : ℕ → RawBar → BarCloser → BarCloser
take_update now bar closer =
    if ltb bar.boundary_secs closer.floor || is_covered bar.boundary_secs closer
    then closer
    else if closer.holding
    then record closer { held = some bar }
    else if has_entry bar.boundary_secs closer.queue
    then enqueue bar.boundary_secs (some bar) true closer
    else take_baseline now bar closer

unfoldable pub on_update : ℕ → RawBar → BarCloser → BarCloser
on_update now bar closer =
    if closer.closed then closer else take_update now bar (observe bar.boundary_secs closer)

unfoldable pub on_disconnect : BarCloser → BarCloser
on_disconnect closer =
    if closer.closed
    then closer
    else record closer { timer = none; current = none; held = none; baseline = true }

unfoldable pub close : BarCloser → BarCloser
close closer = record closer {
  closed = true;
  timer = none;
  current = none;
  held = none;
  queue = [];
  resolving = false;
}

abbrev pub timer_for : Option RawBar → ℕ → BarCloser → BarCloser
timer_for none boundary closer = closer
timer_for (some current) boundary closer =
    if closer.closed || not (nat_eq current.boundary_secs boundary)
    then closer
    else enqueue boundary (some current) true (record closer { timer = none; current = none })

-- `_on_timer`
unfoldable pub on_timer : ℕ → BarCloser → BarCloser
on_timer boundary closer = timer_for closer.current boundary closer
