-- ===== src/BarCloser/Emitted.antt =====
-- The bars that a closer emits (common/bars.py): in order, each boundary once.
use nautilus_ctrader_adapter.Prelude.{
  ℕ, suc, ◌≤◌, ◌≡◌, refl, sym, subst, ap, Bool, true, false, Option, none, some, List, [], ◌∷◌,
  ◌++◌, arith, max, if◌then◌else◌,
}
use nautilus_ctrader_adapter.BarCloser.{
  RawBar, Pending, BarCloser, covered, emit, emit_streamed, drain, emit_ready, resolve_on, pump,
}

-- The oldest boundary that may still be emitted.
abbrev pub next_of : ℕ → Option ℕ → ℕ
next_of floor none = floor
next_of floor (some last) = max floor (suc last)

-- The bars rise by their boundary, from one bound on and below another.
abbrev pub Between : ℕ → ℕ → List RawBar → Type 0
Between low high [] = low ≤ high
Between low high (bar ∷ bars) =
    (low ≤ bar.boundary_secs) × Between (suc bar.boundary_secs) high bars

-- The streamed state of an entry is of its own boundary.
abbrev pub Fits : ℕ → Option RawBar → Type 0
Fits boundary none = Unit
Fits boundary (some bar) = bar.boundary_secs ≡ boundary

-- The entries rise by their boundary, from a bound on.
abbrev pub Queued : ℕ → List Pending → Type 0
Queued low [] = Unit
Queued low (p ∷ queue) =
    (low ≤ p.boundary) × Fits p.boundary p.streamed × Queued (suc p.boundary) queue

-- What has been emitted and what is queued are in order, the first before the second.
abbrev pub IsOrdered : ℕ → Option ℕ → List RawBar → List Pending → Type 0
IsOrdered floor last emitted queue =
    Between floor (next_of floor last) emitted × Queued (next_of floor last) queue

abbrev pub InOrder : BarCloser → Type 0
InOrder closer = IsOrdered closer.floor closer.last_emitted closer.emitted closer.queue

pub Queued-below :
    (low bound : ℕ) (queue : List Pending) → low ≤ bound → Queued bound queue → Queued low queue
Queued-below low bound [] l q = tt
Queued-below low bound (p ∷ queue) l (h, f, q) = (omega (arith, l, h), f, q)

pub Between-append :
    (low high : ℕ) (bars : List RawBar) (bar : RawBar)
    → high ≤ bar.boundary_secs
    → Between low high bars
    → Between low (suc bar.boundary_secs) (bars ++ bar ∷ [])
Between-append low high [] bar h b = (omega (arith, h, b), omega arith)
Between-append low high (x ∷ bars) bar h (l, b) =
    (l, Between-append (suc x.boundary_secs) high bars bar h b)

pub Between-below :
    (low high higher : ℕ) (bars : List RawBar)
    → high ≤ higher
    → Between low high bars
    → Between low higher bars
Between-below low high higher [] l b = omega (arith, l, b)
Between-below low high higher (x ∷ bars) l (h, b) =
    (h, Between-below (suc x.boundary_secs) high higher bars l b)

-- The same, of a closer with a queue yet to be looked at.
abbrev pub Ready : BarCloser → List Pending → Type 0
Ready closer queue = IsOrdered closer.floor closer.last_emitted closer.emitted queue

pub next_of-covered :
    (floor boundary : ℕ) (last : Option ℕ)
    → next_of floor last ≤ boundary
    → covered boundary last ≡ false
next_of-covered floor boundary none h = refl
next_of-covered floor boundary (some last) h = ground (arith, h)

pub covered-next_of :
    (floor boundary : ℕ) (last : Option ℕ)
    → floor ≤ boundary
    → covered boundary last ≡ false
    → next_of floor last ≤ boundary
covered-next_of floor boundary none l h = l
covered-next_of floor boundary (some last) l h = ground (arith, l, h)

pub floor-next_of : (floor : ℕ) (last : Option ℕ) → floor ≤ next_of floor last
floor-next_of floor none = omega arith
floor-next_of floor (some last) = omega arith

-- The front of the queue is emitted.
pub emit-Ready :
    (streamed : Option RawBar) (closer : BarCloser) (boundary : ℕ) (queue : List Pending)
    → Fits boundary streamed
    → next_of closer.floor closer.last_emitted ≤ boundary
    → Between closer.floor (next_of closer.floor closer.last_emitted) closer.emitted
    → Queued (suc boundary) queue
    → Ready (emit_streamed streamed closer) queue
emit-Ready none closer boundary queue fits l b q = (
  b,
  Queued-below (next_of closer.floor closer.last_emitted) (suc boundary) queue (omega (arith, l)) q,
)
emit-Ready (some bar) closer boundary queue fits l b q =
    let at : next_of closer.floor closer.last_emitted ≤ bar.boundary_secs =
      omega (arith, l, fits) in
    let low = floor-next_of closer.floor closer.last_emitted in
    let emitted : BarCloser = record closer {
      last_emitted = some bar.boundary_secs;
      emitted = closer.emitted ++ bar ∷ [];
    } in
    let same : emit bar closer ≡ emitted =
      ap (λ c. if c then closer else emitted)
        (next_of-covered closer.floor bar.boundary_secs closer.last_emitted at) in
    let more =
      Between-append closer.floor (next_of closer.floor closer.last_emitted) closer.emitted bar at
        b in
    let ready : Ready emitted queue = (
      Between-below closer.floor (suc bar.boundary_secs) (max closer.floor (suc bar.boundary_secs))
          (closer.emitted ++ bar ∷ []) (omega arith) more,
      Queued-below (max closer.floor (suc bar.boundary_secs)) (suc boundary) queue
          (omega (arith, fits, at, low)) q,
    ) in
    subst (λ c. Ready c queue) (sym same) ready

pub either-InOrder :
    (b : Bool) (x y : BarCloser)
    → (b ≡ true → InOrder x)
    → (b ≡ false → InOrder y)
    → InOrder (if b then x else y)
either-InOrder true x y h k = h refl
either-InOrder false x y h k = k refl

pub drain-InOrder :
    (queue : List Pending) (closer : BarCloser) → Ready closer queue → InOrder (drain queue closer)
unfolding drain
drain-InOrder [] closer (b, q) = (b, tt)
drain-InOrder (p ∷ queue) closer (b, (l, fits, q)) =
    either-InOrder _ _ _ (λ _. (b, (l, fits, q)))
      (λ _.
        drain-InOrder queue (emit_streamed p.streamed closer)
          (emit-Ready p.streamed closer p.boundary queue fits l b q))

pub emit_ready-InOrder : (closer : BarCloser) → InOrder closer → InOrder (emit_ready closer)
emit_ready-InOrder closer o =
    either-InOrder closer.closed closer (drain closer.queue closer) (λ _. o)
      (λ _. drain-InOrder closer.queue closer o)

pub pump-InOrder : (closer : BarCloser) → InOrder closer → InOrder (pump closer)
pump-InOrder closer o =
    either-InOrder closer.resolving closer (resolve_on (emit_ready closer)) (λ _. o)
      (λ _. emit_ready-InOrder closer o)
