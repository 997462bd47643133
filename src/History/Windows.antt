-- ===== src/History/Windows.antt =====
-- The windows that a span is asked in (common/history.py, `weekly_windows`).
use nautilus_ctrader_adapter.Prelude.{
  ℕ, zero, suc, ◌+◌, ◌-◌, ◌/◌, ◌≤◌, ◌<◌, ◌≡◌, ◌⊎◌, sym, subst, List, [], ◌∷◌, arith, length, ltb,
  leb, min, Bool-cases, inl, inr,
}
use nautilus_ctrader_adapter.History.{Window, week_ms, windows_from, weekly_windows}

-- Windows of a week at most, each of which starts where the one before it ends.
pub data Tiles : ℕ → ℕ → List Window → Type 0 where
  done : (t : ℕ) → Tiles t t []
  next :
      (start end to : ℕ) (windows : List Window)
      → start < end
      → end ≤ start + week_ms
      → Tiles end to windows
      → Tiles start to ((start, end) ∷ windows)

-- Whether a time is inside a window, its edges included.
abbrev pub Holds : ℕ → List Window → Type 0
Holds t [] = ⊥
Holds t ((start, end) ∷ windows) = ((start ≤ t) × (t ≤ end)) ⊎ Holds t windows

windows_from-Tiles :
    (fuel start to : ℕ)
    → start ≤ to
    → to - start ≤ fuel
    → Tiles start to (windows_from fuel start to)
unfolding windows_from
windows_from-Tiles zero start to le f =
    subst (λ t. Tiles start t []) (omega (arith, le, f)) (done start)
windows_from-Tiles (suc fuel) start to le f = elim (Bool-cases (ltb start to)) [
  | inl more ↦
      let end : ℕ = min (start + week_ms) to in
      let tiles = windows_from-Tiles fuel end to (ground arith) (ground (arith, more, f)) in
      subst (Tiles start to) (sym (ground (arith, more)))
        (next start end to (windows_from fuel end to) (ground (arith, more)) (ground arith) tiles)
  | inr at_end ↦
      subst (Tiles start to) (sym (ground (arith, at_end)))
        (subst (λ t. Tiles start t []) (ground (arith, at_end, le)) (done start))
]

Tiles-Holds :
    (start to t : ℕ) (windows : List Window)
    → Tiles start to windows
    → start < to
    → start ≤ t
    → t ≤ to
    → Holds t windows
Tiles-Holds start to t [] (done _) less l u = absurd (omega (arith, less))
Tiles-Holds start to t ((_, end) ∷ windows) (next _ _ _ _ a b rest) less l u =
    elim (Bool-cases (leb t end)) [
      | inl here ↦ inl (l, ground (arith, here))
      | inr later ↦
          inr
            (Tiles-Holds end to t windows rest (ground (arith, later, u)) (ground (arith, later)) u)
    ]

-- Between two times in order, the windows are each a week at most, the first starts at the earlier
-- time, each other one starts where the one before it ends, and the last ends at the later time;
-- when the times differ, every time between them, both included, is in one of the windows.
pub weekly_windows-Tiles :
    (from_ms to_ms : ℕ)
    → from_ms ≤ to_ms
    → Tiles from_ms to_ms (weekly_windows from_ms to_ms)
      × (from_ms < to_ms
          → (t : ℕ) → from_ms ≤ t
          → t ≤ to_ms
          → Holds t (weekly_windows from_ms to_ms))
unfolding weekly_windows
weekly_windows-Tiles from_ms to_ms le =
    let tiles = windows_from-Tiles (to_ms - from_ms) from_ms to_ms le (omega arith) in
    (
      tiles,
      λ less t l u.
          Tiles-Holds from_ms to_ms t (windows_from (to_ms - from_ms) from_ms to_ms) tiles less l u,
    )

windows_from-length :
    (fuel start to : ℕ)
    → to - start ≤ fuel
    → length (windows_from fuel start to) ≡ (to - start + 604799999) / 604800000
unfolding windows_from
windows_from-length zero start to f = omega (arith, f)
windows_from-length (suc fuel) start to f = elim (Bool-cases (ltb start to)) [
  | inl more ↦
      let rest = windows_from-length fuel (min (start + week_ms) to) to (ground (arith, more, f)) in
      ground (arith, more, rest)
  | inr at_end ↦ ground (arith, at_end)
]

-- No span takes more windows than it must: their number is its length in weeks, rounded up, which
-- is none for a span that ends at its start or before.
pub weekly_windows-length :
    (from_ms to_ms : ℕ)
    → length (weekly_windows from_ms to_ms) ≡ (to_ms - from_ms + 604799999) / 604800000
unfolding weekly_windows
weekly_windows-length from_ms to_ms =
    windows_from-length (to_ms - from_ms) from_ms to_ms (omega arith)
