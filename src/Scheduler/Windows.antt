-- ===== src/Scheduler/Windows.antt =====
-- Counting the times in a window (common/rate_limit.py, `_dispatch`).
use nautilus_ctrader_adapter.Prelude.{
  ℕ, suc, ◌+◌, ◌<◌, ◌≤◌, ◌≡◌, refl, ◌&&◌, List, [], ◌∷◌, ◌++◌, arith, length, ltb, leb, Bool-cases,
  inl, inr, if◌then◌else◌,
}
use nautilus_ctrader_adapter.Scheduler.{expire}

-- How many of the times are in the window that starts at a time.
abbrev pub inside : ℕ → ℕ → List ℕ → ℕ
inside window start [] = 0
inside window start (t ∷ times) =
    let rest = inside window start times in
    if leb start t && ltb t (start + window) then suc rest else rest

-- How many of the times are still in the window that ends now.
abbrev pub alive : ℕ → ℕ → List ℕ → ℕ
alive window now [] = 0
alive window now (t ∷ times) =
    let rest = alive window now times in if ltb now (t + window) then suc rest else rest

-- The times rise, from a time on.
abbrev pub Rises : ℕ → List ℕ → Type 0
Rises from [] = Unit
Rises from (t ∷ times) = (from ≤ t) × Rises t times

abbrev pub UpTo : ℕ → List ℕ → Type 0
UpTo now [] = Unit
UpTo now (t ∷ times) = (t ≤ now) × UpTo now times

pub alive-append :
    (window now : ℕ) (a b : List ℕ)
    → alive window now (a ++ b) ≡ alive window now a + alive window now b
alive-append window now [] b = omega arith
alive-append window now (t ∷ a) b = ground (arith, alive-append window now a b)

pub UpTo-later : (now later : ℕ) (times : List ℕ) → now ≤ later → UpTo now times → UpTo later times
UpTo-later now later [] l u = tt
UpTo-later now later (t ∷ times) l (h, u) = (omega (arith, l, h), UpTo-later now later times l u)

-- When all times are still in the window their number is counted.
pub Rises-alive :
    (window now from : ℕ) (times : List ℕ)
    → now < from + window
    → Rises from times
    → alive window now times ≡ length times
Rises-alive window now from [] h r = refl
Rises-alive window now from (t ∷ times) h (l, r) =
    ground (arith, h, l, Rises-alive window now t times (omega (arith, h, l)) r)

pub Rises-below : (low from : ℕ) (times : List ℕ) → low ≤ from → Rises from times → Rises low times
Rises-below low from [] l r = tt
Rises-below low from (t ∷ times) l (h, r) = (omega (arith, l, h), r)

-- What is popped is not counted, now or later, and what is left is.
pub expire-alive :
    (window now later from : ℕ) (times : List ℕ)
    → now ≤ later
    → Rises from times
    → (alive window later (expire window now times) ≡ alive window later times)
      × (length (expire window now times) ≡ alive window now times)
      × Rises from (expire window now times)
expire-alive window now later from [] l r = (refl, refl, tt)
expire-alive window now later from (t ∷ times) l (h, r) = elim (Bool-cases (leb (t + window) now)) [
  | inl gone ↦
      let (a, b, c) = expire-alive window now later t times l r in
      ground (arith, gone, l, a, b, Rises-below from t (expire window now times) h c)
  | inr kept ↦
      ground (arith, kept, l, h, r, Rises-alive window now t times (ground (arith, kept)) r)
]

pub inside-alive :
    (window start now : ℕ) (times : List ℕ)
    → start ≤ now
    → now < start + window
    → inside window start times ≤ alive window now times
inside-alive window start now [] l h = omega arith
inside-alive window start now (t ∷ times) l h =
    ground (arith, l, h, inside-alive window start now times l h)

pub Rises-append :
    (from now : ℕ) (times : List ℕ)
    → from ≤ now
    → UpTo now times
    → Rises from times
    → Rises from (times ++ now ∷ [])
Rises-append from now [] l u r = (l, tt)
Rises-append from now (t ∷ times) l (h, u) (k, r) = (k, Rises-append t now times h u r)

pub UpTo-append : (now : ℕ) (times : List ℕ) → UpTo now times → UpTo now (times ++ now ∷ [])
UpTo-append now [] u = (omega arith, tt)
UpTo-append now (t ∷ times) (h, u) = (h, UpTo-append now times u)

pub UpTo-expire :
    (window at now : ℕ) (times : List ℕ) → UpTo now times → UpTo now (expire window at times)
UpTo-expire window at now [] u = tt
UpTo-expire window at now (t ∷ times) (h, u) =
    ground (arith, h, u, UpTo-expire window at now times u)
