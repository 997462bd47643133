-- ===== src/Venue/Foreign/Fills.antt =====
-- A foreign leg's id, fills and end (common/foreign_legs.py: `_open`, `filled`, `cancel_all`).
use nautilus_ctrader_adapter.Prelude.{
  ℕ, zero, suc, ◌+◌, ◌≤◌, ◌<◌, ◌≡◌, inl, inr, refl, ◌≢◌, ap, Bool-cases, Bool, true, false, List,
  [], ◌∷◌, arith, length, ltb, if◌then◌else◌,
}
use nautilus_ctrader_adapter.Prelude.Eq.{Text}
use nautilus_ctrader_adapter.Prelude.Dict.{Dict, lookup}
use nautilus_ctrader_adapter.LegId.{Level, Level_eq}
use nautilus_ctrader_adapter.Records.{Record, Fill}
use nautilus_ctrader_adapter.VenueState.{Position, ForeignLeg, Callbacks}
use nautilus_ctrader_adapter.Venue.Foreign.{
  leg_name, free_generation, next_generation, open_leg, fill_leg, cancel_legs, cancel_all,
  cancelled,
}

-- The search finds the first generation that is not held closed, if there is one in reach.
free_generation-first :
    (fuel : ℕ) (held : Text → Bool) (entry : ℕ) (level : Level) (from free : ℕ)
    → from ≤ free
    → free < from + fuel
    → held (leg_name entry level free) ≡ false
    → let g = free_generation fuel held entry level from in
      (held (leg_name entry level g) ≡ false) × (from ≤ g) × (g ≤ free)
unfolding free_generation
free_generation-first zero held entry level from free h k e = absurd (omega arith)
free_generation-first (suc fuel) held entry level from free h k e =
    elim (Bool-cases (held (leg_name entry level from))) [
      | inr open_id ↦ rw open_id (open_id, omega arith, h)
      | inl closed ↦
          let later : from ≢ free =
            λ same. cc (ap (λ (g : ℕ). held (leg_name entry level g)) same) in
          let (a, b, d) =
            free_generation-first fuel held entry level (from + 1) free (omega arith) (omega arith)
              e in
          rw closed (a, omega arith, d)
    ]

-- A new leg's id is one that Nautilus does not hold closed, of a generation past the level's last
-- leg, if the search's bound reaches such a generation at all.
pub open_leg-is_free :
    (c : Callbacks) (entry : ℕ) (level : Level) (p : Position) (free : ℕ)
    → next_generation (lookup level p.foreign_legs) ≤ free
    → free < next_generation (lookup level p.foreign_legs) + c.generations
    → c.held_closed (leg_name entry level free) ≡ false
    → let leg = open_leg c entry level p in
      (c.held_closed leg.venue_order_id ≡ false)
      × (leg.venue_order_id ≡ leg_name entry level leg.generation)
      × (next_generation (lookup level p.foreign_legs) ≤ leg.generation)
      × (leg.generation ≤ free)
unfolding open_leg
open_leg-is_free c entry level p free h k e =
    let (a, b, d) =
      free_generation-first c.generations c.held_closed entry level
        (next_generation (lookup level p.foreign_legs)) free h k e in
    (a, refl, b, d)

-- A fill never exceeds its leg: the quantity is raised to cover it, and the leg ends exactly when
-- nothing of it is left.
pub fill_leg-covers :
    (leg : ForeignLeg) (volume : ℕ) (fill : Fill)
    → leg.alive ≡ true
    → let leg' = (fill_leg leg volume fill).0 in
      (leg'.filled ≡ leg.filled + volume)
      × (leg'.filled ≤ leg'.quantity)
      × (leg.quantity ≤ leg'.quantity)
      × (leg'.alive ≡ ltb leg'.filled leg'.quantity)
      × (length (fill_leg leg volume fill).1
          ≡ (if ltb leg.quantity (leg.filled + volume) then 2 else 1))
unfolding fill_leg
fill_leg-covers leg volume fill h = ground arith

abbrev pub live_legs : Dict Level ForeignLeg → List ForeignLeg
live_legs [] = []
live_legs ((level, leg) ∷ legs) = if leg.alive then leg ∷ live_legs legs else live_legs legs

abbrev pub cancels : ℕ → List ForeignLeg → List Record
cancels ts [] = []
cancels ts (leg ∷ legs) = cancelled leg ts ∷ cancels ts legs

cancel_legs-live :
    (ts : ℕ) (legs : Dict Level ForeignLeg)
    → (live_legs (cancel_legs ts legs).0 ≡ [])
      × ((cancel_legs ts legs).1 ≡ cancels ts (live_legs legs))
unfolding cancel_legs
cancel_legs-live ts [] = (refl, refl)
cancel_legs-live ts ((level, leg) ∷ legs) = ground (arith, cancel_legs-live ts legs)

-- When a position closes, every live foreign leg is told cancelled once, in order, none is left
-- alive, and a second close says nothing.
pub cancel_all-live :
    (ts later : ℕ) (p : Position)
    → let q = (cancel_all ts p).0 in
      (live_legs q.foreign_legs ≡ [])
      × ((cancel_all ts p).1 ≡ cancels ts (live_legs p.foreign_legs))
      × ((cancel_all later q).1 ≡ [])
unfolding cancel_all
cancel_all-live ts later p = ground (
  arith,
  cancel_legs-live ts p.foreign_legs,
  cancel_legs-live later (cancel_legs ts p.foreign_legs).0,
)

-- Only the foreign legs change.
pub cancel_all-keeps :
    (ts : ℕ) (p : Position)
    → (cancel_all ts p).0 ≡ record p { foreign_legs = (cancel_all ts p).0.foreign_legs }
unfolding cancel_all
cancel_all-keeps ts p = refl
