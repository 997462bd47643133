-- ===== src/Venue/Legs/Accepted.antt =====
-- The legs' records are none of an entry's acceptance (common/venue_book.py: `_level_changes`,
-- `_cancel_legs`).
use nautilus_ctrader_adapter.Prelude.{
  ℕ, ◌≡◌, refl, Bool, true, false, not, ◌&&◌, ◌||◌, Option, List, [], ◌∷◌, ◌++◌, arith, any,
  is_some,
}
use nautilus_ctrader_adapter.Prelude.Int.{ℤ}
use nautilus_ctrader_adapter.LegId.{Level, stop_loss, take_profit}
use nautilus_ctrader_adapter.Records.{Record, order_event, OrderEventKind, accepted, Levels, at}
use nautilus_ctrader_adapter.VenueState.{Position, Leg}
use nautilus_ctrader_adapter.Venue.Legs.{
  level_changes, leg_round, size_leg, change_leg, change_known, cancel_legs, cancel_round,
  leg_event, activity_of, live_leg,
}

abbrev pub is_accepted : OrderEventKind → Bool
is_accepted accepted = true
is_accepted _ = false

-- The acceptance of an entry: it has no size, unlike that of a leg.
abbrev pub is_acceptance : Record → Bool
is_acceptance (order_event e) = is_accepted e.kind && not (is_some e.quantity)
is_acceptance _ = false

abbrev pub accepts : List Record → Bool
accepts records = any is_acceptance records

pub accepts-append :
    (first second : List Record) → accepts (first ++ second) ≡ (accepts first || accepts second)
accepts-append [] second = refl
accepts-append (record' ∷ first) second = ground (arith, accepts-append first second)

change_leg-accepts :
    (manual : Bool) (ts : ℕ) (level : Level) (old new : Option ℤ) (leg : Option Leg) (p : Position)
    → accepts (change_leg manual ts level old new leg p).1 ≡ false
unfolding change_leg change_known leg_event activity_of
change_leg-accepts manual ts level old new leg p = ground arith

size_leg-accepts :
    (ts : ℕ) (level : Level) (leg : Option Leg) (p : Position)
    → accepts (size_leg ts level leg p).1 ≡ false
unfolding size_leg leg_event
size_leg-accepts ts level leg p = ground arith

-- A change of the levels tells no acceptance of an entry.
pub level_changes-accepts :
    (old : Levels) (manual : Bool) (ts : ℕ) (p : Position)
    → accepts (level_changes old manual ts p).1 ≡ false
unfolding level_changes leg_round
level_changes-accepts old manual ts p =
    let (p1, stop) = leg_round old manual ts stop_loss p in
    let (p2, target) = leg_round old manual ts take_profit p1 in
    let (p3, sized) = size_leg ts stop_loss (at stop_loss p2.legs) p2 in
    let (p4, resized) = size_leg ts take_profit (at take_profit p3.legs) p3 in
    ground (
      arith,
      accepts-append stop (target ++ (sized ++ resized)),
      accepts-append target (sized ++ resized),
      accepts-append sized resized,
      change_leg-accepts manual ts stop_loss (at stop_loss old) (at stop_loss p.levels)
          (live_leg (at stop_loss p.legs)) p,
      change_leg-accepts manual ts take_profit (at take_profit old) (at take_profit p1.levels)
          (live_leg (at take_profit p1.legs)) p1,
      size_leg-accepts ts stop_loss (at stop_loss p2.legs) p2,
      size_leg-accepts ts take_profit (at take_profit p3.legs) p3,
    )

-- The end of the legs neither, and it leaves the entry accepted or not.
pub cancel_legs-accepts :
    (ts : ℕ) (p : Position)
    → (accepts (cancel_legs ts p).1 ≡ false)
      × ((cancel_legs ts p).0.entry_accepted ≡ p.entry_accepted)
unfolding cancel_legs cancel_round leg_event
cancel_legs-accepts ts p = ground arith
