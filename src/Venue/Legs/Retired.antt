-- ===== src/Venue/Legs/Retired.antt =====
-- The legs' changes retire no protective order (common/venue_book.py: `_level_changes`,
-- `_cancel_legs`, `_closed_by`).
use nautilus_ctrader_adapter.Prelude.{ℕ, ◌≡◌, ◌∙◌, Bool, Option, none, arith}
use nautilus_ctrader_adapter.Prelude.Int.{ℤ}
use nautilus_ctrader_adapter.LegId.{Level, stop_loss, take_profit}
use nautilus_ctrader_adapter.Messages.{Deal}
use nautilus_ctrader_adapter.Records.{Levels, at, no_levels}
use nautilus_ctrader_adapter.VenueState.{Position, Leg}
use nautilus_ctrader_adapter.Venue.Foreign.Retired.{cancel_all-retired}
use nautilus_ctrader_adapter.Venue.Legs.{
  level_changes, leg_round, size_leg, change_leg, change_known, cancel_legs, cancel_round,
  closed_by, live_leg,
}

change_leg-retired :
    (manual : Bool) (ts : ℕ) (level : Level) (old new : Option ℤ) (leg : Option Leg) (p : Position)
    → (change_leg manual ts level old new leg p).0.retired_protective_ids ≡ p.retired_protective_ids
unfolding change_leg change_known
change_leg-retired manual ts level old new leg p = ground arith

size_leg-retired :
    (ts : ℕ) (level : Level) (leg : Option Leg) (p : Position)
    → (size_leg ts level leg p).0.retired_protective_ids ≡ p.retired_protective_ids
unfolding size_leg
size_leg-retired ts level leg p = ground arith

pub level_changes-retired :
    (old : Levels) (manual : Bool) (ts : ℕ) (p : Position)
    → (level_changes old manual ts p).0.retired_protective_ids ≡ p.retired_protective_ids
unfolding level_changes leg_round
level_changes-retired old manual ts p =
    let p1 = (leg_round old manual ts stop_loss p).0 in
    let p2 = (leg_round old manual ts take_profit p1).0 in
    let p3 = (size_leg ts stop_loss (at stop_loss p2.legs) p2).0 in
    size_leg-retired ts take_profit (at take_profit p3.legs) p3
    ∙ size_leg-retired ts stop_loss (at stop_loss p2.legs) p2
    ∙ change_leg-retired manual ts take_profit (at take_profit old) (at take_profit p1.levels)
        (live_leg (at take_profit p1.legs)) p1
    ∙ change_leg-retired manual ts stop_loss (at stop_loss old) (at stop_loss p.levels)
        (live_leg (at stop_loss p.legs)) p

cancel_legs-retired :
    (ts : ℕ) (p : Position) → (cancel_legs ts p).0.retired_protective_ids ≡ p.retired_protective_ids
unfolding cancel_legs cancel_round
cancel_legs-retired ts p = ground arith

pub closed_by-retired :
    (deal : Deal) (p : Position)
    → (closed_by deal p).0.retired_protective_ids ≡ p.retired_protective_ids
unfolding closed_by
closed_by-retired deal p =
    let ts : ℕ = deal.execution_timestamp in
    let p0 : Position = record p { protective_order_id = none; levels = no_levels } in
    cancel_all-retired ts (cancel_legs ts p0).0 ∙ cancel_legs-retired ts p0
