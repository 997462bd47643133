-- ===== src/Venue/Legs/Ends.antt =====
-- How the legs of a position end (common/venue_book.py, `_cancel_legs` and `_closed_by`), and how
-- a restored position's legs begin (`_adopt`).
use nautilus_ctrader_adapter.Prelude.{
  ℕ, ◌≡◌, ◌∙◌, Bool, true, Option, none, some, List, [], ◌∷◌, ◌++◌, arith, is_some, if◌then◌else◌,
  ap,
}
use nautilus_ctrader_adapter.Prelude.Eq.{Text, Text_eq}
use nautilus_ctrader_adapter.Prelude.Dict.{Dict, member}
use mathlib.Core.Path.{ap₂}
use nautilus_ctrader_adapter.LegId.{Level, stop_loss, take_profit}
use nautilus_ctrader_adapter.OrderRecord.{LegIds, ok, encode_label, encode_comment}
use nautilus_ctrader_adapter.OrderRecord.Label.{parse_label_iff}
use nautilus_ctrader_adapter.OrderRecord.Comment.{parse_comment_iff}
use nautilus_ctrader_adapter.Messages.{Deal, Order}
use nautilus_ctrader_adapter.Records.{Record, canceled, ByLevel, no_levels, at}
use nautilus_ctrader_adapter.VenueState.{Position, Leg, ForeignLeg}
use nautilus_ctrader_adapter.Venue.Foreign.{cancel_all}
use nautilus_ctrader_adapter.Venue.Foreign.Fills.{
  live_legs, cancels, cancel_all-live, cancel_all-keeps,
}
use nautilus_ctrader_adapter.Venue.Legs.{live_leg, leg_event, cancel_legs, closed_by, adopt}

-- A cancel for the leg at a level, if it is live.
abbrev pub own_cancel : Position → ℕ → Level → Option Leg → List Record
own_cancel p ts level none = []
own_cancel p ts level (some leg) =
    if leg.alive then leg_event canceled p level leg ts none none none ∷ [] else []

abbrev pub NoLive : ByLevel Leg → Type 0
NoLive legs = (live_leg (at stop_loss legs) ≡ none) × (live_leg (at take_profit legs) ≡ none)

pub cancel_legs-keeps :
    (ts : ℕ) (p : Position)
    → let q = (cancel_legs ts p).0 in
      (q.position_id ≡ p.position_id) × (q.volume ≡ p.volume) × (q.is_open ≡ p.is_open)
unfolding cancel_legs
cancel_legs-keeps ts p = ground arith

pub cancel_legs-live :
    (ts : ℕ) (p : Position)
    → let q = (cancel_legs ts p).0 in
      NoLive q.legs
      × (q.foreign_legs ≡ p.foreign_legs)
      × (q.levels ≡ p.levels)
      × (q.protective_order_id ≡ p.protective_order_id)
      × ((cancel_legs ts p).1
          ≡ own_cancel p ts stop_loss (at stop_loss p.legs)
            ++ own_cancel p ts take_profit (at take_profit p.legs))
unfolding cancel_legs leg_event
cancel_legs-live ts p = ground arith

-- When a deal closes a position, each leg that was live is told cancelled once, at the deal's
-- time, the node's legs first; no leg of either kind stays live, and neither a level nor a
-- protective order is left.
pub closed_by-ends :
    (deal : Deal) (p : Position)
    → let q = (closed_by deal p).0 in
      let ts = deal.execution_timestamp in
      NoLive q.legs
      × (live_legs q.foreign_legs ≡ [])
      × (q.levels ≡ no_levels)
      × (q.protective_order_id ≡ none)
      × ((closed_by deal p).1
          ≡ (own_cancel p ts stop_loss (at stop_loss p.legs)
              ++ own_cancel p ts take_profit (at take_profit p.legs))
            ++ cancels ts (live_legs p.foreign_legs))
unfolding closed_by leg_event
closed_by-ends deal p =
    let ts : ℕ = deal.execution_timestamp in
    let p0 : Position = record p { protective_order_id = none; levels = no_levels } in
    let p1 : Position = (cancel_legs ts p0).0 in
    let a = cancel_legs-live ts p0 in
    let b = cancel_all-live ts ts p1 in
    let kept : (cancel_all ts p1).0
        ≡ record p1 { foreign_legs = (cancel_all ts p1).0.foreign_legs } =
      cancel_all-keeps ts p1 in
    (
      rw kept a.0,
      b.0,
      rw kept a.2,
      rw kept a.3,
      ap₂ ◌++◌ a.4 (b.1 ∙ ap (λ (l : Dict Level ForeignLeg). cancels ts (live_legs l)) a.1),
    )

-- A leg after the record was read, by whether its level stands, its id in the record and the leg
-- before: one that the record leaves out is as it was.
abbrev pub RestoredLeg : List Text → Bool → Option Text → Option Leg → Option Leg → Type 0
RestoredLeg waiting stands none before leg = leg ≡ before
RestoredLeg waiting stands (some id) before none = ⊥
RestoredLeg waiting stands (some id) before (some leg) =
    (leg.client_order_id ≡ id)
    × (leg.accepted ≡ stands)
    × (leg.alive ≡ (if stands then true else member id waiting))

-- The record that the node writes on an entry brings its position back after a restart: the
-- position is the node's under the entry's id, and each leg that the record
-- names, be it one or both, has its id; it is live and accepted if its level stands, live and
-- unaccepted if it still waits, and ended otherwise. A leg that it does not name is as it was.
pub adopt-restores :
    (waiting : List Text) (entry : Order) (id : Text) (legs : LegIds) (p : Position)
    → encode_label id ≡ ok entry.trade_data.label
    → encode_comment legs ≡ ok entry.trade_data.comment
    → let q = (adopt true waiting entry p).0 in
      (q.entry_client_order_id ≡ some id)
      × (q.entry_order_id ≡ some entry.order_id)
      × (q.entry_accepted ≡ true)
      × RestoredLeg waiting
          (is_some (at stop_loss p.levels))
          legs.stop_loss
          (at stop_loss p.legs)
          (at stop_loss q.legs)
      × RestoredLeg waiting
          (is_some (at take_profit p.levels))
          legs.take_profit
          (at take_profit p.legs)
          (at take_profit q.legs)
      × ((adopt true waiting entry p).1 ≡ [])
unfolding adopt
adopt-restores waiting entry id legs p l c = ground (
  arith,
  (parse_label_iff entry.trade_data.label id).1 l,
  (parse_comment_iff entry.trade_data.comment legs).1 c,
)
