-- ===== src/Tests/Legs.antt =====
-- Protective legs of concrete positions.
use nautilus_ctrader_adapter.Prelude.{
  ℕ, ◌≤◌, ◌≡◌, refl, true, false, none, some, [], ◌++◌, arith, length, ltb,
}
use nautilus_ctrader_adapter.Prelude.Eq.{codes, ℕ_eq}
use nautilus_ctrader_adapter.Prelude.Dict.{lookup}
use nautilus_ctrader_adapter.LegId.{stop_loss, take_profit, leg_venue_order_id}
use nautilus_ctrader_adapter.Prelude.Decimal.{decimal}
use nautilus_ctrader_adapter.OrderRecord.{encode_label, encode_comment}
use nautilus_ctrader_adapter.Messages.{Order}
use nautilus_ctrader_adapter.Records.{no_levels, at}
use nautilus_ctrader_adapter.VenueState.{Position}
use nautilus_ctrader_adapter.Venue.Legs
use nautilus_ctrader_adapter.Venue.Legs.{closed_by, adopt}
use nautilus_ctrader_adapter.Venue.Legs.Changes
use nautilus_ctrader_adapter.Venue.Legs.Changes.{level_changes-IsCurrent, level_changes-quiet}
use nautilus_ctrader_adapter.Venue.Legs.Ends.{
  NoLive, own_cancel, closed_by-ends, adopt-restores, RestoredLeg,
}
use nautilus_ctrader_adapter.Venue.Foreign
use nautilus_ctrader_adapter.Venue.Foreign.{open_leg, fill_leg, leg_name}
use nautilus_ctrader_adapter.Venue.Foreign.Settled
use nautilus_ctrader_adapter.Venue.Foreign.Settled.{level_changes-IsSettled}
use nautilus_ctrader_adapter.Venue.Foreign.Fills.{
  live_legs, cancels, open_leg-is_free, fill_leg-covers,
}
use nautilus_ctrader_adapter.Venue.Queries.{reject_legs, protection_timed_out}
use nautilus_ctrader_adapter.Venue.Queries.Refused.{reject_legs-once, refusal, refused}
use nautilus_ctrader_adapter.Tests.Data

level_changes-IsCurrent_example :
    let q = (Legs.level_changes no_levels false 20 Data.own).0 in
    Changes.IsCurrent no_levels Data.own.levels 1000 q.legs × Changes.Same Data.own q
level_changes-IsCurrent_example = level_changes-IsCurrent no_levels false 20 Data.own

closed_by-ends_example :
    let q = (closed_by Data.deal Data.own).0 in
    NoLive q.legs
    × (live_legs q.foreign_legs ≡ [])
    × (q.levels ≡ no_levels)
    × (q.protective_order_id ≡ none)
    × ((closed_by Data.deal Data.own).1
        ≡ (own_cancel Data.own 21 stop_loss (some Data.leg)
            ++ own_cancel Data.own 21 take_profit none)
          ++ cancels 21 [])
closed_by-ends_example = closed_by-ends Data.deal Data.own

-- An entry that carries the node's record.
abbrev recorded : Order
recorded = record Data.entry {
  trade_data = record (Data.trade_data 1) {
    label = codes "ntca1:E-1";
    comment = codes "ntca1|tp=O-2";
  };
}

adopt-restores_example :
    let q = (adopt true [] recorded Data.own).0 in
    (q.entry_client_order_id ≡ some (codes "E-1"))
    × (q.entry_order_id ≡ some 7)
    × (q.entry_accepted ≡ true)
    × RestoredLeg [] true none (some Data.leg) (at stop_loss q.legs)
    × RestoredLeg [] false (some (codes "O-2")) none (at take_profit q.legs)
    × ((adopt true [] recorded Data.own).1 ≡ [])
unfolding encode_label encode_comment
adopt-restores_example =
    adopt-restores [] recorded (codes "E-1")
      (record { stop_loss = none; take_profit = some (codes "O-2") }) Data.own refl refl

-- A foreign position with a stop-loss that stands.
abbrev foreign : Position
foreign = record Data.own {
  entry_client_order_id = none;
  legs = record { at_stop_loss = none; at_take_profit = none };
}

level_changes-IsSettled_example :
    let q = (Foreign.level_changes Data.callbacks no_levels 20 foreign).0 in
    Settled.IsSettled q × (Foreign.level_changes Data.callbacks q.levels 30 q ≡ (q, []))
level_changes-IsSettled_example =
    level_changes-IsSettled Data.callbacks no_levels 20 30 7 foreign refl

-- The first generation is held closed, the second is free.
open_leg-is_free_example :
    let leg = open_leg Data.callbacks 7 stop_loss foreign in
    (Data.callbacks.held_closed leg.venue_order_id ≡ false)
    × (leg.venue_order_id ≡ leg_name 7 stop_loss leg.generation)
    × (1 ≤ leg.generation)
    × (leg.generation ≤ 2)
unfolding leg_name leg_venue_order_id decimal
open_leg-is_free_example =
    open_leg-is_free Data.callbacks 7 stop_loss foreign 2 (omega arith) (omega arith) refl

fill_leg-covers_example :
    let (leg', records) = fill_leg Data.foreign_leg 400 Data.fill in
    (leg'.filled ≡ 1100)
    × (leg'.filled ≤ leg'.quantity)
    × (1000 ≤ leg'.quantity)
    × (leg'.alive ≡ ltb leg'.filled leg'.quantity)
    × (length records ≡ 2)
fill_leg-covers_example = fill_leg-covers Data.foreign_leg 400 Data.fill refl

reject_legs-once_example :
    let (book', records) = reject_legs 3 (codes "no") 20 Data.book in
    (records
      ≡ refusal (codes "no") 20 Data.own stop_loss (some Data.leg)
        ++ refusal (codes "no") 20 Data.own take_profit none)
    × ((q : Position) × (lookup 3 book'.positions ≡ some q)
        × (at stop_loss q.legs ≡ refused (some Data.leg))
        × (at take_profit q.legs ≡ none))
    × ((reject_legs 3 (codes "no") 20 book').1 ≡ [])
    × ((protective : ℕ)
        → Data.own.protective_order_id ≡ some protective
        → protection_timed_out 3 book' ≡ [])
reject_legs-once_example = reject_legs-once 3 (codes "no") 20 Data.book Data.own refl
