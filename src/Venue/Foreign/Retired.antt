-- ===== src/Venue/Foreign/Retired.antt =====
-- The changes of a foreign position's legs retire no protective order (common/foreign_legs.py).
use nautilus_ctrader_adapter.Prelude.{ℕ, ◌≡◌, ◌∙◌, Option, none, some, arith}
use nautilus_ctrader_adapter.Prelude.Dict.{lookup}
use nautilus_ctrader_adapter.Prelude.Int.{ℤ}
use nautilus_ctrader_adapter.LegId.{Level, stop_loss, take_profit, Level_eq}
use nautilus_ctrader_adapter.Records.{Levels, at}
use nautilus_ctrader_adapter.VenueState.{Position, Callbacks, ForeignLeg}
use nautilus_ctrader_adapter.Venue.Foreign.{
  level_changes, changes_by, change_levels, level_round, change_level, new_leg, tell_entry_unknown,
  cancel_all, live,
}

change_level-retired :
    (c : Callbacks) (entry : ℕ) (old : Option ℤ) (ts : ℕ) (level : Level) (new : Option ℤ)
    (leg : Option ForeignLeg) (p : Position)
    → (change_level c entry old ts level new leg p).0.retired_protective_ids
      ≡ p.retired_protective_ids
unfolding change_level new_leg
change_level-retired c entry old ts level new leg p = ground arith

changes_by-retired :
    (entry : Option ℕ) (c : Callbacks) (old : Levels) (ts : ℕ) (p : Position)
    → (changes_by entry c old ts p).0.retired_protective_ids ≡ p.retired_protective_ids
unfolding changes_by change_levels level_round tell_entry_unknown
changes_by-retired none c old ts p = ground arith
changes_by-retired (some entry) c old ts p =
    let p1 = (level_round c entry old ts stop_loss p).0 in
    change_level-retired c entry (at take_profit old) ts take_profit (at take_profit p1.levels)
      (live (lookup take_profit p1.foreign_legs)) p1
    ∙ change_level-retired c entry (at stop_loss old) ts stop_loss (at stop_loss p.levels)
        (live (lookup stop_loss p.foreign_legs)) p

pub level_changes-retired :
    (c : Callbacks) (old : Levels) (ts : ℕ) (p : Position)
    → (level_changes c old ts p).0.retired_protective_ids ≡ p.retired_protective_ids
unfolding level_changes
level_changes-retired c old ts p = changes_by-retired p.entry_order_id c old ts p

pub cancel_all-retired :
    (ts : ℕ) (p : Position) → (cancel_all ts p).0.retired_protective_ids ≡ p.retired_protective_ids
unfolding cancel_all
cancel_all-retired ts p = ground arith
