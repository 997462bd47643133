-- ===== src/Venue/Queries/Foreigns.antt =====
-- Finding a foreign position's leg by its id (common/venue_book.py, `foreign_leg_position`).
use nautilus_ctrader_adapter.Prelude.{ℕ, ◌≡◌, ◌<◌, none, some, arith, if◌then◌else◌}
use nautilus_ctrader_adapter.Prelude.Eq.{Text, ℕ_eq}
use nautilus_ctrader_adapter.Prelude.Dict.{lookup}
use nautilus_ctrader_adapter.LegId.{Level, leg_venue_order_id}
use nautilus_ctrader_adapter.LegId.RoundTrip.{parse-leg_venue_order_id}
use nautilus_ctrader_adapter.VenueState.{Position, Book, ours}
use nautilus_ctrader_adapter.Venue.Queries.{foreign_leg_position, entry_position}

-- A leg's id leads to its level and to the position that its entry opened, whatever the generation,
-- unless the node opened that position itself.
pub foreign_leg_position-leg_venue_order_id :
    (entry : ℕ) (level : Level) (generation : ℕ) (text : Text) (book : Book) (position_id : ℕ)
    (position : Position)
    → 0 < entry
    → leg_venue_order_id entry level generation ≡ some text
    → entry_position entry book ≡ some position_id
    → lookup position_id book.positions ≡ some position
    → foreign_leg_position text book ≡ (if ours position then none else some (position_id, level))
unfolding foreign_leg_position
foreign_leg_position-leg_venue_order_id entry level generation text book position_id position h e f
      l =
    ground (arith, parse-leg_venue_order_id entry level generation text h e, f, l)
