-- ===== src/Venue/Sync/Retired.antt =====
-- `_sync` retires no protective order (common/venue_book.py).
use nautilus_ctrader_adapter.Prelude.{◌≡◌, arith}
use nautilus_ctrader_adapter.Messages.{Order, ExecutionEvent}
use nautilus_ctrader_adapter.VenueState.{Turn}
use nautilus_ctrader_adapter.Venue.Sync.{sync, sync_state, sync_fill, sync_volume}

pub sync-retired :
    (event : ExecutionEvent) (order : Order) (t : Turn)
    → (sync event order t).position.retired_protective_ids ≡ t.position.retired_protective_ids
unfolding sync sync_state sync_fill sync_volume
sync-retired event order t = ground arith
