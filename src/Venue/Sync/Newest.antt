-- ===== src/Venue/Sync/Newest.antt =====
-- What `_sync` keeps (common/venue_book.py).
use nautilus_ctrader_adapter.Prelude.{ℕ, ◌≤◌, ◌<◌, ◌≡◌, refl, Option, none, some, arith}
use nautilus_ctrader_adapter.Prelude.Eq.{ℕ_eq}
use nautilus_ctrader_adapter.Prelude.Dict.{member-add}
use nautilus_ctrader_adapter.Messages.{Order, VenuePosition, Deal, ExecutionEvent, stated}
use nautilus_ctrader_adapter.VenueState.{Position, Turn}
use nautilus_ctrader_adapter.Venue.Sync.{sync, sync_state, sync_fill, terms_of, is_open_status}

-- A position state older than the newest one applied moves neither volume, status, terms nor
-- time; any other is taken whole, and the newest time never falls.
pub sync_state-newest :
    (state : VenuePosition) (p : Position) (newest : ℕ)
    → p.updated_ms ≡ some newest
    → let q = sync_state state p in
      let stamp = stated state.last_update in
      (stamp < newest
        → (q.volume ≡ p.volume)
          × (q.is_open ≡ p.is_open)
          × (q.terms ≡ p.terms)
          × (q.updated_ms ≡ some newest))
      × (newest ≤ stamp
          → (q.volume ≡ state.trade_data.volume)
            × (q.is_open ≡ is_open_status state.position_status)
            × (q.terms ≡ some (terms_of state))
            × (q.updated_ms ≡ some stamp))
unfolding sync_state
sync_state-newest state p newest e = ground arith

sync_state-sync_state :
    (state : VenuePosition) (p : Position)
    → sync_state state (sync_state state p) ≡ sync_state state p
unfolding sync_state
sync_state-sync_state state p = ground arith

sync_fill-sync_fill :
    (event : ExecutionEvent) (order : Order) (t : Turn) (deal : Option Deal)
    → event.deal ≡ deal
    → sync_fill event order (sync_fill event order t) ≡ sync_fill event order t
unfolding sync_fill
sync_fill-sync_fill event order t none e = ground arith
sync_fill-sync_fill event order t (some deal) e =
    ground (arith, member-add deal.deal_id deal.deal_id t.book.synced_deals)

sync-cases :
    (event : ExecutionEvent) (order : Order) (t : Turn) (state : Option VenuePosition)
    → event.position ≡ state
    → sync event order (sync event order t) ≡ sync event order t
unfolding sync
sync-cases event order t (some state) e = ground (arith, sync_state-sync_state state t.position)
sync-cases event order t none e = ground (arith, sync_fill-sync_fill event order t event.deal refl)

-- What an event says of its position is applied once when it is applied twice in a row.
pub sync-sync :
    (event : ExecutionEvent) (order : Order) (t : Turn)
    → sync event order (sync event order t) ≡ sync event order t
sync-sync event order t = sync-cases event order t event.position refl
