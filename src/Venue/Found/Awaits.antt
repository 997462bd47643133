-- ===== src/Venue/Found/Awaits.antt =====
-- How long a kept position waits for its close (common/venue_book.py: `apply`, `awaits_close`,
-- `end_keep`).
use nautilus_ctrader_adapter.Prelude.{ℕ, ◌≡◌, true, false, arith, nat_eq, nat_eq_iff}
use nautilus_ctrader_adapter.Prelude.Eq.{ℕ_eq}
use nautilus_ctrader_adapter.Prelude.Dict.{member-add, member-discard}
use nautilus_ctrader_adapter.Messages.{Order, ExecutionEvent, stated}
use nautilus_ctrader_adapter.VenueState.{Book}
use nautilus_ctrader_adapter.Venue.Apply.{end_kept, is_held_open}
use nautilus_ctrader_adapter.Venue.Found.{awaits_close, end_keep}

-- A position that waits for its close waits on after an event of it as long as the model holds it
-- open, however old the event is, and no longer; the wait is over once it is known open after all.
-- The waiting of any other position is left alone.
pub end_kept-awaits_close :
    (event : ExecutionEvent) (order : Order) (book : Book) (other : ℕ)
    → awaits_close (stated order.position_id) book ≡ true
    → let id = stated order.position_id in
      (awaits_close id (end_kept event order book) ≡ is_held_open id book)
      × (awaits_close id (end_keep id book) ≡ false)
      × (nat_eq other id ≡ false
          → (awaits_close other (end_kept event order book) ≡ awaits_close other book)
            × (awaits_close other (end_keep id book) ≡ awaits_close other book))
unfolding end_kept awaits_close end_keep
end_kept-awaits_close event order book other h =
    let id = stated order.position_id in
    ground (
      arith,
      h,
      nat_eq_iff other id,
      member-discard id id book.kept,
      member-discard id other book.kept,
      member-discard id id book.unconfirmed,
      member-discard id other book.unconfirmed,
      member-add id id book.unconfirmed,
      member-add id other book.unconfirmed,
    )
