-- ===== src/Tests/Loads.antt =====
-- A snapshot that lacks the held position and lists another, and an order.
use nautilus_ctrader_adapter.Prelude.{none}
use nautilus_ctrader_adapter.Venue.Load.{gone_positions}
use nautilus_ctrader_adapter.Venue.Load.{open_all}
use nautilus_ctrader_adapter.Venue.Load.{load_order}
use nautilus_ctrader_adapter.Venue.Load.{load_orders}
use nautilus_ctrader_adapter.Venue.Load.{adopt_listed}
use nautilus_ctrader_adapter.Venue.Load.{load_position}
use nautilus_ctrader_adapter.Venue.Load.{load_positions}
use nautilus_ctrader_adapter.Prelude.{◌≡◌, refl, true, false, some, [], ◌∷◌}
use nautilus_ctrader_adapter.Prelude.Eq.{ℕ_eq}
use nautilus_ctrader_adapter.Prelude.Dict.{member, contains}
use nautilus_ctrader_adapter.Messages.{OrderType, Snapshot}
use nautilus_ctrader_adapter.Venue.Load.{load}
use nautilus_ctrader_adapter.Venue.Orders.{entry_of, opening_orders}
use nautilus_ctrader_adapter.Venue.Load.Held.{load-Holds, Holds}
use nautilus_ctrader_adapter.Venue.Load.Reported.{load-reported}
use nautilus_ctrader_adapter.Messages.{order_accepted}
use nautilus_ctrader_adapter.Venue.Apply.{end_kept}
use nautilus_ctrader_adapter.Venue.Found.{awaits_close, end_keep}
use nautilus_ctrader_adapter.Venue.Found.Awaits.{end_kept-awaits_close}
use nautilus_ctrader_adapter.Tests.Data

abbrev snapshot : Snapshot
snapshot = record {
  positions = record Data.state { position_id = 5 } ∷ [];
  orders = Data.order_of 6 OrderType.limit 1 ∷ [];
}

load-Holds_example :
    Holds true snapshot.positions Data.book.positions
      (load Data.callbacks snapshot [] true (some 40) [] Data.book).book
      3
unfolding load load_positions load_position adopt_listed load_orders load_order open_all
    gone_positions entry_of opening_orders
load-Holds_example =
    load-Holds Data.callbacks snapshot [] true (some 40) [] Data.book [] (refl, tt) refl 3

load-reported_example :
    let after = (load Data.callbacks snapshot [] true (some 40) [] Data.book).book in
    (member 6 after.reported ≡ true)
    × (contains 6 after.open_orders ≡ true)
    × (contains 6 after.unloaded_orders ≡ false)
unfolding load load_positions load_position adopt_listed load_orders load_order open_all
    gone_positions entry_of opening_orders
load-reported_example =
    load-reported Data.callbacks snapshot [] true (some 40) [] Data.book [] refl 6

-- Position 3 is kept, and an event of it comes that is older than the snapshot.
end_kept-awaits_close_example :
    let kept = record Data.book { kept = 3 ∷ []; kept_ms = some 40 } in
    let event = Data.event_of order_accepted Data.entry none in
    (awaits_close 3 (end_kept event Data.entry kept) ≡ true)
    × (awaits_close 3 (end_keep 3 kept) ≡ false)
    × (false ≡ false
        → (awaits_close 4 (end_kept event Data.entry kept) ≡ awaits_close 4 kept)
          × (awaits_close 4 (end_keep 3 kept) ≡ awaits_close 4 kept))
unfolding awaits_close
end_kept-awaits_close_example =
    end_kept-awaits_close (Data.event_of order_accepted Data.entry none) Data.entry
      (record Data.book { kept = 3 ∷ []; kept_ms = some 40 }) 4 refl
