-- ===== src/Venue/Found.antt =====
-- What is learnt after a load (common/venue_book.py: `awaits_close`, `end_keep`,
-- `closed_in_reconciliation`, `entry_found`).
pub mod Awaits
use nautilus_ctrader_adapter.Prelude.{
  ℕ, Bool, true, false, ◌&&◌, none, some, List, [], ◌++◌, if◌then◌else◌, is_some,
}
use nautilus_ctrader_adapter.Prelude.Eq.{ℕ_eq, Text_eq}
use nautilus_ctrader_adapter.Prelude.Dict.{lookup, insert, member, discard}
use nautilus_ctrader_adapter.Messages.{Order, stated}
use nautilus_ctrader_adapter.Records.{Record}
use nautilus_ctrader_adapter.VenueState.{Position, ours, Book, Callbacks}
use nautilus_ctrader_adapter.Venue.Foreign
use nautilus_ctrader_adapter.Venue.Foreign.{open_legs}
use nautilus_ctrader_adapter.Venue.Legs.{adopt}
use nautilus_ctrader_adapter.Venue.Orders.{entry_of}

-- `awaits_close`
unfoldable pub awaits_close : ℕ → Book → Bool
awaits_close position_id book =
    if member position_id book.kept then true else elim (lookup position_id book.positions) [
      | none ↦ false
      | some position ↦ member position_id book.unconfirmed && position.is_open
    ]

-- `end_keep`
pub end_keep : ℕ → Book → Book
end_keep position_id book = record book {
  kept = discard position_id book.kept;
  unconfirmed = discard position_id book.unconfirmed;
}

-- `closed_in_reconciliation`
pub closed_in_reconciliation : List ℕ → Book → Book
closed_in_reconciliation position_ids book = record book { closed_in_reconciliation = position_ids }

-- `entry_found`, for a position that the model holds without an entry
pub found_entry : Callbacks → Order → Position → Position × List Record
found_entry c entry position =
    let (p, told) = adopt false [] entry position in
    if ours p
    then (p, told)
    else let (q, more) =
        Foreign.level_changes c (record { at_stop_loss = none; at_take_profit = none })
          (stated entry.last_update) p in
      (q, told ++ more)

-- `entry_found`
pub entry_found : Callbacks → ℕ → List Order → Book → Book × List Record
unfolding found_entry
entry_found c position_id orders book = elim (lookup position_id book.positions) [
  | none ↦ (book, [])
  | some position ↦ if is_some position.entry_order_id then (book, []) else elim (entry_of orders) [
    | none ↦ (book, [])
    | some entry ↦
        let (p, told) = found_entry c entry position in
        (record book { positions = insert position_id p book.positions }, told)
  ]
]
