-- ===== src/Venue/Load/Reported.antt =====
-- What a load knows of the snapshot's orders (common/venue_book.py, `load`).
use nautilus_ctrader_adapter.Prelude.{
  ℕ, ◌≡◌, refl, Bool, Option, some, List, [], ◌∷◌, arith, ◌||◌, ◌&&◌, not, nat_eq, nat_eq_iff,
  Option-cases, inl, inr, any, is_some,
}
use nautilus_ctrader_adapter.Prelude.Eq.{ℕ_eq, Text}
use nautilus_ctrader_adapter.Prelude.Dict.{Dict, lookup-insert, member, member-add, contains}
use nautilus_ctrader_adapter.Messages.{Order, Snapshot}
use nautilus_ctrader_adapter.Records.{Record}
use nautilus_ctrader_adapter.VenueState.{Book, Callbacks}
use nautilus_ctrader_adapter.Venue.External.{is_pending_type}
use nautilus_ctrader_adapter.Venue.Unloaded.{is_protective, pending}
use nautilus_ctrader_adapter.Venue.Load.{
  load, load_orders, load_order, load_positions, settled, still_waiting, gone_positions, cleared,
}

-- An order that is not protective, by its id.
abbrev pub is_plain : ℕ → Order → Bool
is_plain id order = nat_eq order.order_id id && not (is_protective order.order_type)

-- One that is held by what the node loaded.
abbrev pub is_held : Callbacks → ℕ → Order → Bool
is_held c id order =
    is_plain id order
    && is_some (c.price_precision order.trade_data.symbol_id)
    && is_pending_type order.order_type

abbrev pub is_exposed : Callbacks → ℕ → Order → Bool
is_exposed c id order =
    is_plain id order && not (is_some (c.price_precision order.trade_data.symbol_id))

-- What is known of the order `id` once `orders` are loaded on `before`.
abbrev pub Known : Callbacks → List Order → Book → Book → ℕ → Type 0
Known c orders before after id =
    (member id after.reported ≡ (any (is_plain id) orders || member id before.reported))
    × (contains id after.open_orders
        ≡ (any (is_held c id) orders || contains id before.open_orders))
    × (contains id after.unloaded_orders
        ≡ (any (is_exposed c id) orders || contains id before.unloaded_orders))

load_order-Known :
    (c : Callbacks) (order : Order) (b : Book) (id : ℕ)
    → Known c (order ∷ []) b (load_order c order b) id
unfolding load_order
load_order-Known c order b id = ground (
  arith,
  nat_eq_iff id order.order_id,
  member-add order.order_id id b.reported,
  lookup-insert order.order_id id order b.open_orders,
  lookup-insert order.order_id id (pending order) b.unloaded_orders,
)

load_orders-Known :
    (c : Callbacks) (orders : List Order) (b : Book) (id : ℕ)
    → Known c orders b (load_orders c orders b) id
unfolding load_orders
load_orders-Known c [] b id = (refl, refl, refl)
load_orders-Known c (order ∷ orders) b id =
    ground
      (arith, load_order-Known c order b id, load_orders-Known c orders (load_order c order b) id)

-- After a load that no price stops, the model knows from reports just the snapshot's orders that
-- are not protective; it holds those of them that are pending on a symbol the node has loaded, and
-- keeps the exposure of those on any other.
pub load-reported :
    (c : Callbacks) (snapshot : Snapshot) (lists : Dict ℕ (List Order)) (keep_gone : Bool)
    (read_ms : Option ℕ) (waiting : List Text) (book : Book) (records : List Record)
    → (load c snapshot lists keep_gone read_ms waiting book).records ≡ some records
    → (id : ℕ)
    → let after = (load c snapshot lists keep_gone read_ms waiting book).book in
      (member id after.reported ≡ any (is_plain id) snapshot.orders)
      × (contains id after.open_orders ≡ any (is_held c id) snapshot.orders)
      × (contains id after.unloaded_orders ≡ any (is_exposed c id) snapshot.orders)
unfolding load
load-reported c snapshot lists keep_gone read_ms waiting book records h id =
    let waiting' = still_waiting (settled book.positions) waiting in
    let gone = gone_positions keep_gone snapshot.positions book.positions in
    let loaded = load_positions c waiting' lists snapshot.positions [] in
    let placed : Book = record (cleared read_ms gone book) { positions = loaded.0 } in
    elim (Option-cases loaded.1) [
      | inl e ↦ ground (arith, e, h)
      | inr (told, e) ↦ ground (arith, e, load_orders-Known c snapshot.orders placed id)
    ]
