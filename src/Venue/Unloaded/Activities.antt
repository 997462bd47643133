-- ===== src/Venue/Unloaded/Activities.antt =====
-- What a symbol that is not loaded shows: activities, and the volume left of its pending orders
-- (common/venue_book.py, `_unloaded` and `_track_unloaded`).
use nautilus_ctrader_adapter.Prelude.{
  ℕ, ◌+◌, ◌-◌, ◌<◌, ◌≤◌, ◌≡◌, Bool, true, false, none, some, List, [], ◌∷◌, arith, ltb,
  if◌then◌else◌, all, length,
}
use nautilus_ctrader_adapter.Prelude.Eq.{ℕ_eq}
use nautilus_ctrader_adapter.Prelude.Dict.{lookup, lookup-insert_self, lookup-erase}
use nautilus_ctrader_adapter.Messages.{Order, ExecutionEvent}
use nautilus_ctrader_adapter.Records.{Record, activity, Exposure}
use nautilus_ctrader_adapter.VenueState.{Book}
use nautilus_ctrader_adapter.Venue.Unloaded.{unloaded_records, reduce_pending}

abbrev pub is_activity : Record → Bool
is_activity (activity a) = true
is_activity _ = false

pub unloaded_records-activities :
    (event : ExecutionEvent) (order : Order)
    → (all is_activity (unloaded_records event order) ≡ true)
      × (length (unloaded_records event order) ≤ 1)
unfolding unloaded_records
unloaded_records-activities event order = ground arith

-- Partial fills of an order, one after another.
pub reduce_all : ℕ → List ℕ → Book → Book
unfolding reduce_pending
reduce_all order_id [] book = book
reduce_all order_id (v ∷ volumes) book =
    reduce_all order_id volumes (reduce_pending order_id v book)

abbrev pub total : List ℕ → ℕ
total [] = 0
total (v ∷ volumes) = v + total volumes

reduce_all-none :
    (order_id : ℕ) (volumes : List ℕ) (book : Book)
    → lookup order_id book.unloaded_orders ≡ none
    → lookup order_id (reduce_all order_id volumes book).unloaded_orders ≡ none
unfolding reduce_all
reduce_all-none order_id [] book h = h
reduce_all-none order_id (v ∷ volumes) book h =
    ground (arith, h, reduce_all-none order_id volumes book)

reduce_one :
    (order_id v : ℕ) (book : Book) (held : Exposure)
    → lookup order_id book.unloaded_orders ≡ some held
    → lookup order_id (reduce_pending order_id v book).unloaded_orders
      ≡ (if ltb v held.units then some (record held { units = held.units - v }) else none)
unfolding reduce_pending
reduce_one order_id v book held h = ground (
  arith,
  h,
  lookup-insert_self order_id (record held { units = held.units - v }) book.unloaded_orders,
  lookup-erase order_id order_id book.unloaded_orders,
)

-- However a pending order's volume is filled in parts, what is held of it is what the parts leave:
-- nothing once they reach it.
pub reduce_all-leaves :
    (order_id : ℕ) (volumes : List ℕ) (book : Book) (held : Exposure)
    → lookup order_id book.unloaded_orders ≡ some held
    → 0 < held.units
    → lookup order_id (reduce_all order_id volumes book).unloaded_orders ≡ (
        if ltb (total volumes) held.units
        then some (record held { units = held.units - total volumes })
        else none)
unfolding reduce_all
reduce_all-leaves order_id [] book held h p = ground (arith, h)
reduce_all-leaves order_id (v ∷ volumes) book held h p =
    let next = reduce_pending order_id v book in
    let one = reduce_one order_id v book held h in
    ground (
      arith,
      one,
      reduce_all-none order_id volumes next,
      reduce_all-leaves order_id volumes next (record held { units = held.units - v }),
    )
