-- ===== src/Venue/Queries/Closes.antt =====
-- The node's matched closes (common/venue_book.py: `close_order`, `match_close`, `_closing`).
use nautilus_ctrader_adapter.Prelude.{
  ℕ, ◌≡◌, ap, ◌∙◌, true, false, Option, some, [], ◌∷◌, arith, ◌||◌, nat_eq_iff, Option-cases, inl,
  inr,
}
use nautilus_ctrader_adapter.Prelude.Eq.{Text, ℕ_eq, text_eq_iff}
use nautilus_ctrader_adapter.Prelude.Dict.{Dict, lookup, insert, lookup-insert, contains}
use nautilus_ctrader_adapter.VenueState.{Book}
use nautilus_ctrader_adapter.Venue.Closing.{names_close, record_close}
use nautilus_ctrader_adapter.Venue.Closing.Match.{SameOrders, record_close-SameOrders}
use nautilus_ctrader_adapter.Venue.Queries.{close_among, close_order, match_close}

close_among-found :
    (id : Text) (positions : Dict ℕ ℕ) (closes : Dict ℕ Text) (i : ℕ) (p : Option ℕ)
    → close_among id positions closes ≡ some (i, p)
    → (contains i closes ≡ true) × (p ≡ lookup i positions)
unfolding close_among
close_among-found id positions [] i p h = ground (arith, h)
close_among-found id positions ((j, close_id) ∷ closes) i p h = ground (
  arith,
  h,
  nat_eq_iff i j,
  ap (λ k. lookup k positions) {x = i} {y = j},
  close_among-found id positions closes i p,
)

close_among-insert :
    (id : Text) (positions : Dict ℕ ℕ) (closes : Dict ℕ Text) (i : ℕ)
    → names_close id closes ≡ false
    → close_among id positions (insert i id closes) ≡ some (i, lookup i positions)
unfolding close_among names_close
close_among-insert id positions [] i h = ground (arith, text_eq_iff id id)
close_among-insert id positions ((j, close_id) ∷ closes) i h =
    ground (arith, h, nat_eq_iff i j, text_eq_iff id id, close_among-insert id positions closes i)

-- A close that the model gives the broker's order of is matched to that order, and the order's
-- position is known.
pub close_order-known :
    (id : Text) (book : Book) (order_id : ℕ) (position : Option ℕ)
    → SameOrders book
    → close_order id book ≡ some (order_id, position)
    → (position_id : ℕ) × (position ≡ some position_id)
unfolding close_order
close_order-known id book order_id position same h =
    let (found, p) = close_among-found id book.close_positions book.closes order_id position h in
    elim (Option-cases (lookup order_id book.close_positions)) [
      | inl e ↦ ground (arith, e, found, same order_id)
      | inr (q, e) ↦ (q, p ∙ e)
    ]

-- A close that a query found is given with its order and position from then on, if neither was
-- matched before; the two dicts keep the same orders, so no question fails on a missing one.
pub match_close-close_order :
    (order_id position_id : ℕ) (id : Text) (book : Book)
    → SameOrders book
    → let book' = match_close order_id position_id id book in
      SameOrders book'
      × ((contains order_id book.closes || names_close id book.closes) ≡ false
          → close_order id book' ≡ some (order_id, some position_id))
unfolding match_close close_order
match_close-close_order order_id position_id id book same = (
  (λ i. ground (arith, same i, record_close-SameOrders order_id position_id id book same i)),
  λ h. ground (
    arith,
    h,
    close_among-insert id (record_close order_id position_id id book).close_positions book.closes
        order_id,
    lookup-insert order_id order_id position_id book.close_positions,
  ),
)
