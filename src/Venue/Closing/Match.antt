-- ===== src/Venue/Closing/Match.antt =====
-- Which order a close of the node's is (common/venue_book.py: `_closing`, `_node_close`).
use nautilus_ctrader_adapter.Prelude.{
  ℕ, ◌≡◌, sym, subst, Bool, true, false, Option, none, some, [], ◌∷◌, arith, ◌||◌, nat_eq_iff,
  Option-cases, inl, inr,
}
use nautilus_ctrader_adapter.Prelude.Eq.{Text, ℕ_eq, text_eq, text_eq_iff}
use nautilus_ctrader_adapter.Prelude.Dict.{Dict, lookup, insert, lookup-insert, contains, member}
use nautilus_ctrader_adapter.Messages.{Order, ExecutionEvent}
use nautilus_ctrader_adapter.Records.{Record, order_event}
use nautilus_ctrader_adapter.VenueState.{Book, Turn, told}
use nautilus_ctrader_adapter.Venue.Closing.{names_close, record_close, match_order, match_candidate}

-- No close is the name of two orders.
abbrev pub OneOrder : Dict ℕ Text → Type 0
OneOrder closes =
    (i j : ℕ) (id : Text) → lookup i closes ≡ some id → lookup j closes ≡ some id → i ≡ j

names_close-lookup :
    (i : ℕ) (id : Text) (closes : Dict ℕ Text)
    → lookup i closes ≡ some id
    → names_close id closes ≡ true
unfolding names_close
names_close-lookup i id [] h = ground (arith, h)
names_close-lookup i id ((j, other) ∷ closes) h =
    ground (arith, h, names_close-lookup i id closes, text_eq_iff other id)

insert-OneOrder :
    (order_id : ℕ) (candidate : Text) (closes : Dict ℕ Text)
    → names_close candidate closes ≡ false
    → OneOrder closes
    → OneOrder (insert order_id candidate closes)
insert-OneOrder order_id candidate closes n one i j id a b = ground (
  arith,
  n,
  lookup-insert order_id i candidate closes,
  lookup-insert order_id j candidate closes,
  names_close-lookup i id closes,
  names_close-lookup j id closes,
  one i j id,
)

match_candidate-fresh :
    (event : ExecutionEvent) (order : Order) (t : Turn) (candidate : Text)
    → match_candidate event order t ≡ some candidate
    → names_close candidate t.book.closes ≡ false
unfolding match_candidate
match_candidate-fresh event order t candidate h = ground (arith, h)

match_candidate-server :
    (event : ExecutionEvent) (order : Order) (t : Turn)
    → (event.is_server_event || order.is_stop_out || member order.order_id t.book.reported) ≡ true
    → match_candidate event order t ≡ none
unfolding match_candidate
match_candidate-server event order t h = ground (arith, h)

-- What a step keeps of the matches: every one that was made.
abbrev pub KeepsMatches : Dict ℕ Text → Dict ℕ Text → Type 0
KeepsMatches before after =
    (order_id : ℕ) (close_id : Text)
    → lookup order_id before ≡ some close_id
    → lookup order_id after ≡ some close_id

abbrev pub Matched : ExecutionEvent → Order → Turn → Option Text × Turn → Type 0
Matched event order t (id, t') =
    OneOrder t'.book.closes
    × (lookup order.order_id t'.book.closes ≡ id)
    × KeepsMatches t.book.closes t'.book.closes
    × ((event.is_server_event || order.is_stop_out || member order.order_id t.book.reported) ≡ true
        → id ≡ lookup order.order_id t.book.closes)

-- A close of the node's is matched to one order at most, whatever order's event comes; a match
-- once made stays, and an event of the server's, a stop-out or an order already reported as
-- external is matched to no further close.
pub match_order-OneOrder :
    (event : ExecutionEvent) (order : Order) (t : Turn)
    → OneOrder t.book.closes
    → Matched event order t (match_order event order t)
unfolding match_order
match_order-OneOrder event order t one = elim (Option-cases (lookup order.order_id t.book.closes)) [
  | inr (id, e) ↦
      let known : match_order event order t ≡ (some id, t) = ground (arith, e) in
      subst (Matched event order t) (sym known) (one, e, (λ i c h. h), λ h. sym e)
  | inl e ↦ elim (Option-cases (match_candidate event order t)) [
    | inl m ↦
        let unmatched : match_order event order t ≡ (none, t) = ground (arith, e, m) in
        subst (Matched event order t) (sym unmatched) (one, e, (λ i c h. h), λ h. sym e)
    | inr (candidate, m) ↦
        let fresh = match_candidate-fresh event order t candidate m in
        let inserted = lookup-insert order.order_id order.order_id candidate t.book.closes in
        let t' : Turn = record t {
          book = record_close order.order_id t.position.position_id candidate t.book;
        } in
        let matched : match_order event order t ≡ (some candidate, t') = ground (arith, e, m) in
        subst (Matched event order t) (sym matched) (
          insert-OneOrder order.order_id candidate t.book.closes fresh one,
          ground (arith, inserted),
          (λ i c h. ground (
            arith,
            lookup-insert order.order_id i candidate t.book.closes,
            h,
            e,
            nat_eq_iff i order.order_id,
          )),
          λ h. ground (arith, m, match_candidate-server event order t h),
        )
  ]
]

abbrev pub is_told_as : Text → Record → Bool
is_told_as id (order_event told) = elim told.client_order_id [
  | none ↦ false
  | some other ↦ text_eq other id
]
is_told_as id _ = false

-- The two dicts of closes have the same orders.
abbrev pub SameOrders : Book → Type 0
SameOrders book = (i : ℕ) → contains i book.closes ≡ contains i book.close_positions

-- The two dicts of closes have the same orders after one is recorded in both.
pub record_close-SameOrders :
    (order_id position_id : ℕ) (id : Text) (book : Book)
    → SameOrders book
    → SameOrders (record_close order_id position_id id book)
record_close-SameOrders order_id position_id id book same i = ground (
  arith,
  same i,
  lookup-insert order_id i id book.closes,
  lookup-insert order_id i position_id book.close_positions,
)

-- An event of a close leaves the two dicts with the same orders.
pub match_order-SameOrders :
    (event : ExecutionEvent) (order : Order) (t : Turn)
    → SameOrders t.book
    → SameOrders (match_order event order t).1.book
unfolding match_order
match_order-SameOrders event order t same i = elim (Option-cases (match_candidate event order t)) [
  | inl m ↦ ground (arith, same i, m)
  | inr (candidate, m) ↦ ground (
    arith,
    same i,
    m,
    record_close-SameOrders order.order_id t.position.position_id candidate t.book same i,
  )
]
