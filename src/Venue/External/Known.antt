-- ===== src/Venue/External/Known.antt =====
-- What the model keeps of external orders (common/venue_book.py: `_keep_open_order`,
-- `_external_report`, `_external_event`).
use nautilus_ctrader_adapter.Prelude.{
  ℕ, ◌≡◌, sym, subst, Bool, true, false, none, some, List, [], ◌∷◌, ◌≤◌, arith, any, if◌then◌else◌,
  ◌||◌, ◌&&◌, not,
}
use nautilus_ctrader_adapter.Prelude.Eq.{ℕ_eq}
use nautilus_ctrader_adapter.Prelude.Dict.{
  lookup, lookup-insert_self, lookup-erase, member, member-add,
}
use nautilus_ctrader_adapter.Messages.{
  Order, ExecutionType, order_filled, order_accepted, order_cancelled, order_expired,
  order_rejected, ExecutionEvent, stated,
}
use nautilus_ctrader_adapter.Records.{Record, external_order}
use nautilus_ctrader_adapter.VenueState.{Book, Callbacks, Turn, told, turn_of, is_done}
use nautilus_ctrader_adapter.Venue.Sync.{is_fill}
use nautilus_ctrader_adapter.Venue.External.{
  is_pending_type, keep_open_order, keep_pending, keep_newer, external_event, external_step,
  report_first, order_updated,
}

-- The kinds that end a pending order.
abbrev pub ends : ExecutionType → Bool
ends order_filled = true
ends order_cancelled = true
ends order_expired = true
ends order_rejected = true
ends _ = false

-- The events of one order that is known, one after another: each with its kind and its state.
pub keep_all : List (ExecutionType × Order) → Book → Book
unfolding keep_open_order
keep_all [] book = book
keep_all ((kind, order) ∷ events) book = keep_all events (keep_open_order kind order true book).1

-- Every state is of the order `id`.
abbrev pub AllOf : ℕ → List (ExecutionType × Order) → Type 0
AllOf id [] = Unit
AllOf id ((kind, order) ∷ events) = (order.order_id ≡ id) × AllOf id events

keep-gone :
    (kind : ExecutionType) (order : Order) (book : Book)
    → lookup order.order_id book.open_orders ≡ none
    → lookup order.order_id (keep_open_order kind order true book).1.open_orders ≡ none
unfolding keep_open_order keep_pending keep_newer
keep-gone kind order book h =
    ground (arith, h, lookup-erase order.order_id order.order_id book.open_orders)

keep_all-gone :
    (id : ℕ) (events : List (ExecutionType × Order)) (book : Book)
    → AllOf id events
    → lookup id book.open_orders ≡ none
    → lookup id (keep_all events book).open_orders ≡ none
unfolding keep_all
keep_all-gone id [] book a h = h
keep_all-gone id ((kind, order) ∷ events) book (e, a) h =
    keep_all-gone id events (keep_open_order kind order true book).1 a (
      subst (λ i. lookup i (keep_open_order kind order true book).1.open_orders ≡ none) e
        (keep-gone kind order book (subst (λ i. lookup i book.open_orders ≡ none) (sym e) h)))

-- An order that is known and that ended is held no longer, and no state of it that arrives later
-- brings it back.
pub keep_open_order-ended :
    (kind : ExecutionType) (order : Order) (later : List (ExecutionType × Order)) (known : Bool)
    (book : Book)
    → is_pending_type order.order_type ≡ true
    → ends kind ≡ true
    → AllOf order.order_id later
    → lookup order.order_id (keep_all later (keep_open_order kind order known book).1).open_orders
      ≡ none
unfolding keep_open_order keep_pending
keep_open_order-ended kind order later known book p e a =
    keep_all-gone order.order_id later (keep_open_order kind order known book).1 a
      (ground (arith, p, e, lookup-erase order.order_id order.order_id book.open_orders))

-- The state that is held of a known order never goes back in time: it stays the held one, or is
-- one no older that is taken; it is dropped where the order ended.
pub keep_open_order-newest :
    (kind : ExecutionType) (order : Order) (book : Book) (held : Order)
    → lookup order.order_id book.open_orders ≡ some held
    → let (taken, book') = keep_open_order kind order true book in
      (lookup order.order_id book'.open_orders ≡ (
        if is_pending_type order.order_type && ends kind
        then none
        else some (if taken then order else held)))
      × (taken ≡ true → stated held.last_update ≤ stated order.last_update)
unfolding keep_open_order keep_pending keep_newer
keep_open_order-newest kind order book held h = ground (
  arith,
  h,
  lookup-erase order.order_id order.order_id book.open_orders,
  lookup-insert_self order.order_id order book.open_orders,
)

abbrev pub is_report : Record → Bool
is_report (external_order o) = true
is_report _ = false

-- An event of an order's reports: of one that is known, or none.
abbrev reports : ExecutionType → Bool
reports order_accepted = true
reports kind = is_fill kind

step-reports :
    (c : Callbacks) (event : ExecutionEvent) (order : Order) (precision : ℕ)
    (reduce known taken : Bool) (t : Turn)
    → let outcome = external_step c event order precision reduce known taken t in
      (any is_report (told outcome)
        ≡ (is_done outcome && not known && reports event.execution_type))
      × (is_done outcome ≡ true
          → member order.order_id (turn_of outcome).book.reported
            ≡ (any is_report (told outcome) || member order.order_id t.book.reported))
unfolding external_step report_first order_updated
step-reports c event order precision reduce known taken t =
    ground (arith, member-add order.order_id order.order_id t.book.reported)

keep_open_order-reported :
    (kind : ExecutionType) (order : Order) (known : Bool) (b : Book)
    → (keep_open_order kind order known b).1.reported ≡ b.reported
unfolding keep_open_order keep_pending keep_newer
keep_open_order-reported kind order known b = ground arith

-- What is known stays so through any event of an order's reports.
step-known :
    (c : Callbacks) (event : ExecutionEvent) (order : Order) (precision id : ℕ)
    (reduce known taken : Bool) (t : Turn)
    → member id t.book.reported ≡ true
    → member id (turn_of (external_step c event order precision reduce known taken t)).book.reported
      ≡ true
unfolding external_step report_first order_updated
step-known c event order precision id reduce known taken t h =
    ground (arith, h, member-add order.order_id id t.book.reported)

external_event-known :
    (c : Callbacks) (event : ExecutionEvent) (order : Order) (precision id : ℕ) (reduce : Bool)
    (t : Turn)
    → member id t.book.reported ≡ true
    → member id (turn_of (external_event c event order precision reduce t)).book.reported ≡ true
unfolding external_event
external_event-known c event order precision id reduce t h =
    let known = member order.order_id t.book.reported in
    let kept = keep_open_order event.execution_type order known t.book in
    step-known c event order precision id reduce known kept.0 (record t { book = kept.1 })
      (ground (arith, h, keep_open_order-reported event.execution_type order known t.book))

-- The external events of any orders, one after another.
abbrev pub after_all : Callbacks → List (ExecutionEvent × Order × ℕ × Bool) → Turn → Turn
after_all c [] t = t
after_all c ((event, order, precision, reduce) ∷ later) t =
    after_all c later (turn_of (external_event c event order precision reduce t))

after_all-known :
    (c : Callbacks) (later : List (ExecutionEvent × Order × ℕ × Bool)) (id : ℕ) (t : Turn)
    → member id t.book.reported ≡ true
    → member id (after_all c later t).book.reported ≡ true
after_all-known c [] id t h = h
after_all-known c ((event, order, precision, reduce) ∷ later) id t h =
    after_all-known c later id (turn_of (external_event c event order precision reduce t))
      (external_event-known c event order precision id reduce t h)

reports_exactly :
    (c : Callbacks) (event : ExecutionEvent) (order : Order) (precision : ℕ) (reduce : Bool)
    (t : Turn)
    → let outcome = external_event c event order precision reduce t in
      let known = member order.order_id t.book.reported in
      (any is_report (told outcome)
        ≡ (is_done outcome && not known && reports event.execution_type))
      × (is_done outcome ≡ true
          → member order.order_id (turn_of outcome).book.reported
            ≡ (any is_report (told outcome) || known))
unfolding external_event
reports_exactly c event order precision reduce t =
    let known = member order.order_id t.book.reported in
    let kept = keep_open_order event.execution_type order known t.book in
    ground (
      arith,
      keep_open_order-reported event.execution_type order known t.book,
      step-reports c event order precision reduce known kept.0 (record t { book = kept.1 }),
    )

-- The event that comes after others reports no order that is known.
silent_after :
    (c : Callbacks) (later : List (ExecutionEvent × Order × ℕ × Bool)) (event : ExecutionEvent)
    (order : Order) (precision id : ℕ) (reduce : Bool) (t : Turn)
    → order.order_id ≡ id
    → member id t.book.reported ≡ true
    → any is_report (told (external_event c event order precision reduce (after_all c later t)))
      ≡ false
silent_after c later event order precision id reduce t e h =
    let last = after_all c later t in
    let known : member order.order_id last.book.reported ≡ true =
      subst (λ i. member i last.book.reported ≡ true) (sym e) (after_all-known c later id t h) in
    ground (arith, known, (reports_exactly c event order precision reduce last).0)

-- Where nothing raises, the first acceptance or fill of an order that is not known reports it, and
-- no other event does. An order that was reported, or was known, stays known through any further
-- external events, of whatever orders: no event of it that comes after them reports it.
pub external_event-reports_once :
    (c : Callbacks) (event : ExecutionEvent) (order : Order) (precision : ℕ) (reduce : Bool)
    (t : Turn) (later : List (ExecutionEvent × Order × ℕ × Bool))
    → let outcome = external_event c event order precision reduce t in
      let known = member order.order_id t.book.reported in
      (any is_report (told outcome)
        ≡ (is_done outcome && not known && reports event.execution_type))
      × (is_done outcome ≡ true
          → member order.order_id (turn_of outcome).book.reported
            ≡ (any is_report (told outcome) || known))
      × (is_done outcome && (any is_report (told outcome) || known) ≡ true
          → (event' : ExecutionEvent) (order' : Order) (precision' : ℕ) (reduce' : Bool)
          → order'.order_id ≡ order.order_id
          → any is_report (
              told (
                external_event c event' order' precision' reduce'
                  (after_all c later (turn_of outcome))))
            ≡ false)
external_event-reports_once c event order precision reduce t later =
    let outcome = external_event c event order precision reduce t in
    let (told_so, known_so) = reports_exactly c event order precision reduce t in
    (
      told_so,
      known_so,
      λ h event' order' precision' reduce' e.
          silent_after c later event' order' precision' order.order_id reduce' (turn_of outcome) e
            (ground (arith, h, known_so)),
    )
