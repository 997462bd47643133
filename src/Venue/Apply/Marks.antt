-- ===== src/Venue/Apply/Marks.antt =====
-- What `apply` marks of the events it handled (common/venue_book.py: `_handle`, `_unloaded`,
-- `apply`, `trailing_stop_moved`).
use nautilus_ctrader_adapter.Prelude.{
  ℕ, ◌≡◌, refl, true, List, [], ◌∷◌, arith, Option-cases, inl, inr,
}
use nautilus_ctrader_adapter.Prelude.Eq.{ℕ_eq}
use nautilus_ctrader_adapter.Prelude.Dict.{member, member-add}
use nautilus_ctrader_adapter.Messages.{Order, ExecutionEvent, TrailingEvent, deal_of}
use nautilus_ctrader_adapter.Operations.{OperationsInFlight}
use nautilus_ctrader_adapter.VenueState.{Book, Callbacks, Outcome, done, raised, Key, is_seen}
use nautilus_ctrader_adapter.VenueState.Marks.{SameMarks, Keeps}
use nautilus_ctrader_adapter.Venue.Sync.{position_for, sync}
use nautilus_ctrader_adapter.Venue.Sync.Marks.{position_for-marks, sync-marks}
use nautilus_ctrader_adapter.Venue.Unloaded.{track_order, reduce_pending}
use nautilus_ctrader_adapter.Venue.Opening.{opening}
use nautilus_ctrader_adapter.Venue.Closing.{closing}
use nautilus_ctrader_adapter.Venue.Protective.{protective}
use nautilus_ctrader_adapter.Venue.Opening.Marks.{opening-Keeps}
use nautilus_ctrader_adapter.Venue.Closing.Marks.{closing-Keeps}
use nautilus_ctrader_adapter.Venue.Protective.Marks.{protective-Keeps}
use nautilus_ctrader_adapter.Venue.Apply.{
  Applied, apply, apply_order, handle, handled, mark_seen, end_kept, finish, unloaded,
  trailing_stop_moved, trail_applied,
}

finish-marks : (b : Book) (o : Outcome) → Keeps b o → SameMarks b (finish o).book
unfolding finish
finish-marks b (done t records) h = ground (arith, h)
finish-marks b (raised t) h = ground (arith, h)

track_order-marks :
    (event : ExecutionEvent) (order : Order) (b : Book) → SameMarks b (track_order event order b)
unfolding track_order reduce_pending
track_order-marks event order b = ground arith

unloaded-marks :
    (event : ExecutionEvent) (order : Order) (operations : OperationsInFlight) (b : Book)
    → SameMarks b (unloaded event order operations b).book
unfolding unloaded
unloaded-marks event order operations b =
    let t = position_for event order operations b in
    let synced = (finish (done (sync event order t) [])).book in
    ground (
      arith,
      position_for-marks event order operations b,
      sync-marks event order t,
      finish-marks t.book (done (sync event order t) []) (sync-marks event order t),
      track_order-marks event order synced,
      track_order-marks event order b,
    )

-- The handling of an event leaves the marks alone, whether or not it raises.
pub handle-marks :
    (c : Callbacks) (event : ExecutionEvent) (order : Order) (operations : OperationsInFlight)
    (b : Book)
    → SameMarks b (handle c event order operations b).book
unfolding handle
handle-marks c event order operations b =
    let t = position_for event order operations b in
    elim (Option-cases (c.price_precision order.trade_data.symbol_id)) [
      | inl e ↦ ground (arith, e, unloaded-marks event order operations b)
      | inr (precision, e) ↦
          let ended = member order.order_id b.ended_entries in
          ground (
            arith,
            e,
            position_for-marks event order operations b,
            finish-marks t.book (protective c event order precision t)
                (protective-Keeps c event order precision t),
            finish-marks t.book (closing c event order precision t)
                (closing-Keeps c event order precision t),
            finish-marks t.book (opening c ended event order precision t)
                (opening-Keeps c ended event order precision t),
          )
    ]

-- No mark of the first book is missing in the second.
abbrev pub Grows : Book → Book → Type 0
Grows a b =
    (b.closed_in_reconciliation ≡ a.closed_in_reconciliation)
    × ((key : Key) → is_seen key a.seen ≡ true → is_seen key b.seen ≡ true)
    × ((deal : ℕ) → member deal a.applied_deals ≡ true → member deal b.applied_deals ≡ true)

same-Grows : (a b : Book) → SameMarks a b → Grows a b
same-Grows a b s =
    (ground (arith, s), λ key h. ground (arith, s, h), λ deal h. ground (arith, s, h))

handled-Grows :
    (event : ExecutionEvent) (order : Order) (a : Book) (applied : Applied)
    → SameMarks a applied.book
    → Grows a (handled event order applied).book
unfolding handled mark_seen end_kept
handled-Grows event order a applied s = (
  ground (arith, s),
  (λ key h. ground (arith, s, h)),
  λ deal h.
      let added = member-add (deal_of event).deal_id deal a.applied_deals in
      ground (arith, s, h, added),
)

apply-Grows :
    (c : Callbacks) (event : ExecutionEvent) (operations : OperationsInFlight) (b : Book)
    → Grows b (apply c event operations b).book
unfolding apply apply_order
apply-Grows c event operations b = elim (Option-cases event.order) [
  | inl e ↦ (ground (arith, e), (λ key h. ground (arith, e, h)), λ deal h. ground (arith, e, h))
  | inr (order, e) ↦
      let (closed, seen, deals) =
        handled-Grows event order b (handle c event order operations b)
          (handle-marks c event order operations b) in
      (
        ground (arith, e, closed),
        (λ key h. let k = seen key h in ground (arith, e, h, k)),
        λ deal h. let k = deals deal h in ground (arith, e, h, k),
      )
]

trailing-Grows :
    (c : Callbacks) (event : TrailingEvent) (operations : OperationsInFlight) (b : Book)
    → Grows b (trailing_stop_moved c event operations b).book
unfolding trailing_stop_moved trail_applied
trailing-Grows c event operations b =
    (ground arith, λ key h. ground (arith, h), λ deal h. ground (arith, h))

-- What happens to a book until the next load: events come, and stops are moved.
pub data Happening : Type 0 where
  comes : Callbacks → ExecutionEvent → OperationsInFlight → Happening
  moves : Callbacks → TrailingEvent → OperationsInFlight → Happening

unfoldable pub happen : Happening → Book → Book
happen (comes c event operations) book = (apply c event operations book).book
happen (moves c event operations) book = (trailing_stop_moved c event operations book).book

abbrev pub happen_all : List Happening → Book → Book
happen_all [] book = book
happen_all (happening ∷ later) book = happen_all later (happen happening book)

happen-Grows : (happening : Happening) (book : Book) → Grows book (happen happening book)
unfolding happen
happen-Grows (comes c event operations) book = apply-Grows c event operations book
happen-Grows (moves c event operations) book = trailing-Grows c event operations book

pub happen_all-Grows : (later : List Happening) (book : Book) → Grows book (happen_all later book)
happen_all-Grows [] book = same-Grows book book (refl, refl, refl, refl)
happen_all-Grows (happening ∷ later) book =
    let (closed, seen, deals) = happen-Grows happening book in
    let (closed', seen', deals') = happen_all-Grows later (happen happening book) in
    (
      ground (arith, closed, closed'),
      (λ key h. seen' key (seen key h)),
      λ deal h. deals' deal (deals deal h),
    )
