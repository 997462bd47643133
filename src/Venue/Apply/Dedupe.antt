-- ===== src/Venue/Apply/Dedupe.antt =====
-- An event is applied once, and so is a deal (common/venue_book.py, `apply`).
use nautilus_ctrader_adapter.Prelude.{◌≡◌, Bool, true, false, ◌||◌, some, List, arith}
use nautilus_ctrader_adapter.Prelude.Eq.{ℕ_eq}
use nautilus_ctrader_adapter.Prelude.Dict.{member, member-add}
use nautilus_ctrader_adapter.Messages.{Order, ExecutionEvent, stated, deal_of}
use nautilus_ctrader_adapter.Operations.{OperationsInFlight}
use nautilus_ctrader_adapter.Records.{Record}
use nautilus_ctrader_adapter.VenueState.{Book, Callbacks, key_eq}
use nautilus_ctrader_adapter.Venue.Sync.{key_of}
use nautilus_ctrader_adapter.Venue.Apply.{
  Applied, apply, apply_order, handle, handled, is_repeat, mark_seen, end_kept, unchanged, fills,
}
use nautilus_ctrader_adapter.Venue.Apply.Marks.{Grows, Happening, happen_all, happen_all-Grows}

-- Whether an event means nothing: its position is closed in a reconciliation, or it is a repeat.
abbrev is_ignored : ExecutionEvent → Order → Book → Bool
is_ignored event order book =
    member (stated order.position_id) book.closed_in_reconciliation || is_repeat event order book

ignored-unchanged :
    (c : Callbacks) (event : ExecutionEvent) (order : Order) (operations : OperationsInFlight)
    (book : Book)
    → event.order ≡ some order
    → is_ignored event order book ≡ true
    → apply c event operations book ≡ unchanged book operations
unfolding apply apply_order
ignored-unchanged c event order operations book e i = ground (arith, e, i)

Grows-ignored :
    (event : ExecutionEvent) (order : Order) (a b : Book)
    → Grows a b
    → is_ignored event order a ≡ true
    → is_ignored event order b ≡ true
unfolding is_repeat
Grows-ignored event order a b (closed, seen, deals) i =
    let key = seen (key_of event order) in
    let deal = deals (deal_of event).deal_id in ground (arith, closed, key, deal, i)

end_kept-seen :
    (event : ExecutionEvent) (order : Order) (book : Book)
    → (end_kept event order book).seen ≡ book.seen
unfolding end_kept
end_kept-seen event order book = ground arith

end_kept-deals :
    (event : ExecutionEvent) (order : Order) (book : Book)
    → (end_kept event order book).applied_deals ≡ book.applied_deals
unfolding end_kept
end_kept-deals event order book = ground arith

handled-is_repeat :
    (event : ExecutionEvent) (order : Order) (applied : Applied) (records : List Record)
    → key_eq (key_of event order) (key_of event order) ≡ true
    → (handled event order applied).records ≡ some records
    → is_repeat event order (handled event order applied).book ≡ true
unfolding handled is_repeat mark_seen
handled-is_repeat event order applied records k h =
    ground (arith, k, end_kept-seen event order (mark_seen event order applied.book))

handled-deal :
    (event : ExecutionEvent) (order : Order) (applied : Applied) (records : List Record)
    → fills event ≡ true
    → (handled event order applied).records ≡ some records
    → member (deal_of event).deal_id (handled event order applied).book.applied_deals ≡ true
unfolding handled mark_seen
handled-deal event order applied records f h =
    let id = (deal_of event).deal_id in
    ground (
      arith,
      f,
      end_kept-deals event order (mark_seen event order applied.book),
      member-add id id applied.book.applied_deals,
    )

apply-ignored :
    (c : Callbacks) (event : ExecutionEvent) (order : Order) (operations : OperationsInFlight)
    (book : Book) (records : List Record)
    → event.order ≡ some order
    → key_eq (key_of event order) (key_of event order) ≡ true
    → (apply c event operations book).records ≡ some records
    → is_ignored event order (apply c event operations book).book ≡ true
unfolding apply apply_order
apply-ignored c event order operations book records e k h =
    ground
      (arith, e, handled-is_repeat event order (handle c event order operations book) records k)

-- An event that was applied means nothing when it comes again after any further events and moved
-- stops, whatever the node waits on by then: no record, and nothing of the model changes. (The hypothesis leaves out a price that is no number, which is not equal to
-- itself.)
pub apply_again :
    (c c' : Callbacks) (event : ExecutionEvent) (order : Order)
    (operations operations' : OperationsInFlight) (book : Book) (records : List Record)
    (later : List Happening)
    → event.order ≡ some order
    → key_eq (key_of event order) (key_of event order) ≡ true
    → (apply c event operations book).records ≡ some records
    → let book' = happen_all later (apply c event operations book).book in
      apply c' event operations' book' ≡ unchanged book' operations'
apply_again c c' event order operations operations' book records later e k h =
    let first = (apply c event operations book).book in
    ignored-unchanged c' event order operations' (happen_all later first) e (
      Grows-ignored event order first (happen_all later first) (happen_all-Grows later first)
        (apply-ignored c event order operations book records e k h))

-- A fill whose deal was applied means nothing.
fills-ignored :
    (event : ExecutionEvent) (order : Order) (b : Book)
    → fills event ≡ true
    → member (deal_of event).deal_id b.applied_deals ≡ true
    → is_ignored event order b ≡ true
unfolding is_repeat
fills-ignored event order b f m = ground (arith, f, m)

-- A deal fills once: after a fill that was handled, neither left to a reconciliation nor a repeat,
-- any other fill event of the same deal, of whatever kind, order or time, means nothing when it
-- comes after any further events and moved stops.
pub apply-deal_once :
    (c c' : Callbacks) (event other : ExecutionEvent) (order order' : Order)
    (operations operations' : OperationsInFlight) (book : Book) (records : List Record)
    (later : List Happening)
    → event.order ≡ some order
    → other.order ≡ some order'
    → fills event ≡ true
    → fills other ≡ true
    → (deal_of other).deal_id ≡ (deal_of event).deal_id
    → member (stated order.position_id) book.closed_in_reconciliation ≡ false
    → is_repeat event order book ≡ false
    → (apply c event operations book).records ≡ some records
    → let book' = happen_all later (apply c event operations book).book in
      apply c' other operations' book' ≡ unchanged book' operations'
unfolding apply apply_order
apply-deal_once c c' event other order order' operations operations' book records later e e' f f'
      same open_there fresh h =
    let first = (apply c event operations book).book in
    let applied = handle c event order operations book in
    let marked : member (deal_of event).deal_id first.applied_deals ≡ true =
      ground (arith, e, open_there, fresh, h, handled-deal event order applied records f) in
    let kept = (happen_all-Grows later first).2 (deal_of event).deal_id marked in
    ignored-unchanged c' other order' operations' (happen_all later first) e'
      (fills-ignored other order' (happen_all later first) f' (ground (arith, same, kept)))
