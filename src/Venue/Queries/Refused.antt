-- ===== src/Venue/Queries/Refused.antt =====
-- Legs whose levels the broker refuses (common/venue_book.py: `reject_legs`,
-- `protection_timed_out`).
use nautilus_ctrader_adapter.Prelude.{
  ℕ, ◌+◌, ◌∙◌, ◌≡◌, false, not, ◌&&◌, Option, none, some, List, [], ◌∷◌, ◌++◌, arith, if◌then◌else◌,
}
use nautilus_ctrader_adapter.Prelude.Eq.{Text, ℕ_eq}
use nautilus_ctrader_adapter.Prelude.Dict.{lookup, lookup-insert_self}
use nautilus_ctrader_adapter.LegId.{Level, stop_loss, take_profit}
use nautilus_ctrader_adapter.Records.{Record, order_event, plain_event, rejected, at}
use nautilus_ctrader_adapter.VenueState.{Position, Leg, Book}
use nautilus_ctrader_adapter.Venue.Legs.{waits, leg_id, reject_round}
use nautilus_ctrader_adapter.Venue.Queries.{reject_both, reject_legs, protection_timed_out}

-- The record of a refused leg.
abbrev pub refusal : Text → ℕ → Position → Level → Option Leg → List Record
refusal reason ts p level none = []
refusal reason ts p level (some leg) =
    if leg.alive && not leg.accepted
    then order_event (record (plain_event rejected (leg_id p level) (some leg.client_order_id) ts) {
      reason = some reason;
    })
      ∷ []
    else []

-- A leg after the refusal: one that waited has ended, never accepted, and any other is as it was.
abbrev pub refused : Option Leg → Option Leg
refused none = none
refused (some leg) =
    if leg.alive && not leg.accepted then some (record leg { alive = false }) else some leg

-- How many of a position's legs wait for their level.
abbrev pub waiting_count : Position → ℕ
waiting_count p =
    (if waits (at stop_loss p.legs) then 1 else 0)
    + (if waits (at take_profit p.legs) then 1 else 0)

reject_both-ends :
    (reason : Text) (ts : ℕ) (p : Position)
    → let (q, records) = reject_both reason ts p in
      (waiting_count q ≡ 0)
      × (records
          ≡ refusal reason ts p stop_loss (at stop_loss p.legs)
            ++ refusal reason ts p take_profit (at take_profit p.legs))
      × (at stop_loss q.legs ≡ refused (at stop_loss p.legs))
      × (at take_profit q.legs ≡ refused (at take_profit p.legs))
      × (q.protective_order_id ≡ p.protective_order_id)
      × (q.is_open ≡ p.is_open)
      × (q.entry_client_order_id ≡ p.entry_client_order_id)
unfolding reject_both reject_round
reject_both-ends reason ts p = ground arith

reject_both-again :
    (reason : Text) (ts : ℕ) (p : Position)
    → waiting_count p ≡ 0
    → reject_both reason ts p ≡ (p, [])
unfolding reject_both reject_round
reject_both-again reason ts p h = ground (arith, h)

timed_out-quiet :
    (id protective : ℕ) (b : Book) (p : Position)
    → lookup id b.positions ≡ some p
    → p.protective_order_id ≡ some protective
    → waiting_count p ≡ 0
    → protection_timed_out id b ≡ []
unfolding protection_timed_out
timed_out-quiet id protective b p l h w = ground (arith, l, h, w)

-- When the broker refuses the levels that a position's legs wait for, each waiting leg is told as
-- rejected with the reason, the stop-loss first, and has ended; no other leg is told or changed.
-- A second refusal tells nothing, and neither does the end of the wait, if a protective order holds
-- the position's other levels.
pub reject_legs-once :
    (id : ℕ) (reason : Text) (ts : ℕ) (book : Book) (p : Position)
    → lookup id book.positions ≡ some p
    → let (book', records) = reject_legs id reason ts book in
      (records
        ≡ refusal reason ts p stop_loss (at stop_loss p.legs)
          ++ refusal reason ts p take_profit (at take_profit p.legs))
      × ((q : Position) × (lookup id book'.positions ≡ some q)
          × (at stop_loss q.legs ≡ refused (at stop_loss p.legs))
          × (at take_profit q.legs ≡ refused (at take_profit p.legs)))
      × ((reject_legs id reason ts book').1 ≡ [])
      × ((protective : ℕ)
          → p.protective_order_id ≡ some protective
          → protection_timed_out id book' ≡ [])
unfolding reject_legs
reject_legs-once id reason ts book p l =
    let (q, records) = reject_both reason ts p in
    let book' = (reject_legs id reason ts book).0 in
    let ends = reject_both-ends reason ts p in
    let stored : lookup id book'.positions ≡ some q =
      ground (arith, l, lookup-insert_self id q book.positions) in
    (
      ground (arith, l, ends.1),
      (q, stored, ends.2, ends.3),
      ground (arith, stored, reject_both-again reason ts q ends.0),
      λ protective h. timed_out-quiet id protective book' q stored (ends.4 ∙ h) ends.0,
    )
