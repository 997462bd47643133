-- ===== src/Venue/Opening/Entry.antt =====
-- The node's entries: acceptance, fills and ends (common/venue_book.py, `_entry_event`).
use nautilus_ctrader_adapter.Prelude.{
  ℕ, ◌≡◌, refl, true, false, none, some, List, [], ◌∷◌, ◌++◌, arith, if◌then◌else◌, ◌∙◌, ap,
  Option-cases, inl, inr,
}
use mathlib.Core.List.{append_assoc}
use nautilus_ctrader_adapter.Prelude.Eq.{ℕ_eq}
use nautilus_ctrader_adapter.Prelude.Dict.{lookup, lookup-erase, member, member-add}
use nautilus_ctrader_adapter.Messages.{Order, ExecutionEvent, stated, deal_of}
use nautilus_ctrader_adapter.Records.{
  Record, OrderEventKind, canceled, expired, rejected, Fill, fill_of, no_levels,
}
use nautilus_ctrader_adapter.VenueState.{
  Position, Callbacks, Turn, Outcome, done, ◌>>>◌, told, turn_of,
}
use nautilus_ctrader_adapter.Venue.Legs.{cancel_legs}
use nautilus_ctrader_adapter.Venue.Legs.Changes.{level_changes-IsCurrent}
use nautilus_ctrader_adapter.Venue.Legs.Ends.{NoLive, cancel_legs-live, cancel_legs-keeps}
use nautilus_ctrader_adapter.Venue.Legs.Accepted.{
  is_accepted, accepts, accepts-append, level_changes-accepts, cancel_legs-accepts,
}
use nautilus_ctrader_adapter.Venue.External.{filled_event}
use nautilus_ctrader_adapter.Venue.Opening.{
  accepted_event, on_position, entry_accepted_step, entry_filled_step, entry_ended_step,
  early_levels, await_step, entry_event, cancel_unopened, drop_unopened,
}

early_levels-accepted :
    (ts : ℕ) (p : Position) → (early_levels ts p).0.entry_accepted ≡ p.entry_accepted
unfolding early_levels
early_levels-accepted ts p = ground (arith, (level_changes-IsCurrent no_levels false ts p).1.3)

await_step-accepted : (p : Position) → (await_step p).0.entry_accepted ≡ p.entry_accepted
unfolding await_step
await_step-accepted p = ground arith

early_levels-accepts : (ts : ℕ) (p : Position) → accepts (early_levels ts p).1 ≡ false
unfolding early_levels
early_levels-accepts ts p = ground (arith, level_changes-accepts no_levels false ts p)

await_step-accepts : (p : Position) → accepts (await_step p).1 ≡ false
unfolding await_step
await_step-accepts p = ground arith

-- The rest of a fill's step, once its acceptance is settled.
rest_of :
    (fill_ts : ℕ) (first : List Record) (filled : Record) (t : Turn)
    → t.position.entry_accepted ≡ true
    → let outcome =
        done t first
        >>> (λ t'. done t' (filled ∷ []))
        >>> on_position (early_levels fill_ts)
        >>> on_position await_step in
      ((more : List Record) × (told outcome ≡ first ++ filled ∷ more) × (accepts more ≡ false))
      × ((turn_of outcome).position.entry_accepted ≡ true)
rest_of ts first filled t h =
    let p1 : Position = (early_levels ts t.position).0 in
    let early = (early_levels ts t.position).1 in
    let awaits = (await_step p1).1 in
    (
      (
        early ++ awaits,
        simp append_assoc,
        ground (
          arith,
          accepts-append early awaits,
          early_levels-accepts ts t.position,
          await_step-accepts p1,
        ),
      ),
      await_step-accepted p1 ∙ early_levels-accepted ts t.position ∙ h,
    )

-- The acceptance, as one step that does not branch on the state.
first_step :
    (order : Order) (t : Turn)
    → entry_accepted_step order t
      ≡ done
          (record t { position = record t.position { entry_accepted = true } })
          (if t.position.entry_accepted
            then []
            else accepted_event order t.position.entry_client_order_id ∷ [])
unfolding entry_accepted_step
first_step order t = ground arith

-- A step that tells no acceptance and leaves the entry accepted.
abbrev Quiet : Outcome → Type 0
Quiet outcome =
    (accepts (told outcome) ≡ false) × ((turn_of outcome).position.entry_accepted ≡ true)

filled-Quiet :
    (c : Callbacks) (event : ExecutionEvent) (order : Order) (precision : ℕ) (t : Turn)
    → t.position.entry_accepted ≡ true
    → Quiet (entry_filled_step c event order precision t)
unfolding entry_filled_step
filled-Quiet c event order precision t h =
    elim (Option-cases (fill_of (deal_of event) precision c.money_digits)) [
      | inl e ↦ rw e (refl, h)
      | inr (fill, e) ↦
          let t' = record t { position = record t.position { entry_accepted = true } } in
          let ((more, same, quiet), accepted) =
            rest_of fill.ts_ms [] (filled_event order t.position.entry_client_order_id fill) t'
              refl in
          rw (e, first_step order t, h) (ap accepts same ∙ quiet, accepted)
    ]

ended-Quiet :
    (ended : OrderEventKind) (event : ExecutionEvent) (order : Order) (t : Turn)
    → is_accepted ended ≡ false
    → t.position.entry_accepted ≡ true
    → Quiet (entry_ended_step ended event order t)
unfolding entry_ended_step cancel_unopened drop_unopened
ended-Quiet ended event order t k h =
    let ts = stated order.last_update in
    ground (
      arith,
      k,
      h,
      cancel_legs-accepts ts t.position,
      accepts-append (cancel_legs ts t.position).1 [],
    )

accepted-Quiet :
    (order : Order) (t : Turn)
    → t.position.entry_accepted ≡ true
    → Quiet (entry_accepted_step order t)
unfolding entry_accepted_step
accepted-Quiet order t h = ground (arith, h)

entry_event-Quiet :
    (c : Callbacks) (event : ExecutionEvent) (order : Order) (precision : ℕ) (t : Turn)
    → t.position.entry_accepted ≡ true
    → Quiet (entry_event c event order precision t)
unfolding entry_event
entry_event-Quiet c event order precision t h =
    let ended = λ (kind : OrderEventKind) (k : is_accepted kind ≡ false).
      ended-Quiet kind event order t k h in
    ground (
      arith,
      h,
      accepted-Quiet order t h,
      filled-Quiet c event order precision t h,
      ended canceled refl,
      ended expired refl,
      ended rejected refl,
    )

-- What a sequence of the entry's events tells.
abbrev pub entry_told : Callbacks → List (ExecutionEvent × Order × ℕ) → Turn → List Record
entry_told c [] t = []
entry_told c ((event, order, precision) ∷ later) t =
    told (entry_event c event order precision t)
    ++ entry_told c later (turn_of (entry_event c event order precision t))

entry_told-accepts :
    (c : Callbacks) (later : List (ExecutionEvent × Order × ℕ)) (t : Turn)
    → t.position.entry_accepted ≡ true
    → accepts (entry_told c later t) ≡ false
entry_told-accepts c [] t h = refl
entry_told-accepts c ((event, order, precision) ∷ later) t h =
    let outcome = entry_event c event order precision t in
    let (silent, still) = entry_event-Quiet c event order precision t h in
    let rest = entry_told-accepts c later (turn_of outcome) still in
    rw (accepts-append (told outcome) (entry_told c later (turn_of outcome)), silent) rest

-- A fill of the entry is told after its acceptance, which is told with it if it was not before.
-- Nothing else that the fill tells is an acceptance of an entry, and neither is anything that the
-- entry's later events tell, whatever they are.
pub entry_filled_step-told :
    (c : Callbacks) (event : ExecutionEvent) (order : Order) (precision : ℕ) (t : Turn)
    (fill : Fill) (later : List (ExecutionEvent × Order × ℕ))
    → fill_of (deal_of event) precision c.money_digits ≡ some fill
    → let outcome = entry_filled_step c event order precision t in
      let id = t.position.entry_client_order_id in
      ((more : List Record) × (told outcome
          ≡ (if t.position.entry_accepted then [] else accepted_event order id ∷ [])
            ++ filled_event order id fill ∷ more)
        × (accepts more ≡ false))
      × (accepts (entry_told c later (turn_of outcome)) ≡ false)
unfolding entry_filled_step
entry_filled_step-told c event order precision t fill later e =
    let id = t.position.entry_client_order_id in
    let (records, accepted) =
      rest_of fill.ts_ms (if t.position.entry_accepted then [] else accepted_event order id ∷ [])
        (filled_event order id fill)
        (record t { position = record t.position { entry_accepted = true } }) refl in
    rw (e, first_step order t) (records, entry_told-accepts c later _ accepted)

-- An entry that ended before it opened is dropped from the model and remembered as ended; none of
-- its legs stays live.
pub entry_ended_step-drops :
    (ended : OrderEventKind) (event : ExecutionEvent) (order : Order) (t : Turn)
    → t.position.volume ≡ 0
    → t.position.is_open ≡ false
    → t.is_kept ≡ true
    → let t' = turn_of (entry_ended_step ended event order t) in
      (lookup t.position.position_id t'.book.positions ≡ none)
      × (t'.is_kept ≡ false)
      × (member order.order_id t'.book.ended_entries ≡ true)
      × NoLive t'.position.legs
unfolding entry_ended_step
entry_ended_step-drops ended event order t v o k = ground (
  arith,
  cancel_legs-live (stated order.last_update) t.position,
  cancel_legs-keeps (stated order.last_update) t.position,
  lookup-erase t.position.position_id t.position.position_id t.book.positions,
  member-add order.order_id order.order_id t.book.ended_entries,
)
