-- ===== src/Venue/Protective/Retired.antt =====
-- Protective orders that another took over from (common/venue_book.py, `_protective`).
use nautilus_ctrader_adapter.Prelude.{
  ℕ, ◌≡◌, ◌≢◌, ◌∙◌, ◌-◌, true, false, Option, none, some, if◌then◌else◌, List, [], ◌∷◌, arith,
  Option-cases, inl, inr, ap,
}
use nautilus_ctrader_adapter.Prelude.Eq.{ℕ_eq}
use nautilus_ctrader_adapter.Prelude.Dict.{member, member-add}
use nautilus_ctrader_adapter.LegId.{Level}
use nautilus_ctrader_adapter.Messages.{
  Order, Deal, ExecutionEvent, ExecutionType, order_accepted, stated, deal_of,
}
use nautilus_ctrader_adapter.Records.{Levels, Fill, fill_of, levels_of, any_level}
use nautilus_ctrader_adapter.VenueState.{Callbacks, Turn, Outcome, done, raised, ◌>>>◌, turn_of}
use nautilus_ctrader_adapter.Venue.Sync.{is_fill, sync}
use nautilus_ctrader_adapter.Venue.Sync.Retired.{sync-retired}
use nautilus_ctrader_adapter.Venue.Legs.Retired.{level_changes-retired, closed_by-retired}
use nautilus_ctrader_adapter.Venue.Foreign.Retired
use nautilus_ctrader_adapter.Venue.Legs.{closed_by}
use nautilus_ctrader_adapter.Venue.External.{or_raise}
use nautilus_ctrader_adapter.Venue.Opening.{on_position}
use nautilus_ctrader_adapter.Venue.Protective.Trailing.{retired-silent}
use nautilus_ctrader_adapter.Venue.Protective.{
  set_levels, read_trigger, protective, protective_set, protective_state, protective_cancelled,
  take_protective, take_levels, retire_current, tell_levels, triggered, fill_step, fill_own,
  fill_external,
}

-- No id that the first turn's position has retired is missing from the outcome's.
record Retains (t : Turn) (outcome : Outcome) : Type 0 where
  kept :
      (id : ℕ)
      → member id t.position.retired_protective_ids ≡ true
      → member id (turn_of outcome).position.retired_protective_ids ≡ true

>>>-Retains :
    (t : Turn) (o : Outcome) (f : Turn → Outcome)
    → Retains t o
    → ((u : Turn) → Retains u (f u))
    → Retains t (o >>> f)
>>>-Retains t (done u records) f h g = record {
  kept = λ id m. let k = (g u).kept id (h.kept id m) in ground (arith, k);
}
>>>-Retains t (raised u) f h g = h

same-Retains :
    (t : Turn) (o : Outcome)
    → (turn_of o).position.retired_protective_ids ≡ t.position.retired_protective_ids
    → Retains t o
same-Retains t o e = record { kept = λ id h. ap (member id) e ∙ h }

fill_step-Retains :
    (order : Order) (deal : Deal) (level : Option Level) (levels : Levels) (fill : Fill) (t : Turn)
    → Retains t (fill_step order deal level levels fill t)
unfolding fill_step fill_own fill_external
fill_step-Retains order deal level levels fill t =
    same-Retains t (fill_step order deal level levels fill t) (ground arith)

close_step-Retains :
    (deal : Deal) (t : Turn)
    → Retains t (on_position (λ p. if p.is_open then (p, []) else closed_by deal p) t)
close_step-Retains deal t = same-Retains t _ (ground (arith, closed_by-retired deal t.position))

or_raise-Retains :
    {A : Type 0} (read : Option A) (t : Turn) (f : A → Outcome)
    → ((a : A) → Retains t (f a))
    → Retains t (or_raise read t f)
or_raise-Retains none t f h = record { kept = λ id m. m }
or_raise-Retains (some a) t f h = h a

triggered-Retains :
    (c : Callbacks) (event : ExecutionEvent) (order : Order) (precision : ℕ) (t : Turn)
    → Retains t (triggered c event order precision t)
unfolding triggered
triggered-Retains c event order precision t =
    let deal : Deal = deal_of event in
    let synced = sync event order t in
    or_raise-Retains (fill_of deal precision c.money_digits) t _ (λ fill.
      or_raise-Retains (levels_of order precision) t _ (λ own.
        let levels : Levels = if any_level own then own else t.position.levels in
        let (level, notices) = read_trigger t.position levels fill.price in
        let first : Outcome =
          done
            (record synced {
              position = record synced.position {
                protective_volume = synced.position.protective_volume - deal.filled_volume;
              };
            })
            notices in
        >>>-Retains t (first >>> fill_step order deal level levels fill) _
          (>>>-Retains t first (fill_step order deal level levels fill)
            (same-Retains t first (sync-retired event order t))
            (λ u. fill_step-Retains order deal level levels fill u))
          (λ u. close_step-Retains deal u)))

set-Retains :
    (order : Order) (precision : ℕ) (t : Turn)
    → Retains t (protective_set order precision t.position t)
unfolding protective_set take_protective take_levels set_levels retire_current
set-Retains order precision t = record {
  kept = λ id h. elim (Option-cases t.position.protective_order_id) [
    | inl e ↦ ground (arith, e, h)
    | inr (current, e) ↦
        ground (arith, e, h, member-add current id t.position.retired_protective_ids)
  ];
}

state-Retains :
    (kind : ExecutionType) (order : Order) (precision : ℕ) (t : Turn) (o : Outcome)
    → protective_state kind order precision t ≡ some o
    → Retains t o
unfolding protective_state protective_cancelled
state-Retains kind order precision t o e = record {
  kept = λ id h.
      let set = (set-Retains order precision t).kept id h in
      ground (arith, e, h, set, member-add order.order_id id t.position.retired_protective_ids);
}

tell-Retains :
    (c : Callbacks) (event : ExecutionEvent) (order : Order) (old : Levels) (t : Turn)
    → Retains t (tell_levels c event order old t)
unfolding tell_levels
tell-Retains c event order old t =
    let ts = stated order.last_update in
    same-Retains t _ (
      ground (
        arith,
        level_changes-retired old true ts t.position,
        level_changes-retired old false ts t.position,
        Retired.level_changes-retired c old ts t.position,
      ))

told-Retains :
    (c : Callbacks) (event : ExecutionEvent) (order : Order) (old : Levels) (t : Turn) (o : Outcome)
    → Retains t o
    → Retains t (o >>> (λ u. done (sync event order u) []) >>> tell_levels c event order old)
told-Retains c event order old t o h =
    >>>-Retains t _ _ (>>>-Retains t o _ h (λ u. same-Retains u _ (sync-retired event order u)))
      (λ u. tell-Retains c event order old u)

-- No event of a protective order brings a retired one back.
protective-Retains :
    (c : Callbacks) (event : ExecutionEvent) (order : Order) (precision : ℕ) (t : Turn)
    → Retains t (protective c event order precision t)
unfolding protective
protective-Retains c event order precision t = record {
  kept = λ id h.
      let filled = (triggered-Retains c event order precision t).kept id h in
      elim (Option-cases (protective_state event.execution_type order precision t)) [
        | inl e ↦ ground (arith, e, h, filled)
        | inr (o, e) ↦
            let tells =
              told-Retains c event order t.position.levels t o
                (state-Retains event.execution_type order precision t o e) in
            ground (arith, e, h, filled, tells.kept id h)
      ];
}

-- The events of any protective orders of the position, one after another.
abbrev pub after_all : Callbacks → List (ExecutionEvent × Order × ℕ) → Turn → Turn
after_all c [] t = t
after_all c ((event, order, precision) ∷ later) t =
    after_all c later (turn_of (protective c event order precision t))

after_all-Retains :
    (c : Callbacks) (later : List (ExecutionEvent × Order × ℕ)) (id : ℕ) (t : Turn)
    → member id t.position.retired_protective_ids ≡ true
    → member id (after_all c later t).position.retired_protective_ids ≡ true
after_all-Retains c [] id t h = h
after_all-Retains c ((event, order, precision) ∷ later) id t h =
    after_all-Retains c later id (turn_of (protective c event order precision t))
      ((protective-Retains c event order precision t).kept id h)

-- The acceptance of another protective order retires the current one.
set-retires :
    (order : Order) (precision current : ℕ) (t : Turn)
    → t.position.protective_order_id ≡ some current
    → current ≢ order.order_id
    → member current
        (turn_of (protective_set order precision t.position t)).position.retired_protective_ids
      ≡ true
unfolding protective_set take_protective take_levels set_levels retire_current
set-retires order precision current t e n =
    ground (arith, e, n, member-add current current t.position.retired_protective_ids)

accepted-retires :
    (c : Callbacks) (event : ExecutionEvent) (order : Order) (precision current : ℕ) (t : Turn)
    → event.execution_type ≡ order_accepted
    → t.position.protective_order_id ≡ some current
    → current ≢ order.order_id
    → member order.order_id t.position.retired_protective_ids ≡ false
    → member current
        (turn_of (protective c event order precision t)).position.retired_protective_ids
      ≡ true
unfolding protective protective_state
accepted-retires c event order precision current t k e n fresh =
    let outcome = protective_set order precision t.position t in
    let t' : Turn = turn_of outcome in
    let r = set-retires order precision current t e n in
    let tells =
      told-Retains c event order t.position.levels t' outcome (record { kept = λ id m. m }) in
    ground (arith, k, fresh, tells.kept current r)

-- Once the acceptance of another protective order, one not retired itself, has been handled, no
-- event of the order that was the current one tells or changes anything, unless it is a fill:
-- whatever events of the position's protective orders came in between, its own included, and
-- whether or not their handling raised.
pub protective-supersedes :
    (c : Callbacks) (taking event : ExecutionEvent) (old new : Order) (precision precision' : ℕ)
    (t : Turn) (later : List (ExecutionEvent × Order × ℕ))
    → taking.execution_type ≡ order_accepted
    → t.position.protective_order_id ≡ some old.order_id
    → old.order_id ≢ new.order_id
    → member new.order_id t.position.retired_protective_ids ≡ false
    → is_fill event.execution_type ≡ false
    → let t' = after_all c later (turn_of (protective c taking new precision t)) in
      protective c event old precision' t' ≡ done t' []
protective-supersedes c taking event old new precision precision' t later k e n fresh f =
    let first = turn_of (protective c taking new precision t) in
    let retired = accepted-retires c taking new precision old.order_id t k e n fresh in
    retired-silent c event old precision' (after_all c later first)
      (after_all-Retains c later old.order_id first retired) f
