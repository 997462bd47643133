-- ===== src/Venue/Protective/Trailing.antt =====
-- Trailing stops and replaced protective orders (common/venue_book.py: `_protective`,
-- `trailing_stop_moved`).
use nautilus_ctrader_adapter.Prelude.{
  ℕ, ◌≡◌, Bool, true, false, Option, none, some, [], arith, Option-cases, inl, inr, if◌then◌else◌,
  ◌≢◌,
}
use nautilus_ctrader_adapter.Prelude.Int.{ℤ}
use nautilus_ctrader_adapter.Prelude.Eq.{ℕ_eq, option_eq_iff, option_eq}
use nautilus_ctrader_adapter.Prelude.Dict.{member, member-add}
use nautilus_ctrader_adapter.LegId.{stop_loss, take_profit}
use nautilus_ctrader_adapter.Messages.{Order, ExecutionEvent}
use nautilus_ctrader_adapter.Records.{Levels, levels_of, at}
use nautilus_ctrader_adapter.VenueState.{Position, Callbacks, Turn, done, turn_of, is_before}
use nautilus_ctrader_adapter.Venue.Sync.{is_fill}
use nautilus_ctrader_adapter.Venue.Protective.{
  protective, protective_set, set_levels, take_protective, take_levels, retire_current,
}

-- Whether a state of the current protective order is older than the last trailing move.
abbrev pub is_older : Order → Position → Bool
is_older order p =
    if option_eq p.protective_order_id (some order.order_id)
    then (elim order.last_update [ none ↦ false | some stamp ↦ is_before stamp p.trailed_ms ])
    else false

-- The stop-loss that a state leaves: the one that it names, but where it is older than a trailing
-- move of the same order and names one, the stop-loss of the position, if there is one.
abbrev pub stop_after : Bool → Option ℤ → Option ℤ → Option ℤ
stop_after false held named = named
stop_after true held none = none
stop_after true none (some price) = some price
stop_after true (some stop) (some price) = some stop

-- A state of a protective order sets the take-profit that it names; it sets the stop-loss too, but
-- where it is older than a trailing move of the same order, a stop-loss that it names stays where
-- the move left it, if the position had one. The order is the current one from then on, and another
-- that was is retired, as is each that was retired before.
pub protective_set-levels :
    (order : Order) (precision : ℕ) (t : Turn) (levels : Levels)
    → levels_of order precision ≡ some levels
    → let p = (turn_of (protective_set order precision t.position t)).position in
      (at take_profit p.levels ≡ at take_profit levels)
      × (at stop_loss p.levels
          ≡ stop_after
              (is_older order t.position)
              (at stop_loss t.position.levels)
              (at stop_loss levels))
      × (p.protective_order_id ≡ some order.order_id)
      × ((old : ℕ)
          → t.position.protective_order_id ≡ some old
          → old ≢ order.order_id
          → member old p.retired_protective_ids ≡ true)
      × ((old : ℕ)
          → member old t.position.retired_protective_ids ≡ true
          → member old p.retired_protective_ids ≡ true)
unfolding protective_set take_levels take_protective set_levels retire_current
protective_set-levels order precision t levels l =
    let same : option_eq t.position.protective_order_id (some order.order_id)
        ≡ option_eq (some order.order_id) t.position.protective_order_id =
      ground (
        arith,
        option_eq_iff t.position.protective_order_id (some order.order_id),
        option_eq_iff (some order.order_id) t.position.protective_order_id,
      ) in
    (
      ground (arith, l),
      ground (arith, l, same),
      ground (arith, l),
      λ old e n. ground (arith, l, e, n, member-add old old t.position.retired_protective_ids),
      λ old m. elim (Option-cases t.position.protective_order_id) [
        | inl e ↦ ground (arith, l, m, e)
        | inr (current, e) ↦
            ground (arith, l, m, e, member-add current old t.position.retired_protective_ids)
      ],
    )

-- No event of a retired order but a fill tells or changes anything.
pub retired-silent :
    (c : Callbacks) (event : ExecutionEvent) (order : Order) (precision : ℕ) (t : Turn)
    → member order.order_id t.position.retired_protective_ids ≡ true
    → is_fill event.execution_type ≡ false
    → protective c event order precision t ≡ done t []
unfolding protective
retired-silent c event order precision t m f = ground (arith, m, f)
