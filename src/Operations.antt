-- ===== src/Operations.antt =====
-- What the node waits on: class `OperationsInFlight` (common/operations.py). Texts are client
-- order ids; an anchor of -1 is `none`.
pub mod Amends
pub mod Closes
pub mod Brackets
use nautilus_ctrader_adapter.Prelude.{
  ℕ, suc, ◌+◌, ◌-◌, Bool, true, false, not, ◌&&◌, Option, none, some, List, [], ◌∷◌, ◌++◌, ltb,
  nat_eq, if◌then◌else◌, get_or,
}
use nautilus_ctrader_adapter.Prelude.Eq.{Text, ℕ_eq, Text_eq, option_eq, text_eq}
use nautilus_ctrader_adapter.Prelude.Dict.{Dict, lookup, contains, insert, erase}
use nautilus_ctrader_adapter.Prelude.Int.{ℤ, ℤ_eq}
use nautilus_ctrader_adapter.Records.{Levels}

-- A close in flight: its position, its venue volume, its anchor in broker ms.
pub record Close : Type 0 where
  pub close_position : ℕ
  pub close_volume : ℕ
  pub anchor_ms : Option ℕ

pub record OperationsInFlight : Type 0 where
  pub amends : Dict ℕ ℕ
  pub lost_amends : Dict ℕ (List Levels)
  pub closes : Dict Text Close
  pub answers : Dict Text ℕ

-- `OperationsInFlight()`
pub no_operations : OperationsInFlight
no_operations = record { amends = []; lost_amends = []; closes = []; answers = [] }

pub begin_amend : ℕ → OperationsInFlight → OperationsInFlight
begin_amend position_id o = record o {
  amends = insert position_id (get_or 0 (lookup position_id o.amends) + 1) o.amends;
}

pub end_amend : ℕ → OperationsInFlight → OperationsInFlight
end_amend position_id o =
    let left : ℕ = get_or 0 (lookup position_id o.amends) - 1 in
    if ltb 0 left
    then record o { amends = insert position_id left o.amends }
    else record o { amends = erase position_id o.amends }

pub amending : ℕ → OperationsInFlight → Bool
amending position_id o = contains position_id o.amends

pub lost_amend : ℕ → Levels → OperationsInFlight → OperationsInFlight
lost_amend position_id levels o = record o {
  lost_amends =
      insert position_id (get_or [] (lookup position_id o.lost_amends) ++ levels ∷ [])
        o.lost_amends;
}

abbrev pub levels_eq : Levels → Levels → Bool
levels_eq a b =
    option_eq a.at_stop_loss b.at_stop_loss && option_eq a.at_take_profit b.at_take_profit

-- The amends expected before, whether the oldest was matched, and what is left of the dict.
abbrev match_oldest : ℕ → Levels → List Levels → Dict ℕ (List Levels) → Bool × Dict ℕ (List Levels)
match_oldest position_id levels [] lost = (false, lost)
match_oldest position_id levels (oldest ∷ []) lost = (levels_eq oldest levels, lost)
match_oldest position_id levels (oldest ∷ next ∷ later) lost =
    if levels_eq oldest levels
    then (true, insert position_id (next ∷ later) lost)
    else (false, lost)

pub late_amend : ℕ → Levels → OperationsInFlight → Bool × OperationsInFlight
late_amend position_id levels o =
    let expected = get_or [] (lookup position_id o.lost_amends) in
    let (matched, lost) =
      match_oldest position_id levels expected (erase position_id o.lost_amends) in
    (matched, record o { lost_amends = lost })

pub forget_lost_amends : OperationsInFlight → OperationsInFlight
forget_lost_amends o = record o { lost_amends = [] }

pub begin_close : Text → ℕ → ℕ → Option ℕ → OperationsInFlight → OperationsInFlight
begin_close client_order_id position_id volume anchor_ms o = record o {
  closes =
      insert client_order_id
        (record { close_position = position_id; close_volume = volume; anchor_ms = anchor_ms })
        o.closes;
}

pub answered : Text → ℕ → OperationsInFlight → OperationsInFlight
answered client_order_id order_id o =
    if contains client_order_id o.closes
    then record o { answers = insert client_order_id order_id o.answers }
    else o

pub end_close : Text → OperationsInFlight → OperationsInFlight
end_close client_order_id o = record o {
  closes = erase client_order_id o.closes;
  answers = erase client_order_id o.answers;
}

pub close_position_of : Text → OperationsInFlight → Option ℕ
close_position_of client_order_id o = elim (lookup client_order_id o.closes) [
  | none ↦ none
  | some close ↦ some close.close_position
]

-- The loop over the answers: the close whose own answer named `order_id`.
pub answered_close : ℕ → Dict Text ℕ → Option Text
answered_close order_id [] = none
answered_close order_id ((client_order_id, answer) ∷ answers) =
    if nat_eq answer order_id then some client_order_id else answered_close order_id answers

-- Created after the node last heard from the broker, or there is no bound.
abbrev pub is_after_anchor : ℕ → Option ℕ → Bool
is_after_anchor created_ms none = true
is_after_anchor created_ms (some anchor) = ltb anchor created_ms

abbrev pub is_candidate : ℕ → ℕ → ℕ → Dict Text ℕ → Text → Close → Bool
is_candidate position_id volume created_ms answers client_order_id close =
    not (contains client_order_id answers)
    && (nat_eq close.close_position position_id && nat_eq close.close_volume volume)
    && is_after_anchor created_ms close.anchor_ms

-- The loop over the closes.
pub unanswered_close : ℕ → ℕ → ℕ → Dict Text ℕ → Dict Text Close → Option Text
unanswered_close position_id volume created_ms answers [] = none
unanswered_close position_id volume created_ms answers ((client_order_id, close) ∷ closes) =
    if is_candidate position_id volume created_ms answers client_order_id close
    then some client_order_id
    else unanswered_close position_id volume created_ms answers closes

pub closing : ℕ → ℕ → ℕ → ℕ → OperationsInFlight → Option Text
unfolding answered_close unanswered_close
closing position_id volume created_ms order_id o = elim (answered_close order_id o.answers) [
  | some client_order_id ↦ some client_order_id
  | none ↦ unanswered_close position_id volume created_ms o.answers o.closes
]
