-- ===== src/Operations/Amends.antt =====
-- The node's amends in flight, and those whose answers were lost (common/operations.py).
use nautilus_ctrader_adapter.Prelude.{
  ℕ, ◌+◌, ◌≡◌, ◌≢◌, ◌↔◌, true, false, none, some, List, [], ◌∷◌, arith, get_or,
}
use nautilus_ctrader_adapter.Prelude.Eq.{ℕ_eq, option_eq_iff}
use nautilus_ctrader_adapter.Prelude.Dict.{lookup, erase, lookup-insert, lookup-erase}
use nautilus_ctrader_adapter.Prelude.Int.{ℤ_eq}
use nautilus_ctrader_adapter.Records.{Levels}
use nautilus_ctrader_adapter.Operations.{
  OperationsInFlight, begin_amend, end_amend, amending, late_amend, levels_eq,
}

-- How many amends of a position are in flight.
abbrev pub in_flight : ℕ → OperationsInFlight → ℕ
in_flight p o = get_or 0 (lookup p o.amends)

-- Nothing is held for a position without an amend.
abbrev pub CountsPositive : OperationsInFlight → Type 0
CountsPositive o = (p : ℕ) → lookup p o.amends ≢ some 0

-- A begun amend counts once for its position; an ended one is taken away again, also when other
-- amends of that position are in flight; other positions are left alone.
pub end_amend-begin_amend :
    (p q : ℕ) (o : OperationsInFlight)
    → CountsPositive o
    → (lookup q (end_amend p (begin_amend p o)).amends ≡ lookup q o.amends)
      × (amending p (begin_amend p o) ≡ true)
unfolding begin_amend end_amend amending
end_amend-begin_amend p q o h = ground (
  arith,
  h p,
  lookup-insert p p (in_flight p o + 1) o.amends,
  lookup-insert p q (in_flight p o + 1) o.amends,
  lookup-insert p q (in_flight p o) (begin_amend p o).amends,
  lookup-erase p q (begin_amend p o).amends,
)

levels_eq_iff : (a b : Levels) → (levels_eq a b ≡ true) ↔ (a ≡ b)
levels_eq_iff a b = ground (
  arith,
  option_eq_iff a.at_stop_loss b.at_stop_loss,
  option_eq_iff a.at_take_profit b.at_take_profit,
)

-- The lost amends of a position are matched in order: the answer of the oldest is recognised and
-- forgotten alone, and anything else forgets them all.
pub late_amend_lem :
    (p : ℕ) (oldest levels : Levels) (later : List Levels) (o : OperationsInFlight)
    → lookup p o.lost_amends ≡ some (oldest ∷ later)
    → ((late_amend p oldest o).0 ≡ true)
      × (get_or [] (lookup p (late_amend p oldest o).1.lost_amends) ≡ later)
      × (levels ≢ oldest
          → ((late_amend p levels o).0 ≡ false)
            × (lookup p (late_amend p levels o).1.lost_amends ≡ none))
unfolding late_amend
late_amend_lem p oldest levels [] o h = ground (
  arith,
  levels_eq_iff oldest oldest,
  levels_eq_iff oldest levels,
  lookup-erase p p o.lost_amends,
)
late_amend_lem p oldest levels (next ∷ later) o h = ground (
  arith,
  levels_eq_iff oldest oldest,
  levels_eq_iff oldest levels,
  lookup-erase p p o.lost_amends,
  lookup-insert p p (next ∷ later) (erase p o.lost_amends),
)
