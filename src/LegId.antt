-- ===== src/LegId.antt =====
-- The venue order id of a protective leg (common/venue_records.py): `<entry>-SL`, then
-- `<entry>-SL-2`, and so on.
pub mod RoundTrip
use nautilus_ctrader_adapter.Prelude.{
  ℕ, ◌≡◌, ◌↔◌, arith, Bool, true, false, not, ◌&&◌, Option, none, some, List, [], ◌∷◌, ◌++◌, ltb,
  nat_eq, if◌then◌else◌, all,
}
use nautilus_ctrader_adapter.Prelude.Eq.{Eq, Text, codes, text_eq}
use nautilus_ctrader_adapter.Prelude.Decimal.{decimal, is_digit, number, starts_nonzero}

pub data Level : Type 0 where
  stop_loss : Level
  take_profit : Level

abbrev pub level_value : Level → Text
level_value stop_loss = codes "SL"
level_value take_profit = codes "TP"

abbrev pub level_eq : Level → Level → Bool
level_eq stop_loss stop_loss = true
level_eq stop_loss take_profit = false
level_eq take_profit stop_loss = false
level_eq take_profit take_profit = true

pub level_eq_iff : (a b : Level) → (level_eq a b ≡ true) ↔ (a ≡ b)
level_eq_iff a b = ground arith

instance abbrev pub Level_eq : Eq Level
Level_eq = record { beq = level_eq; beq_iff = level_eq_iff }

-- `none` is the `ValueError` of a generation below 1.
unfoldable pub leg_venue_order_id : ℕ → Level → ℕ → Option Text
leg_venue_order_id entry_order_id level generation =
    if ltb generation 1
    then none
    else let suffix : Text = if nat_eq generation 1 then [] else b'-' ∷ decimal generation in
      some (decimal entry_order_id ++ b'-' ∷ (level_value level ++ suffix))

-- The leading digits, and the rest.
abbrev pub span_digits : Text → Text × Text
span_digits [] = ([], [])
span_digits (c ∷ t) =
    let (digits, rest) = span_digits t in if is_digit c then (c ∷ digits, rest) else ([], c ∷ t)

-- `(?:-([2-9]|[1-9][0-9]+))?` to the end of the text
abbrev pub parse_generation : Text → Option ℕ
parse_generation [] = some 1
parse_generation (c ∷ t) =
    if nat_eq c b'-' && all is_digit t && starts_nonzero t && not (text_eq t (codes "1"))
    then some (number t)
    else none

-- `-(SL|TP)` and what follows
abbrev pub parse_level : Text → Option (Level × ℕ)
parse_level (d ∷ a ∷ b ∷ t) =
    if text_eq (d ∷ a ∷ b ∷ []) (codes "-SL")
    then elim (parse_generation t) [ none ↦ none | some g ↦ some (stop_loss, g) ]
    else if text_eq (d ∷ a ∷ b ∷ []) (codes "-TP")
    then elim (parse_generation t) [ none ↦ none | some g ↦ some (take_profit, g) ]
    else none
parse_level t = none

-- `_LEG_ID.fullmatch(text)`, with its groups read
pub parse_leg_venue_order_id : Text → Option (ℕ × Level × ℕ)
parse_leg_venue_order_id text =
    let (entry, rest) = span_digits text in
    if starts_nonzero entry
    then elim (parse_level rest) [ none ↦ none | some (level, g) ↦ some (number entry, level, g) ]
    else none
