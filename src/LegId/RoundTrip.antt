-- ===== src/LegId/RoundTrip.antt =====
-- A leg's venue order id is read back as what it was written from (common/venue_records.py).
use nautilus_ctrader_adapter.Prelude.{
  ℕ, ◌<◌, ◌≡◌, refl, true, false, some, [], ◌∷◌, ◌++◌, arith, all, ap, Bool-cases, inl, inr,
}
use nautilus_ctrader_adapter.Prelude.Eq.{Text, codes, text_eq, text_eq_iff}
use nautilus_ctrader_adapter.Prelude.Decimal.{
  decimal, is_digit, number, number-decimal, all-decimal, decimal-starts_nonzero,
}
use nautilus_ctrader_adapter.LegId.{
  Level, stop_loss, take_profit, leg_venue_order_id, parse_leg_venue_order_id, span_digits,
}

span_digits-append :
    (s t : Text) → all is_digit s ≡ true → span_digits (s ++ b'-' ∷ t) ≡ (s, b'-' ∷ t)
span_digits-append [] t h = refl
span_digits-append (c ∷ s) t h = ground (arith, span_digits-append s t)

-- A text with the value of a number above 1 is not "1".
not_one : (t : Text) (n : ℕ) → number t ≡ n → 1 < n → text_eq t (codes "1") ≡ false
not_one t n e h = elim (Bool-cases (text_eq t (codes "1"))) [
  | inr other ↦ other
  | inl one ↦ absurd (omega (arith, ap number ((text_eq_iff t (codes "1")).0 one)))
]

-- The id written for a leg of an entry with a positive id is read back as that leg.
pub parse-leg_venue_order_id :
    (entry : ℕ) (level : Level) (generation : ℕ) (text : Text)
    → 0 < entry
    → leg_venue_order_id entry level generation ≡ some text
    → parse_leg_venue_order_id text ≡ some (entry, level, generation)
unfolding leg_venue_order_id parse_leg_venue_order_id
parse-leg_venue_order_id entry stop_loss generation text h e = ground (
  arith,
  span_digits-append (decimal entry) (codes "SL"),
  span_digits-append (decimal entry) (codes "SL-" ++ decimal generation),
  all-decimal entry,
  all-decimal generation,
  decimal-starts_nonzero entry,
  decimal-starts_nonzero generation,
  number-decimal entry,
  number-decimal generation,
  not_one (decimal generation) generation,
)
parse-leg_venue_order_id entry take_profit generation text h e = ground (
  arith,
  span_digits-append (decimal entry) (codes "TP"),
  span_digits-append (decimal entry) (codes "TP-" ++ decimal generation),
  all-decimal entry,
  all-decimal generation,
  decimal-starts_nonzero entry,
  decimal-starts_nonzero generation,
  number-decimal entry,
  number-decimal generation,
  not_one (decimal generation) generation,
)
