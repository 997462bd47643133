-- ===== src/Records/Prices/Rounding.antt =====
-- How `price_of` rounds (common/venue_records.py).
use nautilus_ctrader_adapter.Prelude.{ℕ, ◌+◌, ◌*◌, ◌≤◌, ◌<◌, arith}
use nautilus_ctrader_adapter.Records.Prices.{round_half_even}

-- Rounding is to the nearest unit: the result is off by half a unit at most.
pub round_half_even_bounds :
    (value unit : ℕ)
    → 0 < unit
    → (2 * (round_half_even value unit * unit) ≤ 2 * value + unit)
      × (2 * value ≤ 2 * (round_half_even value unit * unit) + unit)
unfolding round_half_even
round_half_even_bounds value unit h = grind arith
