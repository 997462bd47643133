-- ===== src/Tests/Balance.antt =====
-- The balance of an account at a checkpoint, and the checkpoints of a zone.
use nautilus_ctrader_adapter.Prelude.{
  ℕ, ◌+◌, ◌-◌, ◌≡◌, refl, Bool, true, false, none, some, List, [], ◌∷◌, inl, inr, arith, ltb,
  if◌then◌else◌,
}
use nautilus_ctrader_adapter.Prelude.Int.{pos, ◌+ℤ◌}
use nautilus_ctrader_adapter.BalanceHistory.{
  BalanceChange, Trader, Reach, follows, balance_at, value,
}
use nautilus_ctrader_adapter.BalanceHistory.Exact.{
  trusted_value, Rests, balance_at-exact, balance_at-Rests,
}
use nautilus_ctrader_adapter.BalanceHistory.Checkpoint.{
  Zone, moment, bisect, occurrence, checkpoint_at, next_checkpoint,
}
use nautilus_ctrader_adapter.BalanceHistory.Checkpoint.Latest.{
  ZoneLaws, IsLatest, IsNext, checkpoint_at-IsLatest, next_checkpoint-earliest,
}

-- A deposit of 100 and a closing deal that lost 30.
abbrev deposit : BalanceChange
deposit = record {
  ts_ms = 1000;
  version = 1;
  balance = pos 100;
  delta = some (pos 100);
  money_digits = 2;
  cash_flow = true;
  deposit = some true;
}

abbrev gain : BalanceChange
gain = record {
  ts_ms = 2000;
  version = 2;
  balance = pos 130;
  delta = some (pos 30);
  money_digits = 2;
  cash_flow = false;
  deposit = none;
}

abbrev trader : Trader
trader = record { balance = pos 130; version = 2; digits = 2 }

abbrev reach : Reach
reach = record { covered_from_ms = 0; registration_ms = some 500; reached_cap = false }

-- The changes come out of order, one of them twice.
abbrev changes : List BalanceChange
changes = gain ∷ deposit ∷ gain ∷ []

balance_at-exact_example :
    balance_at 1500 changes trader reach ≡ value (trusted_value 1500 (pos 100) changes trader)
unfolding follows ◌+ℤ◌
balance_at-exact_example =
    balance_at-exact 1500 changes [] (gain ∷ []) deposit trader reach ((omega arith, tt), (tt, tt))
      (λ c. (
        λ m. elim m [
          | inl e ↦ inr (inl e)
          | inr (inl e) ↦ inl e
          | inr (inr (inl e)) ↦ inr (inl e)
          | inr (inr (inr n)) ↦ elim n [ ]
        ],
        λ m. elim m [ inl e ↦ inr (inl e) | inr (inl e) ↦ inl e | inr (inr n) ↦ elim n [ ] ],
      ))
      (omega arith) (omega arith, tt) (refl, refl, tt) (refl, refl) refl

balance_at-Rests_example : Rests 1500 changes trader reach (pos 100)
balance_at-Rests_example =
    balance_at-Rests 1500 changes trader reach (trusted_value 1500 (pos 100) changes trader)
      (pos 100) balance_at-exact_example refl

-- A zone whose clocks go an hour forward at 03:00 of its second day.
abbrev wall : ℕ → ℕ
wall t = if ltb t 97200 then t else t + 3600

abbrev instant : Bool → ℕ → ℕ
instant true naive = if ltb naive 97200 then naive else naive - 3600
instant false naive = if ltb naive 100800 then naive else naive - 3600

abbrev zone : Zone
zone = record { wall = wall; instant = instant }

zone_laws : ZoneLaws zone
zone_laws = record {
  reads = λ naive. record {
    shown = λ h t l. ground (arith, h, l);
    skipped = λ h. (
      ground (arith, h),
      ground (arith, h),
      (λ t l. ground (arith, h, l)),
      λ s t a b c d. ground (arith, a, b, c, d),
    );
  };
  dates = λ s t l. ground (arith, l);
}

skipped_hour : occurrence 1 3 zone ≡ 97200
unfolding occurrence bisect
skipped_hour = refl

checkpoint_at-IsLatest_example :
    (c : ℕ) × (checkpoint_at 100000000 3 zone ≡ moment c) × IsLatest 100000000 3 zone c
checkpoint_at-IsLatest_example =
    checkpoint_at-IsLatest 100000000 3 zone zone_laws (omega arith) (omega arith)

next_checkpoint-earliest_example :
    (c : ℕ) × (next_checkpoint 100000000 3 zone ≡ moment c) × IsNext 100000000 3 zone c
next_checkpoint-earliest_example = next_checkpoint-earliest 100000000 3 zone zone_laws (omega arith)
