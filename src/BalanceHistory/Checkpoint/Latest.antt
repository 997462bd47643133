-- ===== src/BalanceHistory/Checkpoint/Latest.antt =====
-- The checkpoint around a moment (common/balance_history.py, `checkpoint_at` and
-- `next_checkpoint`).
use nautilus_ctrader_adapter.Prelude.{
  ℕ, ◌+◌, ◌-◌, ◌*◌, ◌/◌, ◌<◌, ◌≤◌, ◌≡◌, refl, arith, ltb, leb, Bool-cases, inl, inr,
}
use nautilus_ctrader_adapter.BalanceHistory.Checkpoint.{
  Zone, combined, occurrence, moment, local_day, search_back, search_ahead, checkpoint_at,
  next_checkpoint,
}
use nautilus_ctrader_adapter.BalanceHistory.Checkpoint.First.{Reads, occurrence-IsFirst}

-- A zone that reads every wall time as documented and whose date never goes back.
pub record ZoneLaws (zone : Zone) : Type 0 where
  pub reads : (naive : ℕ) → Reads zone naive
  pub dates : (s t : ℕ) → s ≤ t → zone.wall s / 86400 ≤ zone.wall t / 86400

-- An occurrence of an earlier day is not later.
occurrence_mono :
    (d e hour : ℕ) (zone : Zone)
    → ZoneLaws zone
    → d ≤ e
    → occurrence d hour zone ≤ occurrence e hour zone
occurrence_mono d e hour zone laws le =
    let (_, before) = occurrence-IsFirst d hour zone (laws.reads (combined d hour)) in
    let (reached, _) = occurrence-IsFirst e hour zone (laws.reads (combined e hour)) in
    elim (Bool-cases (ltb (occurrence e hour zone) (occurrence d hour zone))) [
      | inl less ↦
          let b = before (occurrence e hour zone) (ground (arith, less)) in
          ground (arith, b, reached, le)
      | inr not_less ↦ ground (arith, not_less)
    ]

-- The occurrence of an earlier day is past.
yesterday_past :
    (now day hour : ℕ) (zone : Zone)
    → ZoneLaws zone
    → hour ≤ 23
    → day < zone.wall now / 86400
    → occurrence day hour zone ≤ now
yesterday_past now day hour zone laws h less =
    let (_, before) = occurrence-IsFirst day hour zone (laws.reads (combined day hour)) in
    elim (Bool-cases (ltb now (occurrence day hour zone))) [
      | inl early ↦ let b = before now (ground (arith, early)) in ground (arith, b, less, h)
      | inr late ↦ ground (arith, late)
    ]

-- The occurrence of a later day is to come.
tomorrow_ahead :
    (now day hour : ℕ) (zone : Zone)
    → ZoneLaws zone
    → zone.wall now / 86400 < day
    → now < occurrence day hour zone
tomorrow_ahead now day hour zone laws more =
    let (reached, _) = occurrence-IsFirst day hour zone (laws.reads (combined day hour)) in
    elim (Bool-cases (ltb now (occurrence day hour zone))) [
      | inl early ↦ ground (arith, early)
      | inr late ↦
          let d = laws.dates (occurrence day hour zone) now (ground (arith, late)) in
          ground (arith, d, reached, more)
    ]

-- `c` is a checkpoint that is not after the present, and no such checkpoint is later.
abbrev pub IsLatest : ℕ → ℕ → Zone → ℕ → Type 0
IsLatest now_ms hour zone c =
    ((day : ℕ) × (c ≡ occurrence day hour zone))
    × (c * 1000 ≤ now_ms)
    × ((day : ℕ) → occurrence day hour zone * 1000 ≤ now_ms → occurrence day hour zone ≤ c)

-- `c` is a checkpoint after the present, and no such checkpoint is earlier.
abbrev pub IsNext : ℕ → ℕ → Zone → ℕ → Type 0
IsNext now_ms hour zone c =
    ((day : ℕ) × (c ≡ occurrence day hour zone))
    × (now_ms < c * 1000)
    × ((day : ℕ) → now_ms < occurrence day hour zone * 1000 → c ≤ occurrence day hour zone)

-- The question for the checkpoint before a moment is answered, for every hour of a day and every
-- moment but those of the calendar's first day, by the latest checkpoint of any day that is not
-- after the moment: three days are enough, when the zone reads wall times as documented and its
-- date never goes back.
pub checkpoint_at-IsLatest :
    (now_ms hour : ℕ) (zone : Zone)
    → ZoneLaws zone
    → hour ≤ 23
    → 1 ≤ local_day now_ms zone
    → (c : ℕ) × (checkpoint_at now_ms hour zone ≡ moment c) × IsLatest now_ms hour zone c
unfolding checkpoint_at search_back
checkpoint_at-IsLatest now_ms hour zone laws h day =
    elim (Bool-cases (leb (occurrence (local_day now_ms zone) hour zone * 1000) now_ms)) [
      | inl today ↦ (
        occurrence (local_day now_ms zone) hour zone,
        ground (arith, today, h),
        (
          (local_day now_ms zone, refl),
          ground (arith, today),
          λ d past. elim (Bool-cases (leb d (local_day now_ms zone))) [
            | inl before ↦
                occurrence_mono d (local_day now_ms zone) hour zone laws (ground (arith, before))
            | inr after ↦
                let ahead =
                  tomorrow_ahead (now_ms / 1000) d hour zone laws (ground (arith, after)) in
                ground (arith, ahead, past)
          ],
        ),
      )
      | inr ahead_today ↦
          let past =
            yesterday_past (now_ms / 1000) (local_day now_ms zone - 1) hour zone laws h
              (ground (arith, day)) in
          (
            occurrence (local_day now_ms zone - 1) hour zone,
            ground (arith, ahead_today, past, h),
            (
              (local_day now_ms zone - 1, refl),
              ground (arith, past),
              λ d early. elim (Bool-cases (ltb d (local_day now_ms zone))) [
                | inl before ↦
                    occurrence_mono d (local_day now_ms zone - 1) hour zone laws
                      (ground (arith, before))
                | inr after ↦
                    let later =
                      occurrence_mono (local_day now_ms zone) d hour zone laws
                        (ground (arith, after)) in
                    ground (arith, later, early, ahead_today)
              ],
            ),
          )
    ]

-- The question for the checkpoint after a moment is answered, for every hour of a day, by the
-- earliest checkpoint of any day that is after the moment, when the zone reads wall times as
-- documented and its date never goes back.
pub next_checkpoint-earliest :
    (now_ms hour : ℕ) (zone : Zone)
    → ZoneLaws zone
    → hour ≤ 23
    → (c : ℕ) × (next_checkpoint now_ms hour zone ≡ moment c) × IsNext now_ms hour zone c
unfolding next_checkpoint search_ahead
next_checkpoint-earliest now_ms hour zone laws h =
    elim (Bool-cases (ltb now_ms (occurrence (local_day now_ms zone) hour zone * 1000))) [
      | inl today ↦ (
        occurrence (local_day now_ms zone) hour zone,
        ground (arith, today, h),
        (
          (local_day now_ms zone, refl),
          ground (arith, today),
          λ d ahead. elim (Bool-cases (ltb d (local_day now_ms zone))) [
            | inl before ↦
                let past =
                  yesterday_past (now_ms / 1000) d hour zone laws h (ground (arith, before)) in
                ground (arith, past, ahead)
            | inr after ↦
                occurrence_mono (local_day now_ms zone) d hour zone laws (ground (arith, after))
          ],
        ),
      )
      | inr gone ↦
          let ahead =
            tomorrow_ahead (now_ms / 1000) (local_day now_ms zone + 1) hour zone laws
              (omega arith) in
          (
            occurrence (local_day now_ms zone + 1) hour zone,
            ground (arith, gone, ahead, h),
            (
              (local_day now_ms zone + 1, refl),
              ground (arith, ahead),
              λ d later. elim (Bool-cases (leb d (local_day now_ms zone))) [
                | inl before ↦
                    let earlier =
                      occurrence_mono d (local_day now_ms zone) hour zone laws
                        (ground (arith, before)) in
                    ground (arith, earlier, later, gone)
                | inr after ↦
                    occurrence_mono (local_day now_ms zone + 1) d hour zone laws
                      (ground (arith, after))
              ],
            ),
          )
    ]
