-- ===== src/BalanceHistory/Checkpoint.antt =====
-- The daily checkpoints (common/balance_history.py: `checkpoint_at`, `next_checkpoint`,
-- `_local_day`, `_occurrence`). An instant is in seconds, the present in milliseconds, a wall time
-- in seconds of the zone's own calendar, whose days are counted.
pub mod First
pub mod Latest
use nautilus_ctrader_adapter.Prelude.{
  ℕ, zero, suc, ◌+◌, ◌-◌, ◌*◌, ◌/◌, Bool, true, false, ltb, leb, nat_eq, if◌then◌else◌,
}

-- A time zone: the wall time at an instant, and the instant that a wall time is read as, by its
-- `fold`.
pub record Zone : Type 0 where
  pub wall : ℕ → ℕ
  pub instant : Bool → ℕ → ℕ

abbrev pub day_secs : ℕ
day_secs = 86400

abbrev pub hour_secs : ℕ
hour_secs = 3600

-- `datetime.combine(day, time(hour))`
abbrev pub combined : ℕ → ℕ → ℕ
combined day hour = day * day_secs + hour * hour_secs

-- The loop of `_occurrence`; each round halves what is left, so `high - low` rounds are enough.
unfoldable pub bisect : ℕ → (ℕ → ℕ) → ℕ → ℕ → ℕ → ℕ
bisect zero wall naive low high = low
bisect (suc fuel) wall naive low high = elim (ltb low high) [
  | false ↦ low
  | true ↦
      let middle : ℕ = (low + high) / 2 in
      let keep_low : Bool = leb naive (wall middle) in
      bisect fuel wall naive (if keep_low then low else middle + 1)
        (if keep_low then middle else high)
]

-- `_occurrence`
unfoldable pub occurrence : ℕ → ℕ → Zone → ℕ
unfolding bisect
occurrence day hour zone =
    let naive : ℕ = combined day hour in
    let instant : ℕ = zone.instant false naive in
    if nat_eq (zone.wall instant) naive
    then instant
    else let low : ℕ = zone.instant true naive in bisect (instant - low) zone.wall naive low instant

-- What a question of a checkpoint returns, or the error it raises.
pub data Moment : Type 0 where
  moment : ℕ → Moment
  bad_hour : Moment
  no_checkpoint : Moment

-- `_local_day`
abbrev pub local_day : ℕ → Zone → ℕ
local_day now_ms zone = zone.wall (now_ms / 1000) / day_secs

-- The loop of `checkpoint_at`, by the days that are left to try.
pub search_back : ℕ → ℕ → ℕ → ℕ → Zone → Moment
search_back zero now_ms day hour zone = no_checkpoint
search_back (suc tries) now_ms day hour zone =
    let earlier = search_back tries now_ms (day - 1) hour zone in
    if leb (occurrence day hour zone * 1000) now_ms
    then moment (occurrence day hour zone)
    else earlier

pub checkpoint_at : ℕ → ℕ → Zone → Moment
unfolding search_back
checkpoint_at now_ms hour zone =
    if ltb 23 hour then bad_hour else search_back 3 now_ms (local_day now_ms zone) hour zone

-- The loop of `next_checkpoint`.
pub search_ahead : ℕ → ℕ → ℕ → ℕ → Zone → Moment
search_ahead zero now_ms day hour zone = no_checkpoint
search_ahead (suc tries) now_ms day hour zone =
    let later = search_ahead tries now_ms (day + 1) hour zone in
    if ltb now_ms (occurrence day hour zone * 1000)
    then moment (occurrence day hour zone)
    else later

pub next_checkpoint : ℕ → ℕ → Zone → Moment
unfolding search_ahead
next_checkpoint now_ms hour zone =
    if ltb 23 hour then bad_hour else search_ahead 3 now_ms (local_day now_ms zone) hour zone
