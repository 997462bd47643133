-- ===== src/Scheduler.antt =====
-- Outbound rate limiting (common/rate_limit.py). A time is in milliseconds. The heap of a group is
-- the list of its entries in the order that `heapq` pops them in, by `(priority, sequence)`.
pub mod Steps
pub mod Turns
pub mod Wakes
pub mod Rate
pub mod Windows
pub mod Waiting
pub mod Submit
use nautilus_ctrader_adapter.Prelude.{
  ℕ, zero, suc, ◌+◌, ◌-◌, ◌≤◌, min, max, Bool, true, false, not, ◌&&◌, ◌||◌, Option, none, some,
  List, [], ◌∷◌, ◌++◌, map, keep, length, ltb, leb, nat_eq, if◌then◌else◌, get_or,
}
use nautilus_ctrader_adapter.Prelude.Sort.{place}

pub data RequestPriority : Type 0 where
  execution checkpoint data_request backfill : RequestPriority

-- The value of the enumeration's member.
abbrev pub rank : RequestPriority → ℕ
rank execution = 0
rank checkpoint = 1
rank data_request = 2
rank backfill = 3

pub record Pacing : Type 0 where
  pub requests_per_window : ℕ
  pub historical_requests_per_window : ℕ
  pub window : ℕ
  pub retries : ℕ
  pub queue_timeout : ℕ
  pub max_pause : ℕ

-- `Pacing.__post_init__`: whether the numbers are taken.
abbrev pub is_valid : Pacing → Bool
is_valid pacing =
    not (ltb pacing.requests_per_window 1 || ltb pacing.historical_requests_per_window 1)
    && ltb 0 pacing.window
    && ltb 0 pacing.queue_timeout
    && ltb 0 pacing.max_pause

-- `RATE_LIMIT_PAUSE_MARGIN_SECS`
abbrev pub pause_margin : ℕ
pause_margin = 250

-- A queued request: `done` once its future is, when it is dead and is skipped.
pub record Entry : Type 0 where
  pub priority : RequestPriority
  pub sequence : ℕ
  pub queued_at : ℕ
  pub done : Bool

-- A pause that never was is `none`.
pub record Group : Type 0 where
  pub limit : ℕ
  pub heap : List Entry
  pub granted : List ℕ
  pub paused_until : Option ℕ
  pub dispatching : Bool

-- The order of `(priority, sequence)`.
abbrev pub entry_le : Entry → Entry → Bool
entry_le a b =
    ltb (rank a.priority) (rank b.priority)
    || (nat_eq (rank a.priority) (rank b.priority) && leb a.sequence b.sequence)

abbrev pub is_live : Entry → Bool
is_live entry = not entry.done

-- The queueing part of `_wait_turn`.
unfoldable pub enqueue : RequestPriority → ℕ → ℕ → Group → Group
enqueue priority sequence now group = record group {
  heap =
      place entry_le
        (record { priority = priority; sequence = sequence; queued_at = now; done = false })
        group.heap;
  dispatching = true;
}

-- A future is cancelled: one that is done stays as it is.
abbrev pub marked : ℕ → Entry → Entry
marked sequence entry = record entry { done = entry.done || nat_eq entry.sequence sequence }

-- A request that timed out or was cancelled leaves a dead entry.
pub abandon : ℕ → Group → Group
abandon sequence group = record group { heap = map (marked sequence) group.heap }

-- The pause of `submit` after a refusal.
abbrev pub pause_of : ℕ → ℕ → ℕ
pause_of max_pause retry_after = min (retry_after + pause_margin) max_pause

-- `max(paused_until, at)`
abbrev pub paused_at : Option ℕ → ℕ → ℕ
paused_at none at = at
paused_at (some until) at = max until at

pub pause : ℕ → ℕ → ℕ → Group → Group
pause max_pause retry_after now group = record group {
  paused_until = some (paused_at group.paused_until (now + pause_of max_pause retry_after));
}

-- Popping dead entries.
abbrev pub drop_dead : List Entry → List Entry
drop_dead [] = []
drop_dead (entry ∷ heap) = if entry.done then drop_dead heap else entry ∷ heap

-- Popping the send times that the window has left behind.
abbrev pub expire : ℕ → ℕ → List ℕ → List ℕ
expire window now [] = []
expire window now (sent ∷ granted) =
    if leb (sent + window) now then expire window now granted else sent ∷ granted

-- `ready_at`, `none` when that is `-inf`.
abbrev pub ready_at : ℕ → ℕ → Option ℕ → List ℕ → Option ℕ
ready_at window limit paused_until [] = paused_until
ready_at window limit paused_until (sent ∷ granted) =
    if leb limit (length (sent ∷ granted))
    then some (paused_at paused_until (sent + window))
    else paused_until

-- What a round of the dispatcher does.
pub data Round : Type 0 where
  finished : Round
  sleeps : ℕ → Round
  grants : Entry → Round

-- One round of the loop of `_dispatch`.
unfoldable pub dispatch : ℕ → ℕ → Group → Group × Round
dispatch window now group = elim (drop_dead group.heap) [
  | [] ↦ (record group { heap = []; dispatching = false }, finished)
  | entry ∷ rest ↦
      let granted = expire window now group.granted in
      let ready : ℕ = get_or 0 (ready_at window group.limit group.paused_until granted) in
      if ltb now ready
      then (record group { heap = entry ∷ rest; granted = granted }, sleeps (ready - now))
      else (record group { heap = rest; granted = granted ++ now ∷ [] }, grants entry)
]

-- `fail_all` on one group, with the requests that it fails.
pub fail_group : Group → Group × List ℕ
fail_group group = (
  record group { heap = []; dispatching = false },
  map (λ entry. entry.sequence) (keep is_live group.heap),
)

-- `reset` on one group.
pub reset_group : Group → Group
reset_group group = record group {
  granted = [];
  paused_until = none;
  dispatching = elim group.heap [ [] ↦ false | entry ∷ heap ↦ true ];
}
