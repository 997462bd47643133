-- ===== src/Scheduler/Steps.antt =====
-- What happens to a group of the scheduler (common/rate_limit.py) as a sequence of events: time
-- passes, requests queue and leave, the venue refuses, the dispatcher runs, the connection is lost
-- or opened. The dispatcher may run at any time, so also when its sleep ends.
use nautilus_ctrader_adapter.Prelude.{ℕ, ◌+◌, Bool, true, false, List, [], ◌∷◌, none, if◌then◌else◌}
use nautilus_ctrader_adapter.Scheduler.{
  RequestPriority, Group, enqueue, abandon, pause, Round, finished, sleeps, grants, dispatch,
  fail_group, reset_group,
}

pub data Event : Type 0 where
  passes : ℕ → Event
  queues : RequestPriority → ℕ → Event
  leaves : ℕ → Event
  refused : ℕ → ℕ → Event
  runs : Event
  fails : Event
  resets : Event

-- A group, whether the connection's loss is latched, and the times of the requests granted on the
-- connection, the newest first.
pub record Run : Type 0 where
  pub now : ℕ
  pub failed : Bool
  pub group : Group
  pub log : List ℕ

abbrev pub logged : ℕ → Round → List ℕ → List ℕ
logged now finished log = log
logged now (sleeps d) log = log
logged now (grants entry) log = now ∷ log

abbrev pub turn : Run → Group × Round → Run
turn run (group, round) = record run { group = group; log = logged run.now round run.log }

module _ (window : ℕ) where
  unfoldable pub apply : Event → Run → Run
  unfolding enqueue abandon pause dispatch fail_group reset_group
  apply (passes secs) run = record run { now = run.now + secs }
  apply (queues priority sequence) run =
      if run.failed then run else record run { group = enqueue priority sequence run.now run.group }
  apply (leaves sequence) run = record run { group = abandon sequence run.group }
  apply (refused max_pause retry_after) run = record run {
    group = pause max_pause retry_after run.now run.group;
  }
  apply runs run =
      if run.group.dispatching then turn run (dispatch window run.now run.group) else run
  apply fails run = record run { failed = true; group = (fail_group run.group).0 }
  apply resets run = record run { failed = false; group = reset_group run.group; log = [] }

  abbrev pub run_all : List Event → Run → Run
  run_all [] run = run
  run_all (event ∷ events) run = run_all events (apply event run)

-- A scheduler's group before any request.
abbrev pub new_run : ℕ → Run
new_run limit = record {
  now = 0;
  failed = false;
  group = record {
    limit = limit;
    heap = [];
    granted = [];
    paused_until = none;
    dispatching = false;
  };
  log = [];
}
