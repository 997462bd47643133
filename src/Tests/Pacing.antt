-- ===== src/Tests/Pacing.antt =====
-- Requests of a group of the scheduler.
use nautilus_ctrader_adapter.Prelude.{
  ℕ, zero, suc, ◌≤◌, ◌≡◌, refl, true, false, none, List, [], ◌∷◌, inl, inr, arith,
}
use nautilus_ctrader_adapter.Scheduler.{
  execution, backfill, Entry, Group, Pacing, enqueue, grants, dispatch,
}
use nautilus_ctrader_adapter.Scheduler.Steps.{apply, Event, queues, runs, new_run, run_all}
use nautilus_ctrader_adapter.Scheduler.Turns.{dispatch-Next, IsNext, IsReady}
use nautilus_ctrader_adapter.Scheduler.Rate.{run_all-paced}
use nautilus_ctrader_adapter.Scheduler.Windows.{inside}
use nautilus_ctrader_adapter.Scheduler.Waiting.{run_all-Serves, Serves}
use nautilus_ctrader_adapter.Scheduler.Submit
use nautilus_ctrader_adapter.Scheduler.Submit.{
  Turn, granted_after, Sent, replied, rate_refused, submit-Explains,
}

abbrev urgent : Entry
urgent = record { priority = execution; sequence = 2; queued_at = 10; done = false }

abbrev idle : Entry
idle = record { priority = backfill; sequence = 1; queued_at = 5; done = false }

-- Two requests wait; one of the two that the window takes is granted.
abbrev group : Group
group = record {
  limit = 2;
  heap = urgent ∷ idle ∷ [];
  granted = 100 ∷ [];
  paused_until = none;
  dispatching = true;
}

dispatch-Next_example :
    (IsReady 1250 200 group
      → (group' : Group) × (entry : Entry) × (dispatch 1250 200 group ≡ (group', grants entry)))
    × ((group' : Group) (entry : Entry)
        → dispatch 1250 200 group ≡ (group', grants entry)
        → IsNext group entry × IsReady 1250 200 group)
dispatch-Next_example =
    dispatch-Next 1250 200 group idle ((refl, tt), (tt, tt)) (omega arith) (inr (inl refl)) refl

-- Three requests come at once, where a window takes two.
abbrev burst : List Event
burst = queues execution 0 ∷ queues execution 1 ∷ queues backfill 2 ∷ runs ∷ runs ∷ runs ∷ []

run_all-paced_example : inside 1250 0 (run_all 1250 burst (new_run 2)).log ≤ 2
run_all-paced_example = run_all-paced 1250 2 0 burst (omega arith)

last_three :
    (run_all 1250 burst (new_run 2)).group.heap
    ≡ record { priority = backfill; sequence = 2; queued_at = 0; done = false } ∷ []
unfolding apply enqueue dispatch
last_three = refl

run_all-Serves_example :
    ((run_all 1250 burst (new_run 2)).group.dispatching ≡ true)
    × Serves 1250 (run_all 1250 burst (new_run 2))
unfolding apply enqueue dispatch
run_all-Serves_example =
    run_all-Serves 1250 2 burst
      (record { priority = backfill; sequence = 2; queued_at = 0; done = false }) (omega arith)
      (inl refl) refl

abbrev pacing : Pacing
pacing = record {
  requests_per_window = 50;
  historical_requests_per_window = 5;
  window = 1250;
  retries = 3;
  queue_timeout = 60000;
  max_pause = 10000;
}

-- The venue refuses a request once and then answers it.
abbrev turn : ℕ → ℕ → Turn
turn attempt budget = granted_after 0

abbrev send : ℕ → Sent ℕ
send zero = rate_refused 1000
send (suc attempt) = replied 7

submit-Explains_example :
    Submit.IsBounded pacing turn send 3 (Submit.submit pacing turn send true)
    × Submit.Explains pacing turn send 0 (Submit.submit pacing turn send true)
submit-Explains_example =
    submit-Explains pacing turn send true (λ attempt budget secs h. ground (arith, h))
