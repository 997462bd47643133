-- ===== src/Scheduler/Waiting.antt =====
-- The waiting requests of a group (common/rate_limit.py): none is left without a dispatcher.
use nautilus_ctrader_adapter.Prelude.{
  ℕ, ◌+◌, ◌-◌, ◌<◌, ◌≤◌, ◌∙◌, ◌≡◌, ◌⊎◌, refl, sym, subst, ap, Bool, true, false, List, [], ◌∷◌, map,
  arith, length, length-append, Bool-cases, inl, inr, if◌then◌else◌,
}
use nautilus_ctrader_adapter.Prelude.Sort.{Mem, Below, Ascending, IsOrder, place-Ascending}
use nautilus_ctrader_adapter.Scheduler.{
  Entry, Group, Round, sleeps, grants, finished, dispatch, entry_le, drop_dead, marked, expire,
  enqueue, abandon, pause, fail_group, reset_group,
}
use nautilus_ctrader_adapter.Scheduler.Steps.{
  Event, passes, queues, leaves, refused, runs, fails, resets, Run, apply, run_all, new_run, turn,
}
use nautilus_ctrader_adapter.Scheduler.Turns.{
  Ends, at_rest, held_back, served, dispatch-Ends, drop_dead-none,
}
use nautilus_ctrader_adapter.Scheduler.Wakes.{dispatch-wakes, dispatch-waits, length-expire}

entry_le-IsOrder : IsOrder entry_le
entry_le-IsOrder = ((λ a b h. ground (arith, h)), λ a b c h i. ground (arith, h, i))

drop_dead-Ascending :
    (heap : List Entry) → Ascending entry_le heap → Ascending entry_le (drop_dead heap)
drop_dead-Ascending [] a = tt
drop_dead-Ascending (x ∷ heap) (b, a) = ground (arith, a, b, drop_dead-Ascending heap a)

Below-marked :
    (sequence : ℕ) (x : Entry) (heap : List Entry)
    → Below entry_le x heap
    → Below entry_le (marked sequence x) (map (marked sequence) heap)
Below-marked sequence x [] b = tt
Below-marked sequence x (y ∷ heap) (h, b) = (h, Below-marked sequence x heap b)

marked-Ascending :
    (sequence : ℕ) (heap : List Entry)
    → Ascending entry_le heap
    → Ascending entry_le (map (marked sequence) heap)
marked-Ascending sequence [] a = tt
marked-Ascending sequence (x ∷ heap) (b, a) =
    (Below-marked sequence x heap b, marked-Ascending sequence heap a)

-- The heap of a group is in order, a group with requests in it has a dispatcher, and it holds no
-- more send times than its limit.
record IsServed (limit : ℕ) (group : Group) : Type 0 where
  kept : group.limit ≡ limit
  ordered : Ascending entry_le group.heap
  working : group.dispatching ≡ false → group.heap ≡ []
  held : length group.granted ≤ limit

turn-Served :
    (window limit : ℕ) (run : Run) (result : Group × Round)
    → IsServed limit run.group
    → run.group.dispatching ≡ true
    → Ends window run.now run.group result
    → IsServed limit (turn run result).group
turn-Served window limit run result s busy (at_rest e) = record {
  kept = s.kept;
  ordered = tt;
  working = λ _. refl;
  held = s.held;
}
turn-Served window limit run result s busy (held_back x rest ready e r early) = record {
  kept = s.kept;
  ordered = subst (Ascending entry_le) e (drop_dead-Ascending run.group.heap s.ordered);
  working = λ h. ground (arith, h, busy);
  held = omega (arith, s.held, length-expire window run.now run.group.granted);
}
turn-Served window limit run result s busy (served x rest e over room) = record {
  kept = s.kept;
  ordered = (subst (Ascending entry_le) e (drop_dead-Ascending run.group.heap s.ordered)).1;
  working = λ h. ground (arith, h, busy);
  held =
      omega (
        arith,
        room,
        s.kept,
        length-append (expire window run.now run.group.granted) (run.now ∷ []),
      );
}

either-Served :
    (limit : ℕ) (b : Bool) (x y : Run)
    → (b ≡ true → IsServed limit x.group)
    → IsServed limit y.group
    → IsServed limit (if b then x else y).group
either-Served limit true x y h k = h refl
either-Served limit false x y h k = k

apply-Served :
    (window limit : ℕ) (event : Event) (run : Run)
    → 1 ≤ limit
    → IsServed limit run.group
    → IsServed limit (apply window event run).group
unfolding apply enqueue abandon pause fail_group reset_group
apply-Served window limit (passes secs) run one s = s
apply-Served window limit (queues priority sequence) run one s =
    let queued : IsServed limit (enqueue priority sequence run.now run.group) = record {
      kept = s.kept;
      ordered = place-Ascending entry_le entry_le-IsOrder _ run.group.heap s.ordered;
      working = λ h. ground (arith, h);
      held = s.held;
    } in
    either-Served limit run.failed _ _ (λ _. s) queued
apply-Served window limit (leaves sequence) run one s = record {
  kept = s.kept;
  ordered = marked-Ascending sequence run.group.heap s.ordered;
  working = λ h. ap (map (marked sequence)) (s.working h);
  held = s.held;
}
apply-Served window limit (refused max_pause retry_after) run one s = record {
  kept = s.kept;
  ordered = s.ordered;
  working = s.working;
  held = s.held;
}
apply-Served window limit runs run one s =
    let ends = dispatch-Ends window run.now run.group (subst (λ n. 1 ≤ n) (sym s.kept) one) in
    either-Served limit run.group.dispatching _ _
      (λ busy. turn-Served window limit run (dispatch window run.now run.group) s busy ends) s
apply-Served window limit fails run one s = record {
  kept = s.kept;
  ordered = tt;
  working = λ _. refl;
  held = s.held;
}
apply-Served window limit resets run one s = record {
  kept = s.kept;
  ordered = s.ordered;
  working = idle run.group.heap;
  held = omega arith;
}
  where
    idle :
        (heap : List Entry) → (elim heap [ [] ↦ false | entry ∷ rest ↦ true ]) ≡ false → heap ≡ []
    idle [] h = refl
    idle (entry ∷ rest) h = ground (arith, h)

run_all-Served :
    (window limit : ℕ) (events : List Event) (run : Run)
    → 1 ≤ limit
    → IsServed limit run.group
    → IsServed limit (run_all window events run).group
run_all-Served window limit [] run one s = s
run_all-Served window limit (event ∷ events) run one s =
    run_all-Served window limit events (apply window event run) one
      (apply-Served window limit event run one s)

-- The log once the dispatcher has run, some time has passed, and it has run again.
abbrev pub log_after : ℕ → ℕ → Run → List ℕ
log_after window secs run = (run_all window (runs ∷ passes secs ∷ runs ∷ []) run).log

-- The dispatcher grants a request now, or its round begins a sleep: it then grants one when it wakes
-- and would have granted none before.
abbrev pub Serves : ℕ → Run → Type 0
Serves window run =
    ((apply window runs run).log ≡ run.now ∷ run.log)
    ⊎ ((wait : ℕ) × (asleep : Group) × (dispatch window run.now run.group ≡ (asleep, sleeps wait))
        × (0 < wait)
        × (log_after window wait run ≡ (run.now + wait) ∷ run.log)
        × ((early : ℕ) → early < wait → log_after window early run ≡ run.log))

-- What the dispatcher of a group does when it runs.
runs_turn :
    (window : ℕ) (run : Run) (result : Group × Round)
    → run.group.dispatching ≡ true
    → dispatch window run.now run.group ≡ result
    → apply window runs run ≡ turn run result
unfolding apply
runs_turn window run result busy e = cc (
  ap (λ b. if b then turn run (dispatch window run.now run.group) else run) busy,
  ap (turn run) e,
)

ungranted-log :
    (run : Run) (result : Group × Round)
    → ((group : Group) (entry : Entry) → ¬ (result ≡ (group, grants entry)))
    → (turn run result).log ≡ run.log
ungranted-log run (group, finished) h = refl
ungranted-log run (group, sleeps secs) h = refl
ungranted-log run (group, grants entry) h = absurd (h group entry refl)

Ends-Serves :
    (window : ℕ) (run : Run) (waiting : Entry) (result : Group × Round)
    → 1 ≤ run.group.limit
    → length run.group.granted ≤ run.group.limit
    → run.group.dispatching ≡ true
    → Mem waiting run.group.heap
    → waiting.done ≡ false
    → dispatch window run.now run.group ≡ result
    → Ends window run.now run.group result
    → Serves window run
unfolding apply
Ends-Serves window run waiting result one held busy m live d (at_rest e) =
    ground (arith, drop_dead-none run.group.heap waiting e m, live)
Ends-Serves window run waiting result one held busy m live d (held_back x rest ready e r early) =
    let (group, entry, woken) =
      dispatch-wakes window run.now run.group _ (ready - run.now) one held d in
    let asleep : Run = turn run (
      record run.group { heap = x ∷ rest; granted = expire window run.now run.group.granted },
      sleeps (ready - run.now),
    ) in
    let awake : Run = record asleep { now = run.now + (ready - run.now) } in
    let slept : apply window runs run ≡ asleep = runs_turn window run _ busy d in
    let woke : apply window runs awake ≡ turn awake (group, grants entry) =
      runs_turn window awake _ busy woken in
    inr (
      ready - run.now,
      asleep.group,
      d,
      omega (arith, early),
      subst
          (λ r.
            (apply window runs (apply window (passes (ready - run.now)) r)).log
            ≡ (run.now + (ready - run.now)) ∷ run.log)
          (sym slept) (ap (λ (r : Run). r.log) woke),
      λ sooner l.
          let dozing : Run = record asleep { now = run.now + sooner } in
          subst (λ r. (apply window runs (apply window (passes sooner) r)).log ≡ run.log)
            (sym slept)
            (ap (λ (r : Run). r.log) (runs_turn window dozing _ busy refl)
              ∙ ungranted-log dozing (dispatch window (run.now + sooner) asleep.group)
                  (dispatch-waits window run.now sooner run.group _ (ready - run.now) one d l)),
    )
Ends-Serves window run waiting result one held busy m live d (served x rest e over room) =
    inl (ap (λ (r : Run). r.log) (runs_turn window run _ busy d))

-- No request is left behind: after any events, while a request waits in a group whose limit is at
-- least one, the group has a dispatcher. When it runs, it grants a request, or its round begins
-- a sleep of more than no time; with nothing changed meanwhile, it then grants a request when it
-- runs after just that sleep, and would grant none if it ran before.
pub run_all-Serves :
    (window limit : ℕ) (events : List Event) (waiting : Entry)
    → 1 ≤ limit
    → Mem waiting (run_all window events (new_run limit)).group.heap
    → waiting.done ≡ false
    → ((run_all window events (new_run limit)).group.dispatching ≡ true)
      × Serves window (run_all window events (new_run limit))
run_all-Serves window limit events waiting one m live =
    let run = run_all window events (new_run limit) in
    let s =
      run_all-Served window limit events (new_run limit) one
        (record { kept = refl; ordered = tt; working = λ _. refl; held = omega arith }) in
    let busy : run.group.dispatching ≡ true = elim (Bool-cases run.group.dispatching) [
      | inl yes_busy ↦ yes_busy
      | inr idle ↦ elim (subst (Mem waiting) (s.working idle) m) [ ]
    ] in
    let one' : 1 ≤ run.group.limit = subst (λ n. 1 ≤ n) (sym s.kept) one in
    (
      busy,
      Ends-Serves window run waiting _ one'
          (subst (λ n. length run.group.granted ≤ n) (sym s.kept) s.held) busy m live refl
          (dispatch-Ends window run.now run.group one'),
    )
