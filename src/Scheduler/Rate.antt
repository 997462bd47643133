-- ===== src/Scheduler/Rate.antt =====
-- The rate of a group's requests (common/rate_limit.py, `_dispatch`).
use nautilus_ctrader_adapter.Prelude.{
  ℕ, ◌+◌, ◌<◌, ◌≤◌, ◌≡◌, refl, sym, subst, ◌∙◌, Bool, true, false, ◌&&◌, List, [], ◌∷◌, ◌++◌, arith,
  length, ltb, leb, Bool-cases, inl, inr, if◌then◌else◌,
}
use nautilus_ctrader_adapter.Scheduler.{
  Group, Round, dispatch, expire, enqueue, abandon, pause, fail_group, reset_group,
}
use nautilus_ctrader_adapter.Scheduler.Turns.{Ends, at_rest, held_back, served, dispatch-Ends}
use nautilus_ctrader_adapter.Scheduler.Steps.{
  Event, passes, queues, leaves, refused, runs, fails, resets, Run, apply, run_all, new_run, turn,
}
use nautilus_ctrader_adapter.Scheduler.Windows.{
  inside, alive, Rises, UpTo, alive-append, UpTo-later, expire-alive, inside-alive, Rises-append,
  UpTo-append, UpTo-expire,
}

-- The send times that a group holds are those of the log that a window still counts, and no window
-- counts more than the limit.
record IsPaced (window limit : ℕ) (now : ℕ) (granted log : List ℕ) : Type 0 where
  granted_rise : Rises 0 granted
  granted_past : UpTo now granted
  log_past : UpTo now log
  same : (later : ℕ) → now ≤ later → alive window later granted ≡ alive window later log
  paced : (start : ℕ) → inside window start log ≤ limit

later-IsPaced :
    (window limit now secs : ℕ) (granted log : List ℕ)
    → IsPaced window limit now granted log
    → IsPaced window limit (now + secs) granted log
later-IsPaced window limit now secs granted log p = record {
  granted_rise = p.granted_rise;
  granted_past = UpTo-later now (now + secs) granted (omega arith) p.granted_past;
  log_past = UpTo-later now (now + secs) log (omega arith) p.log_past;
  same = λ later l. p.same later (omega (arith, l));
  paced = p.paced;
}

expired-IsPaced :
    (window limit now : ℕ) (granted log : List ℕ)
    → IsPaced window limit now granted log
    → IsPaced window limit now (expire window now granted) log
expired-IsPaced window limit now granted log p = record {
  granted_rise = (expire-alive window now now 0 granted (omega arith) p.granted_rise).2;
  granted_past = UpTo-expire window now now granted p.granted_past;
  log_past = p.log_past;
  same = λ later l. (expire-alive window now later 0 granted l p.granted_rise).0 ∙ p.same later l;
  paced = p.paced;
}

-- A request granted while the window has room.
granted-IsPaced :
    (window limit now : ℕ) (granted log : List ℕ)
    → IsPaced window limit now granted log
    → length (expire window now granted) < limit
    → IsPaced window limit now (expire window now granted ++ now ∷ []) (now ∷ log)
granted-IsPaced window limit now granted log p room =
    let q = expired-IsPaced window limit now granted log p in
    let (kept, counted, rises) =
      expire-alive window now now 0 granted (omega arith) p.granted_rise in
    record {
      granted_rise =
          Rises-append 0 now (expire window now granted) (omega arith) q.granted_past
            q.granted_rise;
      granted_past = UpTo-append now (expire window now granted) q.granted_past;
      log_past = (omega arith, p.log_past);
      same = λ later l.
          ground (
            arith,
            q.same later l,
            alive-append window later (expire window now granted) (now ∷ []),
          );
      paced = λ start. elim (Bool-cases (leb start now && ltb now (start + window))) [
        | inl here ↦
            let most =
              inside-alive window start now log (ground (arith, here)) (ground (arith, here)) in
            ground (arith, here, most, room, counted, p.same now (omega arith))
        | inr out ↦ ground (arith, out, p.paced start)
      ];
    }

-- What holds of a group after any events.
abbrev IsWithin : ℕ → ℕ → Run → Type 0
IsWithin window limit run =
    (run.group.limit ≡ limit) × IsPaced window limit run.now run.group.granted run.log

turn-Within :
    (window limit : ℕ) (run : Run) (result : Group × Round)
    → IsWithin window limit run
    → Ends window run.now run.group result
    → IsWithin window limit (turn run result)
turn-Within window limit run result (l, p) (at_rest e) = (l, p)
turn-Within window limit run result (l, p) (held_back x rest ready e r early) =
    (l, expired-IsPaced window limit run.now run.group.granted run.log p)
turn-Within window limit run result (l, p) (served x rest e over room) = (
  l,
  granted-IsPaced window limit run.now run.group.granted run.log p
      (subst (λ n. length (expire window run.now run.group.granted) < n) l room),
)

either-Within :
    (window limit : ℕ) (b : Bool) (x y : Run)
    → IsWithin window limit x
    → IsWithin window limit y
    → IsWithin window limit (if b then x else y)
either-Within window limit true x y h k = h
either-Within window limit false x y h k = k

apply-Within :
    (window limit : ℕ) (event : Event) (run : Run)
    → 1 ≤ limit
    → IsWithin window limit run
    → IsWithin window limit (apply window event run)
unfolding apply enqueue abandon pause fail_group reset_group
apply-Within window limit (passes secs) run one (l, p) =
    (l, later-IsPaced window limit run.now secs run.group.granted run.log p)
apply-Within window limit (queues priority sequence) run one (l, p) =
    either-Within window limit run.failed _ _ (l, p) (l, p)
apply-Within window limit (leaves sequence) run one (l, p) = (l, p)
apply-Within window limit (refused max_pause retry_after) run one (l, p) = (l, p)
apply-Within window limit runs run one (l, p) =
    let ends = dispatch-Ends window run.now run.group (subst (λ n. 1 ≤ n) (sym l) one) in
    either-Within window limit run.group.dispatching _ _
      (turn-Within window limit run (dispatch window run.now run.group) (l, p) ends) (l, p)
apply-Within window limit fails run one (l, p) = (l, p)
apply-Within window limit resets run one (l, p) = (
  l,
  record {
    granted_rise = tt;
    granted_past = tt;
    log_past = tt;
    same = λ later _. refl;
    paced = λ start. omega arith;
  },
)

run_all-Within :
    (window limit : ℕ) (events : List Event) (run : Run)
    → 1 ≤ limit
    → IsWithin window limit run
    → IsWithin window limit (run_all window events run)
run_all-Within window limit [] run one w = w
run_all-Within window limit (event ∷ events) run one w =
    run_all-Within window limit events (apply window event run) one
      (apply-Within window limit event run one w)

-- However requests queue, leave and are refused, time passes, and the connection is lost and
-- opened, a group whose limit is at least one never grants, on a connection, more requests than its
-- limit in any span of one window.
pub run_all-paced :
    (window limit start : ℕ) (events : List Event)
    → 1 ≤ limit
    → inside window start (run_all window events (new_run limit)).log ≤ limit
run_all-paced window limit start events one =
    let start_run : IsWithin window limit (new_run limit) = (
      refl,
      record {
        granted_rise = tt;
        granted_past = tt;
        log_past = tt;
        same = λ later _. refl;
        paced = λ start. omega arith;
      },
    ) in
    (run_all-Within window limit events (new_run limit) one start_run).1.paced start
