-- ===== src/Scheduler/Wakes.antt =====
-- The sleep of a group's dispatcher (common/rate_limit.py, `_dispatch`).
use nautilus_ctrader_adapter.Prelude.{
  ℕ, ◌+◌, ◌<◌, ◌≤◌, ◌≡◌, sym, subst, Option, List, [], ◌∷◌, ◌++◌, arith, length, Bool-cases, inl,
  inr, get_or,
}
use nautilus_ctrader_adapter.Scheduler.{
  Entry, Group, Round, sleeps, grants, dispatch, expire, ready_at, drop_dead,
}
use nautilus_ctrader_adapter.Scheduler.Turns.{
  ready_at_iff, Ends, dispatch-Ends, at_rest, held_back, served,
}

drop_dead_idem :
    (heap : List Entry) (entry : Entry) (rest : List Entry)
    → drop_dead heap ≡ entry ∷ rest
    → drop_dead (entry ∷ rest) ≡ entry ∷ rest
drop_dead_idem [] entry rest h = ground (arith, h)
drop_dead_idem (x ∷ heap) entry rest h = elim (Bool-cases x.done) [
  | inl dead ↦ drop_dead_idem heap entry rest (ground (arith, dead, h))
  | inr live ↦
      let same : x ≡ entry = ground (arith, live, h) in
      subst (λ e. drop_dead (e ∷ rest) ≡ e ∷ rest) same (ground (arith, live))
]

pub length-expire :
    (window now : ℕ) (times : List ℕ) → length (expire window now times) ≤ length times
length-expire window now [] = omega arith
length-expire window now (t ∷ times) = ground (arith, length-expire window now times)

-- The window has room again once its oldest time has left it.
room_again :
    (window limit ready : ℕ) (paused_until : Option ℕ) (times : List ℕ)
    → 1 ≤ limit
    → length times ≤ limit
    → get_or 0 (ready_at window limit paused_until times) ≤ ready
    → (get_or 0 paused_until ≤ ready) × (length (expire window ready times) < limit)
room_again window limit ready paused_until [] one le r = ground (arith, one, r)
room_again window limit ready paused_until (t ∷ times) one le r =
    ground (arith, one, le, r, length-expire window ready times)

-- Before that, it has none, or the pause still lasts.
no_room_before :
    (window limit t : ℕ) (paused_until : Option ℕ) (times : List ℕ)
    → 1 ≤ limit
    → get_or 0 paused_until ≤ t
    → length (expire window t times) < limit
    → get_or 0 (ready_at window limit paused_until times) ≤ t
no_room_before window limit t paused_until [] one p r = ground (arith, one, p, r)
no_room_before window limit t paused_until (sent ∷ times) one p r = ground (arith, one, p, r)

Ends-open :
    (window now : ℕ) (group : Group) (result : Group × Round)
    → Ends window now group result
    → (group' : Group) (entry : Entry) → result ≡ (group', grants entry)
    → (get_or 0 group.paused_until ≤ now) × (length (expire window now group.granted) < group.limit)
Ends-open window now group result (at_rest e) group' entry h = ground (arith, h)
Ends-open window now group result (held_back x rest ready e r early) group' entry h =
    ground (arith, h)
Ends-open window now group result (served x rest e over room) group' entry h = (over, room)

Ends-waits :
    (window now early : ℕ) (group : Group) (result : Group × Round)
    → Ends window now group result
    → 1 ≤ group.limit
    → (group' : Group) (wait : ℕ) → result ≡ (group', sleeps wait)
    → early < wait
    → (group'' : Group) (entry : Entry)
    → ¬ (dispatch window (now + early) group' ≡ (group'', grants entry))
Ends-waits window now early group result (at_rest e) one group' wait h l group'' entry g =
    ground (arith, h)
Ends-waits window now early group result (served x rest e over room) one group' wait h l group''
      entry g =
    ground (arith, h)
Ends-waits window now early group result (held_back x rest ready e r soon) one group' wait h l
      group'' entry g =
    let t = now + early in
    let left = expire window now group.granted in
    let asleep : Group = record group { heap = x ∷ rest; granted = left } in
    let same : asleep ≡ group' = ground (arith, h) in
    let then_granted = subst (λ s. dispatch window t s ≡ (group'', grants entry)) (sym same) g in
    let (over, room) =
      Ends-open window t asleep (dispatch window t asleep) (dispatch-Ends window t asleep one)
        group'' entry then_granted in
    let before : t < ready = ground (arith, h, l, soon) in
    omega
      (arith, no_room_before window group.limit t group.paused_until left one over room, r, before)

-- When a round sleeps, no round before that time, with nothing changed meanwhile, grants a request.
pub dispatch-waits :
    (window now early : ℕ) (group group' : Group) (wait : ℕ)
    → 1 ≤ group.limit
    → dispatch window now group ≡ (group', sleeps wait)
    → early < wait
    → (group'' : Group) (entry : Entry)
    → ¬ (dispatch window (now + early) group' ≡ (group'', grants entry))
dispatch-waits window now early group group' wait one h l =
    Ends-waits window now early group (dispatch window now group)
      (dispatch-Ends window now group one) one group' wait h l

Ends-wakes :
    (window now : ℕ) (group : Group) (result : Group × Round)
    → Ends window now group result
    → 1 ≤ group.limit
    → length group.granted ≤ group.limit
    → (group' : Group) (wait : ℕ) → result ≡ (group', sleeps wait)
    → (group'' : Group) × (entry : Entry) × (dispatch window (now + wait) group'
        ≡ (group'', grants entry))
unfolding dispatch
Ends-wakes window now group result (at_rest e) one le group' wait h = ground (arith, h)
Ends-wakes window now group result (served x rest e over room) one le group' wait h =
    ground (arith, h)
Ends-wakes window now group result (held_back x rest ready e r early) one le group' wait h =
    let left = expire window now group.granted in
    let (over, room) =
      room_again window group.limit ready group.paused_until left one
        (omega (arith, le, length-expire window now group.granted)) (omega (arith, r)) in
    let asleep : Group = record group { heap = x ∷ rest; granted = left } in
    let at : now + wait ≡ ready = ground (arith, h, early) in
    let same : asleep ≡ group' = ground (arith, h) in
    let later = ready_at_iff window ready group.limit group.paused_until left one in
    let ready_then = later.1 (over, room) in
    let top = drop_dead_idem group.heap x rest e in
    let g : Group = record asleep {
      heap = rest;
      granted = expire window ready left ++ ready ∷ [];
    } in
    (
      g,
      x,
      subst (λ s. dispatch window (now + wait) s ≡ (g, grants x)) same
          (subst (λ t. dispatch window t asleep ≡ (g, grants x)) (sym at)
            (ground (arith, top, ready_then))),
    )

-- The dispatcher sleeps no longer than it must: when a round sleeps, the round after that time, with nothing changed meanwhile, grants a request. The limit is at least one and the
-- group holds no more send times than it.
pub dispatch-wakes :
    (window now : ℕ) (group group' : Group) (wait : ℕ)
    → 1 ≤ group.limit
    → length group.granted ≤ group.limit
    → dispatch window now group ≡ (group', sleeps wait)
    → (group'' : Group) × (entry : Entry) × (dispatch window (now + wait) group'
        ≡ (group'', grants entry))
dispatch-wakes window now group group' wait one le h =
    Ends-wakes window now group (dispatch window now group) (dispatch-Ends window now group one) one
      le group' wait h
