-- ===== src/Scheduler/Turns.antt =====
-- The rounds of a group's dispatcher (common/rate_limit.py, `_dispatch`).
use nautilus_ctrader_adapter.Prelude.{
  ℕ, ◌+◌, ◌-◌, ◌<◌, ◌≤◌, ◌≡◌, ◌⊎◌, ◌↔◌, refl, sym, subst, ap, true, false, Option, List, [], ◌∷◌,
  ◌++◌, arith, length, ltb, Bool-cases, inl, inr, get_or,
}
use nautilus_ctrader_adapter.Prelude.Sort.{Mem, Ascending, Below-Mem}
use nautilus_ctrader_adapter.Scheduler.{
  Entry, Group, Round, finished, sleeps, grants, dispatch, expire, ready_at, drop_dead, entry_le,
}

pub List-cases :
    {A : Type 0} (xs : List A) → (xs ≡ []) ⊎ ((a : A) × (rest : List A) × (xs ≡ a ∷ rest))
List-cases [] = inl refl
List-cases (a ∷ xs) = inr (a, xs, refl)

-- The pause of a group is over.
abbrev pub IsOpen : ℕ → Group → Type 0
IsOpen now group = get_or 0 group.paused_until ≤ now

-- The time is among those that the window holds.
pub expired_head :
    (window now : ℕ) (times : List ℕ) (sent : ℕ) (rest : List ℕ)
    → expire window now times ≡ sent ∷ rest
    → now < sent + window
expired_head window now [] sent rest h = ground (arith, h)
expired_head window now (t ∷ times) sent rest h =
    ground (arith, h, expired_head window now times sent rest)

-- A group is ready exactly when its pause is over and the window has room.
pub ready_at_iff :
    (window now limit : ℕ) (paused_until : Option ℕ) (times : List ℕ)
    → 1 ≤ limit
    → (get_or 0 (ready_at window limit paused_until (expire window now times)) ≤ now)
      ↔ ((get_or 0 paused_until ≤ now) × (length (expire window now times) < limit))
ready_at_iff window now limit paused_until times one = elim (List-cases (expire window now times)) [
  | inl e ↦ ground (arith, e, one)
  | inr (sent, rest, e) ↦
      let h = expired_head window now times sent rest e in ground (arith, e, h, one)
]

-- The three ways in which a round ends.
pub data Ends (window now : ℕ) (group : Group) : Group × Round → Type 0 where
  at_rest :
      drop_dead group.heap ≡ []
      → Ends window now group (record group { heap = []; dispatching = false }, finished)
  held_back :
      (entry : Entry) (rest : List Entry) (ready : ℕ)
      → drop_dead group.heap ≡ entry ∷ rest
      → ready
        ≡ get_or 0
            (ready_at window group.limit group.paused_until (expire window now group.granted))
      → now < ready
      → Ends window now group (
        record group { heap = entry ∷ rest; granted = expire window now group.granted },
        sleeps (ready - now),
      )
  served :
      (entry : Entry) (rest : List Entry)
      → drop_dead group.heap ≡ entry ∷ rest
      → IsOpen now group
      → length (expire window now group.granted) < group.limit
      → Ends window now group (
        record group { heap = rest; granted = expire window now group.granted ++ now ∷ [] },
        grants entry,
      )

pub dispatch-Ends :
    (window now : ℕ) (group : Group)
    → 1 ≤ group.limit
    → Ends window now group (dispatch window now group)
unfolding dispatch
dispatch-Ends window now group one = elim (List-cases (drop_dead group.heap)) [
  | inl e ↦ subst (Ends window now group) (sym (ground (arith, e))) (at_rest e)
  | inr (entry, rest, e) ↦
      let ready : ℕ =
        get_or 0
          (ready_at window group.limit group.paused_until (expire window now group.granted)) in
      let when = ready_at_iff window now group.limit group.paused_until group.granted one in
      elim (Bool-cases (ltb now ready)) [
        | inl early ↦
            subst (Ends window now group) (sym (ground (arith, e, early)))
              (held_back entry rest ready e refl (ground (arith, early)))
        | inr late ↦
            let (over, room) = when.0 (ground (arith, late)) in
            subst (Ends window now group) (sym (ground (arith, e, late)))
              (served entry rest e over room)
      ]
]

pub drop_dead-Next :
    (heap : List Entry) (entry : Entry) (rest : List Entry)
    → Ascending entry_le heap
    → drop_dead heap ≡ entry ∷ rest
    → Mem entry heap
      × (entry.done ≡ false)
      × ((other : Entry) → Mem other heap → other.done ≡ false → entry_le entry other ≡ true)
drop_dead-Next [] entry rest a h = ground (arith, h)
drop_dead-Next (x ∷ heap) entry rest (below, a) h = elim (Bool-cases x.done) [
  | inl dead ↦
      let (m, live, first) = drop_dead-Next heap entry rest a (ground (arith, dead, h)) in
      (
        inr m,
        live,
        λ other n l. elim n [
          | inl same ↦ ground (arith, dead, l, ap (λ (e : Entry). e.done) same)
          | inr n' ↦ first other n' l
        ],
      )
  | inr live ↦
      let same : x ≡ entry = ground (arith, live, h) in
      subst
        (λ e.
          Mem e (x ∷ heap)
          × (e.done ≡ false)
          × ((other : Entry) → Mem other (x ∷ heap) → other.done ≡ false → entry_le e other ≡ true))
        same
        (
          inl refl,
          live,
          λ other n l. elim n [
            | inl is ↦ subst (λ o. entry_le x o ≡ true) (sym is) (ground arith)
            | inr n' ↦ Below-Mem entry_le x other heap below n'
          ],
        )
]

pub drop_dead-none :
    (heap : List Entry) (other : Entry) → drop_dead heap ≡ [] → Mem other heap → other.done ≡ true
drop_dead-none [] other h m = elim m [ ]
drop_dead-none (x ∷ heap) other h (inl same) = ground (arith, h, ap (λ (e : Entry). e.done) same)
drop_dead-none (x ∷ heap) other h (inr m) = ground (arith, h, drop_dead-none heap other, m)

-- The request that waits for its turn and comes before every other that does, by priority and then
-- in the order of arrival.
abbrev pub IsNext : Group → Entry → Type 0
IsNext group entry =
    Mem entry group.heap
    × (entry.done ≡ false)
    × ((other : Entry) → Mem other group.heap → other.done ≡ false → entry_le entry other ≡ true)

-- A group's pause is over and it has granted fewer requests than its limit within the window.
abbrev pub IsReady : ℕ → ℕ → Group → Type 0
IsReady window now group =
    IsOpen now group × (length (expire window now group.granted) < group.limit)

pub Ends-Next :
    (window now : ℕ) (group : Group) (result : Group × Round)
    → Ascending entry_le group.heap
    → Ends window now group result
    → (group' : Group) (entry : Entry) → result ≡ (group', grants entry)
    → IsNext group entry × IsReady window now group
Ends-Next window now group result a (at_rest none_left) group' entry h = ground (arith, h)
Ends-Next window now group result a (held_back x rest ready e r early) group' entry h =
    ground (arith, h)
Ends-Next window now group result a (served x rest e over room) group' entry h =
    let same : x ≡ entry = ground (arith, h) in
    (subst (IsNext group) same (drop_dead-Next group.heap x rest a e), (over, room))

pub Ends-Ready :
    (window now : ℕ) (group : Group) (result : Group × Round)
    → Ends window now group result
    → 1 ≤ group.limit
    → (waiting : Entry) → Mem waiting group.heap
    → waiting.done ≡ false
    → IsReady window now group
    → (group' : Group) × (entry : Entry) × (result ≡ (group', grants entry))
Ends-Ready window now group result (at_rest e) one waiting m live (over, room) =
    ground (arith, drop_dead-none group.heap waiting e m, live)
Ends-Ready window now group result (held_back x rest ready e r early) one waiting m live
      (over, room) =
    let when = ready_at_iff window now group.limit group.paused_until group.granted one in
    absurd (omega (arith, when.1 (over, room), r, early))
Ends-Ready window now group result (served x rest e over' room') one waiting m live (over, room) =
    (_, x, refl)

-- While a request waits and the limit is at least one, a round of the dispatcher grants one exactly
-- when the group's pause is over and its window has room; and the one that it grants is a waiting
-- one that no other comes before, by priority and then by arrival.
pub dispatch-Next :
    (window now : ℕ) (group : Group) (waiting : Entry)
    → Ascending entry_le group.heap
    → 1 ≤ group.limit
    → Mem waiting group.heap
    → waiting.done ≡ false
    → (IsReady window now group
        → (group' : Group) × (entry : Entry) × (dispatch window now group ≡ (group', grants entry)))
      × ((group' : Group) (entry : Entry)
          → dispatch window now group ≡ (group', grants entry)
          → IsNext group entry × IsReady window now group)
dispatch-Next window now group waiting a one m live =
    let ends = dispatch-Ends window now group one in
    (
      Ends-Ready window now group (dispatch window now group) ends one waiting m live,
      Ends-Next window now group (dispatch window now group) a ends,
    )
