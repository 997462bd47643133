-- ===== src/Subscriptions/Held.antt =====
-- The consumers of a key (common/subscriptions.py: `_acquire`, `_record`, `_release`): a key that
-- is held has some, each counted once.
use nautilus_ctrader_adapter.Prelude.{
  ◌≤◌, ◌≡◌, ◌↔◌, refl, Bool, true, false, not, ◌&&◌, List, [], ◌∷◌, arith, if◌then◌else◌, length,
  leb, Option-cases, inl, inr,
}
use nautilus_ctrader_adapter.Prelude.Dict.{
  lookup, contains, insert, member, add, discard, member-discard, lookup-erase, lookup-insert_self,
  member-add,
}
use nautilus_ctrader_adapter.Subscriptions.{
  Key, Key_eq, key_eq_iff, Consumer, Consumer_eq, SubscriptionRegistry, accepts, held_by, attach,
  detach, record_consumer, record_unknown, acquire_begin, acquire_end, drop_key, release_begin,
  release_end, Outcome, succeeded, refused, unanswered, other_error, cancelled,
}
use nautilus_ctrader_adapter.Subscriptions.Steps.{
  Event, attaches, changes, detaches, asks, answered, gives_up, given_up, apply, run_all,
  new_registry,
}
use nautilus_ctrader_adapter.Subscriptions.Counted.{
  NoTwice, AllHeld, add-IsHeld, length-discard, discard-NoTwice, insert-AllHeld, erase-AllHeld,
  lookup-IsHeld,
}

-- A part of a call leaves each key that is held with consumers, each of them once.
abbrev Leaves : SubscriptionRegistry × Bool → Type 0
Leaves (registry, flag) = AllHeld registry.consumers

either-Leaves :
    (b : Bool) (x y : SubscriptionRegistry × Bool)
    → (b ≡ true → Leaves x)
    → (b ≡ false → Leaves y)
    → Leaves (if b then x else y)
either-Leaves true x y h k = h refl
either-Leaves false x y h k = k refl

held_by-NoTwice :
    (key : Key) (registry : SubscriptionRegistry)
    → AllHeld registry.consumers
    → NoTwice (held_by key registry)
held_by-NoTwice key registry a = elim (Option-cases (lookup key registry.consumers)) [
  | inl e ↦ ground (arith, e)
  | inr (held, e) ↦ let h = lookup-IsHeld key registry.consumers held a e in ground (arith, e, h)
]

added-AllHeld :
    (key : Key) (consumer : Consumer) (registry : SubscriptionRegistry)
    → AllHeld registry.consumers
    → AllHeld (insert key (add consumer (held_by key registry)) registry.consumers)
added-AllHeld key consumer registry a =
    insert-AllHeld key (add consumer (held_by key registry)) registry.consumers
      (add-IsHeld consumer (held_by key registry) (held_by-NoTwice key registry a)) a

discarded-AllHeld :
    (key : Key) (consumer : Consumer) (registry : SubscriptionRegistry)
    → leb 2 (length (held_by key registry)) ≡ true
    → AllHeld registry.consumers
    → AllHeld (insert key (discard consumer (held_by key registry)) registry.consumers)
discarded-AllHeld key consumer registry two a =
    let once = held_by-NoTwice key registry a in
    let left = length-discard consumer (held_by key registry) once in
    insert-AllHeld key (discard consumer (held_by key registry)) registry.consumers
      (ground (arith, two, left), discard-NoTwice consumer (held_by key registry) once) a

record_unknown-AllHeld :
    (same : Bool) (key : Key) (consumer : Consumer) (registry : SubscriptionRegistry)
    → AllHeld registry.consumers
    → AllHeld (record_unknown same key consumer registry).consumers
unfolding record_unknown record_consumer
record_unknown-AllHeld same key consumer registry a =
    let added = added-AllHeld key consumer registry a in ground (arith, added)

acquire_begin-AllHeld :
    (key : Key) (consumer : Consumer) (registry : SubscriptionRegistry)
    → AllHeld registry.consumers
    → Leaves (acquire_begin key consumer registry)
unfolding acquire_begin record_consumer
acquire_begin-AllHeld key consumer registry a =
    let added = added-AllHeld key consumer registry a in
    either-Leaves (contains key registry.consumers && not (member key registry.maybe_unsubscribed))
      _ _ (λ _. added)
      (λ _. either-Leaves (accepts registry.session) (registry, true) _ (λ _. a) (λ _. added))

acquire_end-AllHeld :
    (outcome : Outcome) (same : Bool) (key : Key) (consumer : Consumer)
    (registry : SubscriptionRegistry)
    → AllHeld registry.consumers
    → Leaves (acquire_end outcome same key consumer registry)
unfolding acquire_end record_consumer
acquire_end-AllHeld succeeded same key consumer registry a = added-AllHeld key consumer registry a
acquire_end-AllHeld refused same key consumer registry a = a
acquire_end-AllHeld unanswered same key consumer registry a =
    record_unknown-AllHeld same key consumer registry a
acquire_end-AllHeld other_error same key consumer registry a =
    either-Leaves (same && accepts registry.session) (registry, true) _ (λ _. a)
      (λ _. record_unknown-AllHeld same key consumer registry a)
acquire_end-AllHeld cancelled same key consumer registry a =
    record_unknown-AllHeld same key consumer registry a

release_begin-AllHeld :
    (key : Key) (consumer : Consumer) (registry : SubscriptionRegistry)
    → AllHeld registry.consumers
    → Leaves (release_begin key consumer registry)
unfolding release_begin drop_key
release_begin-AllHeld key consumer registry a =
    either-Leaves (not (member consumer (held_by key registry))) (registry, false) _ (λ _. a)
      (λ _.
        either-Leaves (leb 2 (length (held_by key registry))) _ _
          (λ two. discarded-AllHeld key consumer registry two a)
          (λ _.
            either-Leaves (accepts registry.session) (registry, true) _ (λ _. a)
              (λ _. erase-AllHeld key registry.consumers a)))

release_end-AllHeld :
    (outcome : Outcome) (key : Key) (registry : SubscriptionRegistry)
    → AllHeld registry.consumers
    → Leaves (release_end outcome key registry)
unfolding release_end drop_key
release_end-AllHeld cancelled key registry a = a
release_end-AllHeld succeeded key registry a = erase-AllHeld key registry.consumers a
release_end-AllHeld refused key registry a = erase-AllHeld key registry.consumers a
release_end-AllHeld unanswered key registry a = erase-AllHeld key registry.consumers a
release_end-AllHeld other_error key registry a = erase-AllHeld key registry.consumers a

apply-AllHeld :
    (event : Event) (registry : SubscriptionRegistry)
    → AllHeld registry.consumers
    → AllHeld (apply event registry).consumers
unfolding apply attach detach
apply-AllHeld (attaches accepting generation) registry a = a
apply-AllHeld (changes accepting generation failed) registry a = a
apply-AllHeld detaches registry a = a
apply-AllHeld (asks key consumer) registry a = acquire_begin-AllHeld key consumer registry a
apply-AllHeld (answered outcome same key consumer) registry a =
    acquire_end-AllHeld outcome same key consumer registry a
apply-AllHeld (gives_up key consumer) registry a = release_begin-AllHeld key consumer registry a
apply-AllHeld (given_up outcome key) registry a = release_end-AllHeld outcome key registry a

run_all-AllHeld :
    (events : List Event) (registry : SubscriptionRegistry)
    → AllHeld registry.consumers
    → AllHeld (run_all events registry).consumers
run_all-AllHeld [] registry a = a
run_all-AllHeld (event ∷ events) registry a =
    run_all-AllHeld events (apply event registry) (apply-AllHeld event registry a)

-- Some consumer holds the key.
abbrev pub HasConsumer : Key → SubscriptionRegistry → Type 0
HasConsumer key registry = (consumer : Consumer) × (member consumer (held_by key registry) ≡ true)

first_consumer :
    (held : List Consumer) → 1 ≤ length held → (consumer : Consumer) × (member consumer held ≡ true)
first_consumer [] h = ground (arith, h)
first_consumer (x ∷ held) h = (x, ground (arith, Consumer_eq.beq_iff x x))

-- After any events, a key is held just if some consumer holds it.
pub run_all-HasConsumer :
    (events : List Event) (key : Key)
    → let registry = run_all events new_registry in
      (contains key registry.consumers ≡ true) ↔ HasConsumer key registry
run_all-HasConsumer events key =
    let registry = run_all events new_registry in
    elim (Option-cases (lookup key registry.consumers)) [
      | inl e ↦ (λ h. ground (arith, e, h), λ h. ground (arith, e, h.1))
      | inr (held, e) ↦
          let all = run_all-AllHeld events new_registry tt in
          let some_held = lookup-IsHeld key registry.consumers held all e in
          let (consumer, m) = first_consumer held some_held.0 in
          ((λ _. (consumer, ground (arith, e, m))), λ _. ground (arith, e))
    ]

-- An acquisition that is done without an error leaves the consumer with the key: one that sends no
-- request, and one whose request has ended.
abbrev pub Acquires : Key → Consumer → SubscriptionRegistry → Type 0
Acquires key consumer registry =
    ((acquire_begin key consumer registry).1 ≡ false
      → member consumer (held_by key (acquire_begin key consumer registry).0) ≡ true)
    × ((outcome : Outcome) (same : Bool)
        → (acquire_end outcome same key consumer registry).1 ≡ false
        → member consumer (held_by key (acquire_end outcome same key consumer registry).0) ≡ true)

pub acquire-Acquires :
    (key : Key) (consumer : Consumer) (registry : SubscriptionRegistry)
    → Acquires key consumer registry
unfolding acquire_begin acquire_end record_unknown record_consumer
acquire-Acquires key consumer registry =
    let held = held_by key registry in
    let found = lookup-insert_self key (add consumer held) registry.consumers in
    let added = member-add consumer consumer held in
    let same_one = Consumer_eq.beq_iff consumer consumer in
    (
      (λ h. ground (arith, h, found, added, same_one)),
      λ outcome same h. ground (arith, h, found, added, same_one),
    )

-- A release that is done leaves the consumer without the key: one that sends no request, and one
-- whose request ended otherwise than by being cancelled.
abbrev pub Releases : Key → Consumer → SubscriptionRegistry → Type 0
Releases key consumer registry =
    ((release_begin key consumer registry).1 ≡ false
      → member consumer (held_by key (release_begin key consumer registry).0) ≡ false)
    × ((outcome : Outcome)
        → (release_end outcome key registry).1 ≡ false
        → held_by key (release_end outcome key registry).0 ≡ [])

release_end-held :
    (outcome : Outcome) (key : Key) (registry : SubscriptionRegistry)
    → (release_end outcome key registry).1 ≡ false
    → held_by key (release_end outcome key registry).0 ≡ []
unfolding release_end drop_key
release_end-held outcome key registry h =
    ground (arith, h, lookup-erase key key registry.consumers, key_eq_iff key key)

pub release-Releases :
    (key : Key) (consumer : Consumer) (registry : SubscriptionRegistry)
    → Releases key consumer registry
unfolding release_begin drop_key
release-Releases key consumer registry =
    let held = held_by key registry in
    let left = discard consumer held in
    (
      (λ h. ground (
        arith,
        h,
        lookup-erase key key registry.consumers,
        lookup-insert_self key left registry.consumers,
        member-discard consumer consumer held,
        key_eq_iff key key,
        Consumer_eq.beq_iff consumer consumer,
      )),
      λ outcome h. release_end-held outcome key registry h,
    )
