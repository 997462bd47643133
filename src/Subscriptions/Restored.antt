-- ===== src/Subscriptions/Restored.antt =====
-- What a new connection restores (common/subscriptions.py, `attach`, `_record`, `_release`).
use nautilus_ctrader_adapter.Prelude.{
  ℕ, ◌≡◌, ◌↔◌, ◌∙◌, refl, ap, Bool, true, false, not, ◌&&◌, ◌||◌, Option, none, some, List, [], ◌∷◌,
  arith, if◌then◌else◌, length, leb,
}
use nautilus_ctrader_adapter.Prelude.Dict.{
  Dict, contains, insert, erase, member, add, discard, lookup-insert, lookup-erase, member-add,
  member-discard,
}
use nautilus_ctrader_adapter.Subscriptions.{
  Key, Key_eq, key_eq_iff, Consumer, Consumer_eq, Session, SubscriptionRegistry, add_restore,
  remove_restore, mark_restore_failed, with_session, restore_all, accepts, held_by, attach, detach,
  record_consumer, record_unknown, acquire_begin, acquire_end, drop_key, release_begin, release_end,
  Outcome, succeeded, refused, unanswered, other_error, cancelled,
}
use nautilus_ctrader_adapter.Subscriptions.Held.{
  HasConsumer, Acquires, Releases, run_all-HasConsumer, release-Releases, acquire-Acquires,
}
use nautilus_ctrader_adapter.Subscriptions.Steps.{
  Event, attaches, changes, detaches, asks, answered, gives_up, given_up, apply, run_all,
  new_registry,
}

-- The session restores just the keys that are held.
abbrev pub IsRestored : Option Session → Dict Key (List Consumer) → Type 0
IsRestored none consumers = Unit
IsRestored (some session) consumers =
    (key : Key) → member key session.restores ≡ contains key consumers

abbrev pub Restores : SubscriptionRegistry → Type 0
Restores registry = IsRestored registry.session registry.consumers

restore_all-member :
    (consumers : Dict Key (List Consumer)) (session : Session) (key : Key)
    → member key (restore_all consumers session).restores
      ≡ (contains key consumers || member key session.restores)
restore_all-member [] session key = refl
restore_all-member ((k, held) ∷ consumers) session key = ground (
  arith,
  restore_all-member consumers (add_restore k session) key,
  member-add k key session.restores,
)

-- A key that was held stays so when its consumers change.
changed-Restored :
    (session : Option Session) (consumers : Dict Key (List Consumer)) (key : Key)
    (held : List Consumer)
    → contains key consumers ≡ true
    → IsRestored session consumers
    → IsRestored session (insert key held consumers)
changed-Restored none consumers key held h r = tt
changed-Restored (some session) consumers key held h r = λ k. ground (
  arith,
  r k,
  lookup-insert key k held consumers,
  key_eq_iff k key,
  ap (λ j. contains j consumers) {x = k} {y = key},
  h,
)

recorded-Restored :
    (session : Option Session) (consumers : Dict Key (List Consumer)) (key : Key)
    (held : List Consumer)
    → IsRestored session consumers
    → IsRestored (with_session (add_restore key) session) (insert key held consumers)
recorded-Restored none consumers key held r = tt
recorded-Restored (some session) consumers key held r =
    λ k. ground (arith, r k, lookup-insert key k held consumers, member-add key k session.restores)

dropped-Restored :
    (session : Option Session) (consumers : Dict Key (List Consumer)) (key : Key)
    → IsRestored session consumers
    → IsRestored (with_session (remove_restore key) session) (erase key consumers)
dropped-Restored none consumers key r = tt
dropped-Restored (some session) consumers key r =
    λ k. ground (arith, r k, lookup-erase key k consumers, member-discard key k session.restores)

marked-Restored :
    (session : Option Session) (consumers : Dict Key (List Consumer)) (key : Key)
    → IsRestored session consumers
    → IsRestored (with_session (mark_restore_failed key) session) consumers
marked-Restored none consumers key r = tt
marked-Restored (some session) consumers key r = λ k. ground (arith, r k)

either-Restores :
    (b : Bool) (x y : SubscriptionRegistry)
    → (b ≡ true → Restores x)
    → (b ≡ false → Restores y)
    → Restores (if b then x else y)
either-Restores true x y h k = h refl
either-Restores false x y h k = k refl

-- The same of what a part of a call leaves, with whether it sends or raises.
abbrev Leaves : SubscriptionRegistry × Bool → Type 0
Leaves (registry, flag) = Restores registry

either-Leaves :
    (b : Bool) (x y : SubscriptionRegistry × Bool)
    → (b ≡ true → Leaves x)
    → (b ≡ false → Leaves y)
    → Leaves (if b then x else y)
either-Leaves true x y h k = h refl
either-Leaves false x y h k = k refl

record_unknown-Restores :
    (same : Bool) (key : Key) (consumer : Consumer) (registry : SubscriptionRegistry)
    → Restores registry
    → Restores (record_unknown same key consumer registry)
unfolding record_unknown record_consumer
record_unknown-Restores same key consumer registry r =
    let session = with_session (add_restore key) registry.session in
    let consumers = insert key (add consumer (held_by key registry)) registry.consumers in
    let recorded : IsRestored session consumers =
      recorded-Restored registry.session registry.consumers key
        (add consumer (held_by key registry)) r in
    either-Restores (same && accepts session) _
      (record registry { session = session; consumers = consumers })
      (λ _. marked-Restored session consumers key recorded) (λ _. recorded)

acquire_end-Leaves :
    (outcome : Outcome) (same : Bool) (key : Key) (consumer : Consumer)
    (registry : SubscriptionRegistry)
    → Restores registry
    → Leaves (acquire_end outcome same key consumer registry)
unfolding acquire_end record_consumer
acquire_end-Leaves succeeded same key consumer registry r =
    recorded-Restored registry.session registry.consumers key (add consumer (held_by key registry))
      r
acquire_end-Leaves refused same key consumer registry r = r
acquire_end-Leaves unanswered same key consumer registry r =
    record_unknown-Restores same key consumer registry r
acquire_end-Leaves other_error same key consumer registry r =
    either-Leaves (same && accepts registry.session) (registry, true) _ (λ _. r)
      (λ _. record_unknown-Restores same key consumer registry r)
acquire_end-Leaves cancelled same key consumer registry r =
    record_unknown-Restores same key consumer registry r

acquire_begin-Leaves :
    (key : Key) (consumer : Consumer) (registry : SubscriptionRegistry)
    → Restores registry
    → Leaves (acquire_begin key consumer registry)
unfolding acquire_begin record_consumer
acquire_begin-Leaves key consumer registry r =
    either-Leaves (contains key registry.consumers && not (member key registry.maybe_unsubscribed))
      _ _
      (λ h.
        changed-Restored registry.session registry.consumers key
          (add consumer (held_by key registry)) (ground (arith, h)) r)
      (λ _.
        either-Leaves (accepts registry.session) (registry, true) _ (λ _. r)
          (λ _.
            recorded-Restored registry.session registry.consumers key
              (add consumer (held_by key registry)) r))

-- A key that has consumers is held.
held_by-contains :
    (key : Key) (consumer : Consumer) (registry : SubscriptionRegistry)
    → member consumer (held_by key registry) ≡ true
    → contains key registry.consumers ≡ true
held_by-contains key consumer registry h = ground (arith, h)

release_begin-Leaves :
    (key : Key) (consumer : Consumer) (registry : SubscriptionRegistry)
    → Restores registry
    → Leaves (release_begin key consumer registry)
unfolding release_begin drop_key
release_begin-Leaves key consumer registry r =
    either-Leaves (not (member consumer (held_by key registry))) (registry, false) _ (λ _. r)
      (λ held.
        either-Leaves (leb 2 (length (held_by key registry))) _ _
          (λ _.
            changed-Restored registry.session registry.consumers key
              (discard consumer (held_by key registry))
              (held_by-contains key consumer registry (ground (arith, held))) r)
          (λ _.
            either-Leaves (accepts registry.session) (registry, true) _ (λ _. r)
              (λ _. dropped-Restored registry.session registry.consumers key r)))

release_end-Leaves :
    (outcome : Outcome) (key : Key) (registry : SubscriptionRegistry)
    → Restores registry
    → Leaves (release_end outcome key registry)
unfolding release_end drop_key
release_end-Leaves cancelled key registry r = r
release_end-Leaves succeeded key registry r =
    dropped-Restored registry.session registry.consumers key r
release_end-Leaves refused key registry r =
    dropped-Restored registry.session registry.consumers key r
release_end-Leaves unanswered key registry r =
    dropped-Restored registry.session registry.consumers key r
release_end-Leaves other_error key registry r =
    dropped-Restored registry.session registry.consumers key r

-- A change of the session's own state leaves what it restores.
changes-Restored :
    (accepting : Bool) (generation : ℕ) (failed : List Key) (session : Option Session)
    (consumers : Dict Key (List Consumer))
    → IsRestored session consumers
    → IsRestored
        (with_session
          (λ (s : Session). record s {
            accepting = accepting;
            generation = generation;
            failed_restores = failed;
          })
          session)
        consumers
changes-Restored accepting generation failed none consumers r = tt
changes-Restored accepting generation failed (some session) consumers r = r

apply-Restores :
    (event : Event) (registry : SubscriptionRegistry)
    → Restores registry
    → Restores (apply event registry)
unfolding apply attach detach
apply-Restores (attaches accepting generation) registry r = λ key. ground (
  arith,
  restore_all-member registry.consumers
      (record {
        accepting = accepting;
        generation = generation;
        restores = [];
        failed_restores = [];
      })
      key,
)
apply-Restores (changes accepting generation failed) registry r =
    changes-Restored accepting generation failed registry.session registry.consumers r
apply-Restores detaches registry r = tt
apply-Restores (asks key consumer) registry r = acquire_begin-Leaves key consumer registry r
apply-Restores (answered outcome same key consumer) registry r =
    acquire_end-Leaves outcome same key consumer registry r
apply-Restores (gives_up key consumer) registry r = release_begin-Leaves key consumer registry r
apply-Restores (given_up outcome key) registry r = release_end-Leaves outcome key registry r

run_all-kept :
    (events : List Event) (registry : SubscriptionRegistry)
    → Restores registry
    → Restores (run_all events registry)
run_all-kept [] registry r = r
run_all-kept (event ∷ events) registry r =
    run_all-kept events (apply event registry) (apply-Restores event registry r)

-- An attached session restores just the keys that some consumer holds.
abbrev pub RestoresHeld : Option Session → SubscriptionRegistry → Type 0
RestoresHeld none registry = Unit
RestoresHeld (some session) registry =
    (key : Key) → (member key session.restores ≡ true) ↔ HasConsumer key registry

Restored-Held :
    (session : Option Session) (registry : SubscriptionRegistry)
    → IsRestored session registry.consumers
    → ((key : Key) → (contains key registry.consumers ≡ true) ↔ HasConsumer key registry)
    → RestoresHeld session registry
Restored-Held none registry r h = tt
Restored-Held (some session) registry r h =
    λ key. (λ m. (h key).0 (ground (arith, r key, m)), λ c. r key ∙ (h key).1 c)

-- However calls begin and their requests end, whatever their outcome, and however sessions are
-- attached, change and are detached, an attached session restores after a reconnect exactly the
-- keys that some consumer holds. A consumer holds a key once its acquisition is done without an
-- error; it does no longer once its release is done without a request, and no consumer does once
-- the request of a release ended otherwise than by being cancelled.
pub run_all-Restores :
    (events : List Event)
    → let registry = run_all events new_registry in
      RestoresHeld registry.session registry
      × ((key : Key) (consumer : Consumer)
          → Acquires key consumer registry × Releases key consumer registry)
run_all-Restores events =
    let registry = run_all events new_registry in
    (
      Restored-Held registry.session registry (run_all-kept events new_registry tt)
          (run_all-HasConsumer events),
      λ key consumer.
          (acquire-Acquires key consumer registry, release-Releases key consumer registry),
    )
