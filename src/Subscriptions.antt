-- ===== src/Subscriptions.antt =====
-- The venue subscriptions of an account (common/subscriptions.py, `SubscriptionRegistry`). A call
-- is cut at its request: what comes before it, and what comes after it by the request's outcome.
pub mod Steps
pub mod Restored
pub mod Held
pub mod Counted
use nautilus_ctrader_adapter.Prelude.{
  ℕ, ◌+◌, ◌-◌, ◌≡◌, ◌↔◌, refl, Bool, true, false, not, ◌&&◌, ◌||◌, Option, none, some, List, [],
  ◌∷◌, arith, nat_eq, nat_eq_iff, if◌then◌else◌, length, leb, is_some, or_else, any,
}
use nautilus_ctrader_adapter.Prelude.Eq.{Eq, Text, text_eq, text_eq_iff, ◌==◌, ℕ_eq}
use nautilus_ctrader_adapter.Prelude.Dict.{
  Dict, lookup, contains, insert, erase, member, add, discard,
}

pub data Key : Type 0 where
  spots : ℕ → Key
  trendbar : ℕ → ℕ → Key

abbrev pub key_eq : Key → Key → Bool
key_eq (spots a) (spots b) = nat_eq a b
key_eq (spots a) (trendbar b q) = false
key_eq (trendbar a p) (spots b) = false
key_eq (trendbar a p) (trendbar b q) = nat_eq a b && nat_eq p q

pub key_eq_iff : (a b : Key) → (key_eq a b ≡ true) ↔ (a ≡ b)
key_eq_iff (spots a) (spots b) = ground (arith, nat_eq_iff a b)
key_eq_iff (spots a) (trendbar b q) = ground arith
key_eq_iff (trendbar a p) (spots b) = ground arith
key_eq_iff (trendbar a p) (trendbar b q) = ground (arith, nat_eq_iff a b, nat_eq_iff p q)

instance abbrev pub Key_eq : Eq Key
Key_eq = record { beq = key_eq; beq_iff = key_eq_iff }

-- `(owner, name)`
abbrev pub Consumer : Type 0
Consumer = Text × Text

abbrev pub consumer_eq : Consumer → Consumer → Bool
consumer_eq (a, b) (c, d) = text_eq a c && text_eq b d

pub consumer_eq_iff : (a b : Consumer) → (consumer_eq a b ≡ true) ↔ (a ≡ b)
consumer_eq_iff (a, b) (c, d) = ground (arith, text_eq_iff a c, text_eq_iff b d)

instance abbrev pub Consumer_eq : Eq Consumer
Consumer_eq = record { beq = consumer_eq; beq_iff = consumer_eq_iff }

-- `at` is left out: nothing here reads it.
pub record LastSpot : Type 0 where
  pub bid : Option ℕ
  pub ask : Option ℕ
  pub timestamp : Option ℕ

-- Whether the session accepts requests (`_ACCEPTING`), its bring-up's number, and the keys of this
-- registry that it restores, those whose restore failed apart.
pub record Session : Type 0 where
  pub accepting : Bool
  pub generation : ℕ
  pub restores : List Key
  pub failed_restores : List Key

pub record SubscriptionRegistry : Type 0 where
  pub session : Option Session
  pub consumers : Dict Key (List Consumer)
  pub maybe_unsubscribed : List Key
  pub last_spots : Dict ℕ (ℕ × LastSpot)

-- `add_restore`, `remove_restore` and `mark_restore_failed` of the session (common/session.py).
abbrev pub add_restore : Key → Session → Session
add_restore key session = record session { restores = add key session.restores }

abbrev pub remove_restore : Key → Session → Session
remove_restore key session = record session {
  restores = discard key session.restores;
  failed_restores = discard key session.failed_restores;
}

abbrev pub mark_restore_failed : Key → Session → Session
mark_restore_failed key session =
    if member key session.restores
    then record session { failed_restores = add key session.failed_restores }
    else session

abbrev pub with_session : (Session → Session) → Option Session → Option Session
with_session f none = none
with_session f (some session) = some (f session)

abbrev pub restore_all : Dict Key (List Consumer) → Session → Session
restore_all [] session = session
restore_all ((key, held) ∷ consumers) session = restore_all consumers (add_restore key session)

unfoldable pub detach : SubscriptionRegistry → SubscriptionRegistry
detach registry = record registry { session = none; last_spots = [] }

unfoldable pub attach : Session → SubscriptionRegistry → SubscriptionRegistry
unfolding detach
attach session registry = record (detach registry) {
  session = some (restore_all registry.consumers session);
}

abbrev pub accepts : Option Session → Bool
accepts none = false
accepts (some session) = session.accepting

abbrev pub held_by : Key → SubscriptionRegistry → List Consumer
held_by key registry = elim (lookup key registry.consumers) [ none ↦ [] | some held ↦ held ]

-- `_record`
unfoldable pub record_consumer : Key → Consumer → SubscriptionRegistry → SubscriptionRegistry
record_consumer key consumer registry = record registry {
  consumers = insert key (add consumer (held_by key registry)) registry.consumers;
  session = with_session (add_restore key) registry.session;
}

-- `_record_unknown`; `same` says whether the session that the request went through is attached
-- still.
unfoldable pub record_unknown : Bool → Key → Consumer → SubscriptionRegistry → SubscriptionRegistry
unfolding record_consumer
record_unknown same key consumer registry =
    let recorded = record_consumer key consumer registry in
    if same && accepts recorded.session
    then record recorded { session = with_session (mark_restore_failed key) recorded.session }
    else recorded

-- `_acquire` up to its request: done, or a request is sent.
unfoldable pub acquire_begin : Key → Consumer → SubscriptionRegistry → SubscriptionRegistry × Bool
unfolding record_consumer
acquire_begin key consumer registry =
    if contains key registry.consumers && not (member key registry.maybe_unsubscribed)
    then (
      record registry {
        consumers = insert key (add consumer (held_by key registry)) registry.consumers;
      },
      false,
    )
    else if accepts registry.session
    then (registry, true)
    else (record_consumer key consumer registry, false)

-- How a request ends; a subscribe that is refused with ALREADY_SUBSCRIBED has succeeded.
pub data Outcome : Type 0 where
  succeeded refused unanswered other_error cancelled : Outcome

-- `_acquire` after its request, and whether it raises.
unfoldable pub acquire_end :
    Outcome → Bool → Key → Consumer → SubscriptionRegistry → SubscriptionRegistry × Bool
unfolding record_consumer record_unknown
acquire_end succeeded same key consumer registry =
    let recorded = record_consumer key consumer registry in
    (record recorded { maybe_unsubscribed = discard key recorded.maybe_unsubscribed }, false)
acquire_end refused same key consumer registry = (registry, true)
acquire_end unanswered same key consumer registry =
    (record_unknown same key consumer registry, false)
acquire_end other_error same key consumer registry =
    if same && accepts registry.session
    then (registry, true)
    else (record_unknown same key consumer registry, false)
acquire_end cancelled same key consumer registry = (record_unknown same key consumer registry, true)

-- A symbol's last spot is dropped with its spots.
abbrev pub drop_spot : Key → Dict ℕ (ℕ × LastSpot) → Dict ℕ (ℕ × LastSpot)
drop_spot (spots symbol_id) last_spots = erase symbol_id last_spots
drop_spot (trendbar symbol_id period) last_spots = last_spots

-- The end of `_release`.
unfoldable pub drop_key : Key → SubscriptionRegistry → SubscriptionRegistry
drop_key key registry = record registry {
  consumers = erase key registry.consumers;
  maybe_unsubscribed = discard key registry.maybe_unsubscribed;
  last_spots = drop_spot key registry.last_spots;
  session = with_session (remove_restore key) registry.session;
}

-- `_release` up to its request: done, or a request is sent.
unfoldable pub release_begin : Key → Consumer → SubscriptionRegistry → SubscriptionRegistry × Bool
unfolding drop_key
release_begin key consumer registry =
    if not (member consumer (held_by key registry))
    then (registry, false)
    else if leb 2 (length (held_by key registry))
    then (
      record registry {
        consumers = insert key (discard consumer (held_by key registry)) registry.consumers;
      },
      false,
    )
    else if accepts registry.session
    then (registry, true)
    else (drop_key key registry, false)

-- `_release` after its request, and whether it raises.
unfoldable pub release_end : Outcome → Key → SubscriptionRegistry → SubscriptionRegistry × Bool
unfolding drop_key
release_end cancelled key registry = (
  record registry {
    maybe_unsubscribed = add key registry.maybe_unsubscribed;
    last_spots = drop_spot key registry.last_spots;
  },
  true,
)
release_end outcome key registry = (drop_key key registry, false)

-- `last_spot`
unfoldable pub last_spot : ℕ → SubscriptionRegistry → Option LastSpot
last_spot symbol_id registry = elim (lookup symbol_id registry.last_spots) [
  | none ↦ none
  | some kept ↦ elim registry.session [
    | none ↦ none
    | some session ↦
        if session.accepting && nat_eq kept.0 session.generation then some kept.1 else none
  ]
]

-- `consumers`
pub consumer_names : ℕ → SubscriptionRegistry → List Consumer
consumer_names symbol_id registry = held_by (spots symbol_id) registry
