-- ===== src/Subscriptions/Steps.antt =====
-- What happens to a registry (common/subscriptions.py) as a sequence of events: sessions are
-- attached, change and are detached, calls begin and their requests end.
use nautilus_ctrader_adapter.Prelude.{ℕ, Bool, none, List, [], ◌∷◌}
use nautilus_ctrader_adapter.Subscriptions.{
  Key, Consumer, Session, SubscriptionRegistry, with_session, attach, detach, acquire_begin,
  Outcome, acquire_end, release_begin, release_end,
}

-- A session's state, bring-up and failed restores change by themselves.
pub data Event : Type 0 where
  attaches : Bool → ℕ → Event
  changes : Bool → ℕ → List Key → Event
  detaches : Event
  asks : Key → Consumer → Event
  answered : Outcome → Bool → Key → Consumer → Event
  gives_up : Key → Consumer → Event
  given_up : Outcome → Key → Event

unfoldable pub apply : Event → SubscriptionRegistry → SubscriptionRegistry
unfolding attach detach acquire_begin acquire_end release_begin release_end
apply (attaches accepting generation) registry =
    attach
      (record {
        accepting = accepting;
        generation = generation;
        restores = [];
        failed_restores = [];
      })
      registry
apply (changes accepting generation failed) registry = record registry {
  session =
      with_session
        (λ (s : Session). record s {
          accepting = accepting;
          generation = generation;
          failed_restores = failed;
        })
        registry.session;
}
apply detaches registry = detach registry
apply (asks key consumer) registry = (acquire_begin key consumer registry).0
apply (answered outcome same key consumer) registry =
    (acquire_end outcome same key consumer registry).0
apply (gives_up key consumer) registry = (release_begin key consumer registry).0
apply (given_up outcome key) registry = (release_end outcome key registry).0

abbrev pub run_all : List Event → SubscriptionRegistry → SubscriptionRegistry
run_all [] registry = registry
run_all (event ∷ events) registry = run_all events (apply event registry)

abbrev pub new_registry : SubscriptionRegistry
new_registry = record { session = none; consumers = []; maybe_unsubscribed = []; last_spots = [] }
