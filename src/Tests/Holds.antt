-- ===== src/Tests/Holds.antt =====
-- Two consumers of a symbol's spots, one of trendbars, and a connection that is lost.
use nautilus_ctrader_adapter.Prelude.{◌≡◌, refl, true, List, [], ◌∷◌, some}
use nautilus_ctrader_adapter.Prelude.Eq.{codes}
use nautilus_ctrader_adapter.Subscriptions.{
  Key, spots, trendbar, Consumer, succeeded, unanswered, attach, detach, record_consumer,
  record_unknown, acquire_begin, acquire_end, release_begin, release_end, drop_key,
}
use nautilus_ctrader_adapter.Subscriptions.Steps.{
  Event, attaches, asks, answered, gives_up, given_up, apply, run_all, new_registry,
}
use nautilus_ctrader_adapter.Subscriptions.Held.{Acquires, Releases}
use nautilus_ctrader_adapter.Subscriptions.Restored.{RestoresHeld, run_all-Restores}

abbrev quotes : Consumer
quotes = (codes "data", codes "quotes")

abbrev rates : Consumer
rates = (codes "exec", codes "rates")

abbrev events : List Event
events =
    attaches true 1
    ∷ asks (spots 1) quotes
    ∷ answered succeeded true (spots 1) quotes
    ∷ asks (spots 1) rates
    ∷ asks (trendbar 1 5) quotes
    ∷ answered unanswered true (trendbar 1 5) quotes
    ∷ asks (spots 2) quotes
    ∷ answered succeeded true (spots 2) quotes
    ∷ gives_up (spots 2) quotes
    ∷ given_up succeeded (spots 2)
    ∷ gives_up (spots 1) quotes
    ∷ []

run_all-Restores_example :
    let registry = run_all events new_registry in
    RestoresHeld registry.session registry
    × ((key : Key) (consumer : Consumer)
        → Acquires key consumer registry × Releases key consumer registry)
run_all-Restores_example = run_all-Restores events

two_restored :
    (run_all events new_registry).session
    ≡ some (record {
      accepting = true;
      generation = 1;
      restores = spots 1 ∷ trendbar 1 5 ∷ [];
      failed_restores = trendbar 1 5 ∷ [];
    })
unfolding apply attach detach record_consumer record_unknown acquire_begin acquire_end release_begin
    release_end drop_key
two_restored = refl
