-- ===== src/EventBus/Tests.antt =====
-- Two handlers of one event, and one of another.
use tao_core_go.Prelude.{ℕ, Text, List, [], ◌∷◌, ◌≡◌, refl, codes, text_eq}
use tao_core_go.Prelude.Maps
use tao_core_go.EventBus.{subscribe, publish, subscribe_all}
use tao_core_go.EventBus.Refines.{handlers_of, publish-handlers_of}

abbrev subscriptions : List (Text × ℕ)
subscriptions =
    (codes "session.completed", 1)
    ∷ (codes "session.started", 2)
    ∷ (codes "session.completed", 3)
    ∷ []

started : publish (codes "session.completed") (subscribe_all subscriptions []) ≡ 1 ∷ 3 ∷ []
unfolding publish subscribe_all Maps.get Maps.put subscribe text_eq
started = refl

publish-handlers_of_example :
    publish (codes "session.completed") (subscribe_all subscriptions [])
    ≡ handlers_of (codes "session.completed") subscriptions
publish-handlers_of_example = publish-handlers_of (codes "session.completed") subscriptions
