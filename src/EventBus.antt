-- ===== src/EventBus.antt =====
-- internal/service/event_bus.go. A handler is what it does with a payload; `Publish` starts one
-- goroutine for each, and a panic in one does not reach the others.
pub mod Refines
mod Tests
use tao_core_go.Prelude.{Text, Option, none, some, List, [], ◌∷◌, ◌++◌}
use tao_core_go.Prelude.Maps.{get, put}

-- `eventBus`: the subscribers by the name of the event
abbrev pub EventBus : Type 0 → Type 0
EventBus H = List (Text × List H)

module _ {H : Type 0} where
  abbrev pub or_nil : Option (List H) → List H
  or_nil none = []
  or_nil (some hs) = hs

  -- `Subscribe`
  unfoldable pub subscribe : Text → H → EventBus H → EventBus H
  subscribe name handler bus = put name (or_nil (get name bus) ++ handler ∷ []) bus

  -- `Publish`: the handlers that are started, in the order in which their goroutines are
  unfoldable pub publish : Text → EventBus H → List H
  publish name bus = or_nil (get name bus)

  -- The subscriptions in order, from a bus
  unfoldable pub subscribe_all : List (Text × H) → EventBus H → EventBus H
  subscribe_all [] bus = bus
  subscribe_all ((name, handler) ∷ rest) bus = subscribe_all rest (subscribe name handler bus)
