-- ===== src/EventBus/Refines.antt =====
-- The bus against the plain list of its subscriptions.
use tao_core_go.Prelude.{
  Text, List, [], ◌∷◌, ◌++◌, ◌≡◌, ap, ◌∙◌, sym, inl, inr, text_eq, if◌then◌else◌, Bool-cases,
  text_eq_iff,
}
use mathlib.Core.List.{append_assoc, append-nil}
use tao_core_go.Prelude.Maps.{get, get-put}
use tao_core_go.EventBus.{EventBus, or_nil, subscribe, publish, subscribe_all}

-- The specification: the subscriptions that were made for the event
unfoldable pub handlers_of : {H : Type 0} → Text → List (Text × H) → List H
handlers_of name [] = []
handlers_of name ((other, handler) ∷ rest) =
    let later = handlers_of name rest in if text_eq other name then handler ∷ later else later

module _ {H : Type 0} where
  publish-subscribe :
      (name other : Text) (handler : H) (bus : EventBus H)
      → publish name (subscribe other handler bus)
        ≡ publish name bus ++ (if text_eq other name then handler ∷ [] else [])
  unfolding publish subscribe
  publish-subscribe name other handler bus = elim (Bool-cases (text_eq other name)) [
    | inl same ↦
        let e = (text_eq_iff other name).0 same in
        rw (get-put, same) (ap (λ n. or_nil (get n bus) ++ handler ∷ []) e)
    | inr different ↦ rw (get-put, different) (sym (append-nil (or_nil (get name bus))))
  ]

  publish_from :
      (name : Text) (subscriptions : List (Text × H)) (bus : EventBus H)
      → publish name (subscribe_all subscriptions bus)
        ≡ publish name bus ++ handlers_of name subscriptions
  unfolding subscribe_all handlers_of
  publish_from name [] bus = sym (append-nil (publish name bus))
  publish_from name ((other, handler) ∷ rest) bus =
      publish_from name rest (subscribe other handler bus)
      ∙ ap (λ hs. hs ++ handlers_of name rest) (publish-subscribe name other handler bus)
      ∙ elim (Bool-cases (text_eq other name)) [
        | inl same ↦
            rw same (append_assoc (publish name bus) (handler ∷ []) (handlers_of name rest))
        | inr different ↦
            rw different (ap (λ hs. hs ++ handlers_of name rest) (append-nil (publish name bus)))
      ]

  -- After any subscriptions to a new bus, publishing an event starts exactly the handlers that
  -- were subscribed to that event, in the order of subscription.
  pub publish-handlers_of :
      (name : Text) (subscriptions : List (Text × H))
      → publish name (subscribe_all subscriptions []) ≡ handlers_of name subscriptions
  publish-handlers_of name subscriptions = unfold publish get in publish_from name subscriptions []
