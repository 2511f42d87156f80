-- ===== src/Webhook/Queue/Served.antt =====
-- internal/service/webhook_service.go: an event that waits is received, whatever is dispatched.
use mathlib.Core.List.{append_assoc, append-nil}
use mathlib.Core.Path.{subst}
use tao_core_go.Prelude.{
  ℕ, zero, suc, List, [], ◌∷◌, ◌++◌, ◌≡◌, refl, sym, ap, ◌∙◌, inl, inr, length, ltb, Bool-cases,
}
use tao_core_go.Webhook.Queue.{capacity, receive, Op, sent, taken, run_queue}
use tao_core_go.Webhook.Queue.Order.{dispatch_room, dispatch_full, shift_assoc}

-- How often a worker asks for an event
unfoldable pub receipts : {E : Type 0} → List (Op E) → ℕ
receipts [] = 0
receipts (sent event ∷ ops) = receipts ops
receipts (taken ∷ ops) = suc (receipts ops)

unfoldable pub first_of : {E : Type 0} → ℕ → List E → List E
first_of n [] = []
first_of zero (x ∷ xs) = []
first_of (suc n) (x ∷ xs) = x ∷ first_of n xs

first_of-append :
    {E : Type 0} (n : ℕ) (xs ys : List E)
    → (more : List E) × (first_of n (xs ++ ys) ≡ first_of n xs ++ more)
unfolding first_of
first_of-append n [] ys = (first_of n ys, refl)
first_of-append zero (x ∷ xs) ys = ([], refl)
first_of-append (suc n) (x ∷ xs) ys =
    let (more, e) = first_of-append n xs ys in (more, ap (λ zs. x ∷ zs) e)

first_of_none : {E : Type 0} (xs : List E) → first_of 0 xs ≡ []
unfolding first_of
first_of_none [] = refl
first_of_none (x ∷ xs) = refl

module _ {E : Type 0} where
  -- The entries of a queue that are due are received next, in order.
  pub record IsServed (n : ℕ) (queue received received' : List E) : Type 0 where
    pub later : List E
    pub in_order : received' ≡ (received ++ first_of n queue) ++ later

  longer-IsServed :
      (n : ℕ) (queue received received' : List E) (event : E)
      → IsServed n (queue ++ event ∷ []) received received'
      → IsServed n queue received received'
  longer-IsServed n queue received received' event served =
      let (more, e) = first_of-append n queue (event ∷ []) in
      record {
        later = more ++ served.later;
        in_order =
            served.in_order ∙ ap (λ xs. (received ++ xs) ++ served.later) e ∙ simp append_assoc;
      }

  -- A worker that finds the queue empty waits.
  idle-IsServed :
      (n : ℕ) (received received' : List E)
      → IsServed n [] received received'
      → IsServed (suc n) [] received received'
  unfolding first_of
  idle-IsServed n received received' served = record {
    later = served.later;
    in_order = served.in_order;
  }

  taken-IsServed :
      (n : ℕ) (queue received received' : List E) (event : E)
      → IsServed n queue (received ++ event ∷ []) received'
      → IsServed (suc n) (event ∷ queue) received received'
  unfolding first_of
  taken-IsServed n queue received received' event served = record {
    later = served.later;
    in_order =
        served.in_order
        ∙ ap (λ xs. xs ++ served.later) (shift_assoc received (first_of n queue) event);
  }

  -- Whatever is dispatched in between, the events that wait in the queue are received next and in
  -- their order, as many of them as there are receipts, so an event with n others before it is
  -- received by the receipt n + 1.
  pub run_queue-IsServed :
      (ops : List (Op E)) (queue received : List E)
      → IsServed (receipts ops) queue received (run_queue ops queue received).1
  unfolding run_queue receipts receive
  run_queue-IsServed [] queue received = record {
    later = [];
    in_order = sym (
        ap (λ xs. (received ++ xs) ++ []) (first_of_none queue)
        ∙ append-nil (received ++ [])
        ∙ append-nil received);
  }
  run_queue-IsServed (sent event ∷ ops) queue received =
      elim (Bool-cases (ltb (length queue) capacity)) [
        | inl room ↦
            subst (λ q. IsServed (receipts ops) queue received (run_queue ops q received).1)
              (sym (dispatch_room event queue room))
              (longer-IsServed (receipts ops) queue received _ event
                (run_queue-IsServed ops (queue ++ event ∷ []) received))
        | inr full ↦
            subst (λ q. IsServed (receipts ops) queue received (run_queue ops q received).1)
              (sym (dispatch_full event queue full)) (run_queue-IsServed ops queue received)
      ]
  run_queue-IsServed (taken ∷ ops) [] received =
      idle-IsServed (receipts ops) received _ (run_queue-IsServed ops [] received)
  run_queue-IsServed (taken ∷ ops) (event ∷ queue) received =
      taken-IsServed (receipts ops) queue received _ event
        (run_queue-IsServed ops queue (received ++ event ∷ []))
