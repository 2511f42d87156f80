-- ===== src/Webhook/Queue/Order.antt =====
-- The queue against an unbounded one.
use mathlib.Core.List.{append_assoc, append-nil}
use mathlib.Core.Path.{subst}
use tao_core_go.Prelude.{
  ◌+◌, ◌≤◌, ◌<◌, ◌⊎◌, true, false, List, [], ◌∷◌, ◌++◌, ◌≡◌, refl, sym, ap, ◌∙◌, inl, inr, arith,
  length, length-append, ltb, Bool-cases,
}
use tao_core_go.Webhook.Queue.{capacity, dispatch, receive, Op, sent, taken, run_queue}

-- The events that are dispatched
unfoldable pub all_sent : {E : Type 0} → List (Op E) → List E
all_sent [] = []
all_sent (sent event ∷ ops) = event ∷ all_sent ops
all_sent (taken ∷ ops) = all_sent ops

-- `xs` is `ys` with some entries left out.
pub data Sub {E : Type 0} : List E → List E → Type 0 where
  done : Sub [] []
  keep : {x : E} {xs ys : List E} → Sub xs ys → Sub (x ∷ xs) (x ∷ ys)
  drop : {y : E} {xs ys : List E} → Sub xs ys → Sub xs (y ∷ ys)

module _ {E : Type 0} where
  Sub-refl : (xs : List E) → Sub xs xs
  Sub-refl [] = done
  Sub-refl (x ∷ xs) = keep (Sub-refl xs)

  -- One entry more in the longer list
  Sub-insert :
      (ys : List E) {xs : List E} (y : E) (zs : List E) → Sub xs (ys ++ zs) → Sub xs (ys ++ y ∷ zs)
  Sub-insert [] y zs s = drop s
  Sub-insert (z ∷ ys) y zs (keep s) = keep (Sub-insert ys y zs s)
  Sub-insert (z ∷ ys) y zs (drop s) = drop (Sub-insert ys y zs s)

  -- The events that were accepted, in order: those received and then those that wait
  abbrev accepted : List E × List E → List E
  accepted (queue, received) = received ++ queue

  pub dispatch_room :
      (event : E) (queue : List E)
      → ltb (length queue) capacity ≡ true
      → dispatch event queue ≡ queue ++ event ∷ []
  unfolding dispatch
  dispatch_room event queue room = rw room refl

  pub dispatch_full :
      (event : E) (queue : List E)
      → ltb (length queue) capacity ≡ false
      → dispatch event queue ≡ queue
  unfolding dispatch
  dispatch_full event queue full = rw full refl

  push_assoc :
      (received queue : List E) (event : E) (rest : List E)
      → (received ++ (queue ++ event ∷ [])) ++ rest ≡ (received ++ queue) ++ event ∷ rest
  push_assoc received queue event rest = simp append_assoc

  pub shift_assoc :
      (received queue : List E) (event : E)
      → (received ++ event ∷ []) ++ queue ≡ received ++ event ∷ queue
  shift_assoc received queue event = simp append_assoc

  run-Sub :
      (ops : List (Op E)) (queue received : List E)
      → Sub (accepted (run_queue ops queue received)) ((received ++ queue) ++ all_sent ops)
  unfolding run_queue all_sent receive
  run-Sub [] queue received = rw append-nil (Sub-refl (received ++ queue))
  run-Sub (sent event ∷ ops) queue received = elim (Bool-cases (ltb (length queue) capacity)) [
    | inl room ↦
        subst
          (λ q.
            Sub (accepted (run_queue ops q received)) ((received ++ queue) ++ event ∷ all_sent ops))
          (sym (dispatch_room event queue room))
          (subst (Sub (accepted (run_queue ops (queue ++ event ∷ []) received)))
            (push_assoc received queue event (all_sent ops))
            (run-Sub ops (queue ++ event ∷ []) received))
    | inr full ↦
        subst
          (λ q.
            Sub (accepted (run_queue ops q received)) ((received ++ queue) ++ event ∷ all_sent ops))
          (sym (dispatch_full event queue full))
          (Sub-insert (received ++ queue) event (all_sent ops) (run-Sub ops queue received))
  ]
  run-Sub (taken ∷ ops) [] received = run-Sub ops [] received
  run-Sub (taken ∷ ops) (event ∷ queue) received =
      subst
        (λ xs. Sub (accepted (run_queue ops queue (received ++ event ∷ []))) (xs ++ all_sent ops))
        (shift_assoc received queue event) (run-Sub ops queue (received ++ event ∷ []))

  run-bounded :
      (ops : List (Op E)) (queue received : List E)
      → length queue ≤ capacity
      → length (run_queue ops queue received).0 ≤ capacity
  unfolding run_queue receive
  run-bounded [] queue received h = h
  run-bounded (sent event ∷ ops) queue received h =
      elim (Bool-cases (ltb (length queue) capacity)) [
        | inl room ↦
            subst (λ q. length (run_queue ops q received).0 ≤ capacity)
              (sym (dispatch_room event queue room))
              (run-bounded ops (queue ++ event ∷ []) received
                (ground (arith, length-append queue (event ∷ []))))
        | inr full ↦
            subst (λ q. length (run_queue ops q received).0 ≤ capacity)
              (sym (dispatch_full event queue full)) (run-bounded ops queue received h)
      ]
  run-bounded (taken ∷ ops) [] received h = run-bounded ops [] received h
  run-bounded (taken ∷ ops) (event ∷ queue) received h =
      run-bounded ops queue (received ++ event ∷ []) (omega arith)

  run-lossless :
      (ops : List (Op E)) (queue received : List E)
      → length queue + length (all_sent ops) ≤ capacity
      → accepted (run_queue ops queue received) ≡ (received ++ queue) ++ all_sent ops
  unfolding run_queue all_sent receive
  run-lossless [] queue received h = sym (append-nil (received ++ queue))
  run-lossless (sent event ∷ ops) queue received h =
      let room : ltb (length queue) capacity ≡ true = ground arith in
      subst (λ q. accepted (run_queue ops q received) ≡ (received ++ queue) ++ event ∷ all_sent ops)
        (sym (dispatch_room event queue room))
        (run-lossless ops (queue ++ event ∷ []) received
            (omega (arith, length-append queue (event ∷ [])))
          ∙ push_assoc received queue event (all_sent ops))
  run-lossless (taken ∷ ops) [] received h = run-lossless ops [] received h
  run-lossless (taken ∷ ops) (event ∷ queue) received h =
      run-lossless ops queue (received ++ event ∷ []) (omega arith)
      ∙ ap (λ xs. xs ++ all_sent ops) (shift_assoc received queue event)

-- What the workers have received, and then what waits, against what was dispatched
pub record IsFifo {E : Type 0} (ops : List (Op E)) : Type 0 where
  pub bounded : length (run_queue ops [] []).0 ≤ capacity
  pub in_order : Sub ((run_queue ops [] []).1 ++ (run_queue ops [] []).0) (all_sent ops)
  pub lossless :
      ((run_queue ops [] []).1 ++ (run_queue ops [] []).0 ≡ all_sent ops)
      ⊎ (capacity < length (all_sent ops))

-- However dispatches and receipts are interleaved, the queue of events that starts empty never
-- holds more than 100, the events received and then those waiting are events dispatched, in the
-- order of dispatch, and they are all of them where no more than 100 are dispatched.
pub run_queue-IsFifo : {E : Type 0} (ops : List (Op E)) → IsFifo ops
run_queue-IsFifo ops = record {
  bounded = run-bounded ops [] [] (omega arith);
  in_order = run-Sub ops [] [];
  lossless = elim (Bool-cases (ltb capacity (length (all_sent ops)))) [
    | inl many ↦ inr (ground arith)
    | inr few ↦ inl (run-lossless ops [] [] (ground arith))
  ];
}
