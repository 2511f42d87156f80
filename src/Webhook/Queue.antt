-- ===== src/Webhook/Queue.antt =====
-- The queue of events: `Dispatch`, and the loop of a worker that takes the oldest event.
pub mod Order
pub mod Served
use tao_core_go.Prelude.{
  ℕ, ◌&&◌, not, Bool, Option, none, some, List, [], ◌∷◌, ◌++◌, length, ltb, eqb, ◌||◌,
  if◌then◌else◌,
}

abbrev pub capacity : ℕ
capacity = 100

-- The size of the pool, 5 where the setting is out of range
unfoldable pub worker_pool_size : ℕ → ℕ
worker_pool_size n = if eqb n 0 || ltb 100 n then 5 else n

module _ {E : Type 0} where
  -- `Dispatch`: an event is dropped where the queue is full.
  unfoldable pub dispatch : E → List E → List E
  dispatch event queue = if ltb (length queue) capacity then queue ++ event ∷ [] else queue

  -- `for event := range s.eventChan`: none where the worker waits
  unfoldable pub receive : List E → Option E × List E
  receive [] = (none, [])
  receive (event ∷ queue) = (some event, queue)

-- What happens to the queue: an event is dispatched, or a worker asks for one.
pub data Op (E : Type 0) : Type 0 where
  sent : E → Op E
  taken : Op E

module _ {E : Type 0} where
  abbrev pub add_received : Option E → List E → List E
  add_received none received = received
  add_received (some event) received = received ++ event ∷ []

  -- The queue after the operations, and what the workers have received in order
  unfoldable pub run_queue : List (Op E) → List E → List E → List E × List E
  run_queue [] queue received = (queue, received)
  run_queue (sent event ∷ ops) queue received = run_queue ops (dispatch event queue) received
  run_queue (taken ∷ ops) queue received =
      let (event, queue') = receive queue in run_queue ops queue' (add_received event received)
