-- ===== src/RateLimiter.antt =====
-- internal/middleware/rate_limit.go: a window of requests for each client address, and at most
-- `max_tracked_rate_limit_clients` clients in memory.
pub mod Clients
pub mod Bound
mod Tests
use tao_core_go.Prelude.{
  ℕ, zero, suc, ◌+◌, ◌%◌, Text, Bool, true, false, not, ◌&&◌, Option, none, some, List, [], ◌∷◌,
  length, ltb, leb, ◌==◌, text_eq_instance, if◌then◌else◌, find, filter, update_where,
}
use tao_core_go.Prelude.Int.{ℤ, pos, sub_ℕ, ltb_ℤ}

-- `clientVisitor`, with its key in the map
pub record ClientVisitor : Type 0 where
  pub client_ip : Text
  pub last_seen : ℕ
  pub count : ℕ

-- `visitors` is the map as a list of its entries.
pub record RateLimiter : Type 0 where
  pub visitors : List ClientVisitor
  pub limit : ℤ
  pub window : ℤ

abbrev pub max_tracked_rate_limit_clients : ℕ
max_tracked_rate_limit_clients = 10000

-- now.Sub(v.lastSeen) > rl.window
unfoldable pub is_past : ℤ → ℕ → ClientVisitor → Bool
is_past window now v = ltb_ℤ window (sub_ℕ now v.last_seen)

unfoldable pub visitor_of : Text → List ClientVisitor → Option ClientVisitor
visitor_of client_ip visitors = find (λ v. v.client_ip == client_ip) visitors

-- An entry is deleted; the iteration over the map yields the one at `pick`, modulo their number.
unfoldable pub delete_at : ℕ → List ClientVisitor → List ClientVisitor
delete_at i [] = []
delete_at zero (v ∷ vs) = vs
delete_at (suc i) (v ∷ vs) = v ∷ delete_at i vs

unfoldable pub evict : ℕ → List ClientVisitor → List ClientVisitor
unfolding delete_at
evict pick visitors = delete_at (pick % length visitors) visitors

pub data Verdict : Type 0 where
  -- `c.Next()`
  passed : Verdict
  -- 429 Too Many Requests
  too_many : Verdict

abbrev pub fresh_visitor : Text → ℕ → ClientVisitor
fresh_visitor client_ip now = record { client_ip = client_ip; last_seen = now; count = 1 }

-- A client without an entry.
unfoldable pub admit_new : Text → ℕ → ℕ → RateLimiter → RateLimiter
unfolding evict
admit_new client_ip now pick rl =
    let room =
      if leb max_tracked_rate_limit_clients (length rl.visitors)
      then evict pick rl.visitors
      else rl.visitors in
    record rl { visitors = fresh_visitor client_ip now ∷ room }

-- A client with an entry whose window is over.
unfoldable pub restart : Text → ℕ → RateLimiter → RateLimiter
restart client_ip now rl = record rl {
  visitors =
      update_where (λ v. v.client_ip == client_ip) (λ _. fresh_visitor client_ip now) rl.visitors;
}

-- v.count++
unfoldable pub count_request : Text → RateLimiter → RateLimiter
count_request client_ip rl = record rl {
  visitors =
      update_where (λ v. v.client_ip == client_ip) (λ v. record v { count = v.count + 1 })
        rl.visitors;
}

-- One request: the verdict and the limiter after it.
unfoldable pub handle : Text → ℕ → ℕ → RateLimiter → Verdict × RateLimiter
unfolding visitor_of is_past admit_new restart count_request
handle client_ip now pick rl = elim (visitor_of client_ip rl.visitors) [
  | none ↦ (passed, admit_new client_ip now pick rl)
  | some v ↦ if is_past rl.window now v then (passed, restart client_ip now rl) else (
    if ltb_ℤ rl.limit (pos (v.count + 1)) then too_many else passed,
    count_request client_ip rl,
  )
]

-- The cleanup that runs every minute.
unfoldable pub cleanup : ℕ → RateLimiter → RateLimiter
unfolding is_past
cleanup now rl = record rl { visitors = filter (λ v. not (is_past rl.window now v)) rl.visitors }

-- What can happen to a limiter; the mutex makes each of them one step.
pub data Event : Type 0 where
  request : Text → ℕ → ℕ → Event
  tick : ℕ → Event

unfoldable pub step : Event → RateLimiter → RateLimiter
unfolding handle cleanup
step (request client_ip now pick) rl = (handle client_ip now pick rl).1
step (tick now) rl = cleanup now rl

abbrev pub one_if_passed : Verdict → ℕ
one_if_passed passed = 1
one_if_passed too_many = 0

-- How many requests of a client pass in a run.
unfoldable pub count_passed : Text → Event → RateLimiter → ℕ
unfolding handle
count_passed ip (request client_ip now pick) rl =
    if client_ip == ip then one_if_passed (handle client_ip now pick rl).0 else 0
count_passed ip (tick now) rl = 0

unfoldable pub run : List Event → RateLimiter → RateLimiter
unfolding step
run [] rl = rl
run (e ∷ es) rl = run es (step e rl)

unfoldable pub passed_in : Text → List Event → RateLimiter → ℕ
unfolding count_passed step
passed_in ip [] rl = 0
passed_in ip (e ∷ es) rl = count_passed ip e rl + passed_in ip es (step e rl)
