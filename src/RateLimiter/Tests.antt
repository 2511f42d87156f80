-- ===== src/RateLimiter/Tests.antt =====
-- A limiter of two requests a second at work.
use tao_core_go.Prelude.{◌≤◌, List, [], ◌∷◌, refl, arith, codes, count-le-length, text_eq, find}
use tao_core_go.Prelude.Int.{pos}
use tao_core_go.RateLimiter.{
  ClientVisitor, RateLimiter, Event, request, tick, run, passed_in, visitor_of,
}
use tao_core_go.RateLimiter.Clients.{IsBounded, run-IsBounded}
use tao_core_go.RateLimiter.Bound.{IsTracked, passed_in-bound}

abbrev seen : ClientVisitor
seen = record { client_ip = codes "10.0.0.1"; last_seen = 100; count = 1 }

abbrev limiter : RateLimiter
limiter = record { visitors = seen ∷ []; limit = pos 2; window = pos 1_000 }

abbrev events : List Event
events =
    request (codes "10.0.0.1") 200 0
    ∷ request (codes "10.0.0.2") 300 0
    ∷ tick 400
    ∷ request (codes "10.0.0.1") 500 0
    ∷ []

limiter-IsBounded : IsBounded limiter
limiter-IsBounded = record { one_entry = λ i. count-le-length _ (seen ∷ []); bounded = omega arith }

run-IsBounded_example : IsBounded (run events limiter)
run-IsBounded_example = run-IsBounded events limiter limiter-IsBounded

limiter-IsTracked : IsTracked (codes "10.0.0.1") 1 100 limiter
unfolding visitor_of find text_eq
limiter-IsTracked = record { entry = seen; listed = refl; counted = refl; since = refl }

passed_in-bound_example : passed_in (codes "10.0.0.1") events limiter ≤ 1
passed_in-bound_example =
    passed_in-bound (codes "10.0.0.1") 100 1 events limiter limiter-IsTracked
      (refl, (refl, (refl, (refl, tt)))) (omega arith)
