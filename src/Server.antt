-- ===== src/Server.antt =====
-- cmd/server/main.go: the routes of the API and the middlewares in front of each.
pub mod Access
mod Tests
use tao_core_go.Prelude.{ℕ, Text, Bool, Option, none, some, List, [], ◌∷◌, codes, if◌then◌else◌}
use tao_core_go.Auth.{
  JwtConfig, Jwt, Identity, Answer, next, aborted, and_then, jwt_auth_middleware, require_role,
}

-- `JWTAuthMiddleware`, `RequireRole("ADMIN")` and the middleware of the rate limiter
pub data Middleware : Type 0 where
  auth admin limited : Middleware

pub data Method : Type 0 where
  get head post : Method

-- The handlers, by what they do
pub data Endpoint : Type 0 where
  uploads metrics : Endpoint
  start_session get_session save_response submit_session record_event : Endpoint
  proctor_log proctor_analytics results_csv import_qti : Endpoint
  register_platform register_resource_link register_webhook webhook_logs : Endpoint
  initiate_login handle_launch : Endpoint

pub record Route : Type 0 where
  pub method : Method
  pub path : Text
  pub chain : List Middleware
  pub endpoint : Endpoint

abbrev at : Method → Text → List Middleware → Endpoint → Route
at method path chain endpoint = record {
  method = method;
  path = path;
  chain = chain;
  endpoint = endpoint;
}

abbrev authenticated : List Middleware
authenticated = auth ∷ []

abbrev admin_api : List Middleware
admin_api = auth ∷ admin ∷ []

abbrev lti : List Middleware
lti = limited ∷ []

-- `registerProtectedRoutes`: the groups with their middlewares, in the order of registration
unfoldable pub routes : List Route
routes =
    at get (codes "/uploads/*filepath") authenticated uploads
    ∷ at head (codes "/uploads/*filepath") authenticated uploads
    ∷ at get (codes "/metrics") admin_api metrics
    ∷ at post (codes "/api/v1/sessions/start") authenticated start_session
    ∷ at get (codes "/api/v1/sessions/:id") authenticated get_session
    ∷ at post (codes "/api/v1/sessions/:id/response") (auth ∷ limited ∷ []) save_response
    ∷ at post (codes "/api/v1/sessions/:id/submit") authenticated submit_session
    ∷ at post (codes "/api/v1/sessions/:id/proctor/event") authenticated record_event
    ∷ at get (codes "/api/v1/sessions/:id/proctor/log") admin_api proctor_log
    ∷ at get (codes "/api/v1/sessions/:id/proctor/analytics") admin_api proctor_analytics
    ∷ at get (codes "/api/v1/deliveries/:id/results/csv") admin_api results_csv
    ∷ at post (codes "/api/v1/items/import-qti") admin_api import_qti
    ∷ at post (codes "/api/v1/lti/platforms") admin_api register_platform
    ∷ at post (codes "/api/v1/lti/resource-links") admin_api register_resource_link
    ∷ at post (codes "/api/v1/webhooks/configs") admin_api register_webhook
    ∷ at get (codes "/api/v1/webhooks/logs") admin_api webhook_logs
    ∷ at get (codes "/api/v1/lti/login") lti initiate_login
    ∷ at post (codes "/api/v1/lti/login") lti initiate_login
    ∷ at post (codes "/api/v1/lti/launch") lti handle_launch
    ∷ []

module _ (jwt : Jwt) (config : JwtConfig) (now : ℕ) (auth_header : Text) (allowed : Bool) where
  -- The middlewares in order, with the identity that is set so far; `allowed` is the answer of the
  -- rate limiter.
  unfoldable pub run_chain : List Middleware → Option Identity → Answer (Option Identity)
  run_chain [] identity = next identity
  run_chain (auth ∷ chain) identity =
      and_then (jwt_auth_middleware jwt config now auth_header)
        (λ known. run_chain chain (some known))
  run_chain (admin ∷ chain) identity =
      and_then (require_role (codes "ADMIN") identity) (λ known. run_chain chain (some known))
  run_chain (limited ∷ chain) identity =
      let rest = run_chain chain identity in if allowed then rest else aborted 429
