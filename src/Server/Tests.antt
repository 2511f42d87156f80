-- ===== src/Server/Tests.antt =====
-- An administrator at the route of the webhook logs.
use tao_core_go.Prelude.{true, none, some, [], ◌∷◌, ◌≡◌, refl, inl, inr, any, text_eq, codes}
use tao_core_go.Prelude.Rows.{In}
use tao_core_go.Auth.{JwtConfig, Claims, Jwt, Identity, next, jwt_auth_middleware, require_role}
use tao_core_go.Server.{get, auth, admin, webhook_logs, Route, routes, run_chain}
use tao_core_go.Server.Access.{administrators, MayReach, routes-MayReach}

abbrev config : JwtConfig
config = record {
  secret = codes "0123456789abcdef0123456789abcdef";
  issuer = codes "tao";
  audience = codes "api";
}

abbrev ann_claims : Claims
ann_claims = record {
  user_id = codes "ann";
  roles = codes "ADMIN" ∷ [];
  expires_at = some 105;
  issued_at = some 5;
  issuer = codes "tao";
  audience = codes "api" ∷ [];
}

abbrev jwt : Jwt
jwt = record {
  numeric_date = λ t. t;
  sign = λ secret claims. some (codes "t");
  parse = λ secret issuer audience now token. some ann_claims;
}

abbrev ann : Identity
ann = record { user_id = codes "ann"; user_roles = codes "ADMIN" ∷ [] }

abbrev logs_route : Route
logs_route = record {
  method = get;
  path = codes "/api/v1/webhooks/logs";
  chain = auth ∷ admin ∷ [];
  endpoint = webhook_logs;
}

listed : In logs_route routes
unfolding routes
listed =
    inr
      (inr (inr (inr (inr (inr (inr (inr (inr (inr (inr (inr (inr (inr (inr (inl refl)))))))))))))))

passes : run_chain jwt config 50 (codes "Bearer t") true logs_route.chain none ≡ next (some ann)
unfolding run_chain jwt_auth_middleware require_role any text_eq
passes = refl

routes-MayReach_example : MayReach jwt config 50 (codes "Bearer t") true administrators (some ann)
routes-MayReach_example =
    routes-MayReach jwt config 50 (codes "Bearer t") true logs_route (some ann) listed passes
