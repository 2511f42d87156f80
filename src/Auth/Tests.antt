-- ===== src/Auth/Tests.antt =====
-- Tokens at work, with a package that signs by writing the claims into the token.
use tao_core_go.Prelude.{
  true, some, [], ◌∷◌, ◌≡◌, ◌↔◌, refl, arith, any, codes, ◌==◌, text_eq_instance, text_eq,
}
use tao_core_go.Prelude.Int.{pos}
use tao_core_go.Auth.{
  JwtConfig, Claims, Jwt, Identity, next, generate_jwt, jwt_auth_middleware, admin_chain,
}
use tao_core_go.Auth.OneToken
use tao_core_go.Auth.OneToken.{signer-JwtLaws}
use tao_core_go.Auth.Access.{
  IsAuthenticated, jwt_auth_middleware-IsAuthenticated, admin_chain_iff,
  jwt_auth_middleware-generate_jwt,
}

abbrev config : JwtConfig
config = record {
  secret = codes "0123456789abcdef0123456789abcdef";
  issuer = codes "tao";
  audience = codes "api";
}

-- Every token carries the claims of one user, issued at 5 and good until 105.
abbrev one_claims : Claims
one_claims = record {
  user_id = codes "ann";
  roles = codes "ADMIN" ∷ [];
  expires_at = some 105;
  issued_at = some 5;
  issuer = codes "tao";
  audience = codes "api" ∷ [];
}

abbrev one_user : Jwt
one_user = record {
  numeric_date = λ t. t;
  sign = λ secret claims. some (codes "t");
  parse = λ secret issuer audience now token. some one_claims;
}

abbrev ann : Identity
ann = record { user_id = codes "ann"; user_roles = codes "ADMIN" ∷ [] }

jwt_auth_middleware-IsAuthenticated_example :
    (jwt_auth_middleware one_user config 50 (codes "Bearer t") ≡ next ann)
    ↔ IsAuthenticated one_user config 50 (codes "Bearer t") ann
jwt_auth_middleware-IsAuthenticated_example =
    jwt_auth_middleware-IsAuthenticated one_user config 50 (codes "Bearer t") ann

admin_chain_iff_example : (admin_chain one_user config 50 (codes "Bearer t") ≡ next ann) ↔ (
    IsAuthenticated one_user config 50 (codes "Bearer t") ann
    × (any (λ r. r == codes "ADMIN") ann.user_roles ≡ true))
admin_chain_iff_example = admin_chain_iff one_user config 50 (codes "Bearer t") ann

abbrev signer : Jwt
signer = OneToken.signer (codes "ann") (codes "ADMIN") (codes "tao") (codes "api") 105 5

signed_one :
    generate_jwt signer (codes "ann") (codes "ADMIN" ∷ []) config 5 5 (pos 100) ≡ some (codes "t")
unfolding generate_jwt text_eq
signed_one = refl

jwt_auth_middleware-generate_jwt_example :
    jwt_auth_middleware signer config 50 (codes "Bearer t") ≡ next ann
jwt_auth_middleware-generate_jwt_example =
    jwt_auth_middleware-generate_jwt signer
      (signer-JwtLaws (codes "ann") (codes "ADMIN") (codes "tao") (codes "api") 105 5) (codes "ann")
      (codes "ADMIN" ∷ []) config 5 5 100 (codes "t") 50 signed_one (omega arith) (omega arith)
