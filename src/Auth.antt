-- ===== src/Auth.antt =====
-- internal/middleware/auth_middleware.go. The jwt package is a parameter: how it signs claims, and
-- what it reads from a token with the options that the middleware gives it.
mod Tests
pub mod Access
pub mod OneToken
use tao_core_go.Prelude.{
  ℕ, ◌+◌, Text, Bool, true, false, not, ◌&&◌, ◌||◌, Option, none, some, List, [], ◌∷◌, ltb, eqb,
  any, codes, ◌==◌, text_eq_instance, if◌then◌else◌,
}
use tao_core_go.Prelude.Int.{ℤ, pos, negsuc}
use tao_core_go.Text.{trim_space, is_empty, len}

pub record JwtConfig : Type 0 where
  pub secret : Text
  pub issuer : Text
  pub audience : Text

abbrev pub min_jwt_secret_length : ℕ
min_jwt_secret_length = 32

-- `ValidateJWTSecret`, true where there is no error
unfoldable pub validate_jwt_secret : Text → Bool
unfolding trim_space len
validate_jwt_secret secret =
    not (not (secret == trim_space secret) || ltb (len secret) min_jwt_secret_length)

-- `ValidateJWTConfig`
unfoldable pub validate_jwt_config : JwtConfig → Bool
unfolding validate_jwt_secret
validate_jwt_config config =
    validate_jwt_secret config.secret
    && not (
        is_empty (trim_space config.issuer)
        || is_empty (trim_space config.audience)
        || not (config.issuer == trim_space config.issuer)
        || not (config.audience == trim_space config.audience))

-- `Claims`, with the registered claims that the code sets or reads
pub record Claims : Type 0 where
  pub user_id : Text
  pub roles : List Text
  pub expires_at : Option ℕ
  pub issued_at : Option ℕ
  pub issuer : Text
  pub audience : List Text

-- The jwt package with HS256: signing, and `ParseWithClaims` with its options at a time. It gives
-- the claims of a token that it accepts.
pub record Jwt : Type 0 where
  -- jwt.NewNumericDate
  pub numeric_date : ℕ → ℕ
  pub sign : Text → Claims → Option Text
  pub parse : (secret issuer audience : Text) (now : ℕ) → Text → Option Claims

-- The test of a user identifier.
unfoldable pub bad_user_id : Text → Bool
unfolding len
bad_user_id user_id = is_empty (trim_space user_id) || ltb 255 (len user_id)

-- `GenerateJWT`; the two readings of the clock are the arguments before the last.
unfoldable pub generate_jwt : Jwt → Text → List Text → JwtConfig → ℕ → ℕ → ℤ → Option Text
unfolding validate_jwt_config bad_user_id
generate_jwt jwt user_id roles config now later (negsuc n) = none
generate_jwt jwt user_id roles config now later (pos duration) =
    if not (validate_jwt_config config) || bad_user_id user_id || eqb duration 0
    then none
    else jwt.sign config.secret (record {
      user_id = user_id;
      roles = roles;
      expires_at = some (jwt.numeric_date (now + duration));
      issued_at = some (jwt.numeric_date later);
      issuer = config.issuer;
      audience = config.audience ∷ [];
    })

-- What the middleware keeps in the gin context.
pub record Identity : Type 0 where
  pub user_id : Text
  pub user_roles : List Text

-- A request goes on, or ends with a status code.
pub data Answer (A : Type 0) : Type 0 where
  next : A → Answer A
  aborted : ℕ → Answer A

-- strings.SplitN(header, " ", 2): the parts before and after the first space
unfoldable pub split_two : Text → Option (Text × Text)
split_two [] = none
split_two (c ∷ s) =
    let rest = split_two s in
    if eqb c 32 then some ([], s) else elim rest [ none ↦ none | some (a, b) ↦ some (c ∷ a, b) ]

unfoldable pub check_claims : Claims → Answer Identity
unfolding bad_user_id
check_claims claims = if bad_user_id claims.user_id then aborted 401 else elim claims.issued_at [
  | none ↦ aborted 401
  | some t ↦ next (record { user_id = claims.user_id; user_roles = claims.roles })
]

-- `JWTAuthMiddleware`
unfoldable pub jwt_auth_middleware : Jwt → JwtConfig → ℕ → Text → Answer Identity
unfolding validate_jwt_config split_two check_claims
jwt_auth_middleware jwt config now auth_header =
    if not (validate_jwt_config config)
    then aborted 500
    else if is_empty auth_header
    then aborted 401
    else elim (split_two auth_header) [
      | none ↦ aborted 401
      | some (scheme, token) ↦
          if scheme == codes "Bearer"
          then elim (jwt.parse config.secret config.issuer config.audience now token) [
            | none ↦ aborted 401
            | some claims ↦ check_claims claims
          ]
          else aborted 401
    ]

-- `RequireRole`; `none` where no identity was set.
unfoldable pub require_role : Text → Option Identity → Answer Identity
require_role required_role none = aborted 403
require_role required_role (some identity) =
    if any (λ role. role == required_role) identity.user_roles then next identity else aborted 403

-- The handlers after an aborted one do not run.
abbrev pub and_then : {A B : Type 0} → Answer A → (A → Answer B) → Answer B
and_then (next a) f = f a
and_then (aborted status) f = aborted status

-- The chain `auth, admin` of the routes for administrators.
unfoldable pub admin_chain : Jwt → JwtConfig → ℕ → Text → Answer Identity
admin_chain jwt config now auth_header =
    and_then (jwt_auth_middleware jwt config now auth_header)
      (λ identity. require_role (codes "ADMIN") (some identity))
