-- ===== src/Handlers/Lti.antt =====
-- internal/handler/lti_handler.go: the two steps of an LTI launch. Reading the parameters of a
-- request is net/http's and gin's; the constant fields of the answers are left out.
pub mod Grants
use tao_core_go.Prelude.{
  ℕ, Text, Bool, ◌&&◌, ◌||◌, not, Option, none, some, List, [], ◌∷◌, codes, if◌then◌else◌,
}
use tao_core_go.Prelude.Int.{ℤ}
use tao_core_go.Text.{is_empty}
use tao_core_go.Float.{Float64}
use tao_core_go.Models.{TestSession}
use tao_core_go.Auth.{JwtConfig, Jwt, generate_jwt}
use tao_core_go.Store.{
  World, Result, ok, err, Error, delivery_forbidden, delivery_closed, max_attempts,
  platform_not_found, invalid_lti_state, invalid_lti_token, invalid_lti_request,
  resource_link_missing,
}
use tao_core_go.Lti.{Lib}
use tao_core_go.Lti.Keys.{Cache}
use tao_core_go.Lti.Login
use tao_core_go.Lti.Login.{LoginEnv}
use tao_core_go.Lti.Launch
use tao_core_go.Lti.Launch.{LaunchEnv}
use tao_core_go.Handlers.{Reply, json, error}

-- What ParseForm gives of a body under the limit
pub data Form : Type 0 where
  parsed too_large malformed : Form

-- A request, with its parameters, which are empty where they are missing
pub record LtiRequest : Type 0 where
  pub is_post : Bool
  pub query : Text → Text
  pub form : Form
  pub post_form : Text → Text

-- `parseLTIForm`: the status of the error, if there is one
unfoldable pub parse_lti_form : Form → Option ℕ
parse_lti_form parsed = none
parse_lti_form too_large = some 413
parse_lti_form malformed = some 400

unfoldable pub login_error_status : Error → ℕ
login_error_status platform_not_found = 400
login_error_status invalid_lti_request = 400
login_error_status _ = 500

abbrev pub login_reply : Result Text → Reply Text
login_reply (ok url) = json 302 url
login_reply (err e) = error (login_error_status e)

unfoldable pub launch_error_status : Error → ℕ
launch_error_status invalid_lti_state = 401
launch_error_status invalid_lti_token = 401
launch_error_status platform_not_found = 401
launch_error_status resource_link_missing = 403
launch_error_status delivery_forbidden = 403
launch_error_status delivery_closed = 409
launch_error_status max_attempts = 409
launch_error_status _ = 500

-- The session of a launch, and the token for it
pub record Grant (F : Type 0) : Type 0 where
  pub session : TestSession F
  pub access_token : Text

-- `LTIHandler`, with the clock readings of the token
pub record LtiHandler : Type 0 where
  pub jwt : Jwt
  pub jwt_config : JwtConfig
  pub token_ttl : ℤ
  pub expiry_from : ℕ
  pub issued_at : ℕ

abbrev pub students : List Text
students = codes "STUDENT" ∷ []

abbrev pub token_reply : {F : Type 0} → TestSession F → Option Text → Reply (Grant F)
token_reply session none = error 500
token_reply session (some token) = json 200 (record { session = session; access_token = token })

abbrev pub token_for : LtiHandler → Text → Option Text
token_for h user_id =
    generate_jwt h.jwt user_id students h.jwt_config h.expiry_from h.issued_at h.token_ttl

abbrev pub launch_reply : {F : Type 0} → LtiHandler → Result (TestSession F) → Reply (Grant F)
launch_reply h (err e) = error (launch_error_status e)
launch_reply h (ok session) = token_reply session (token_for h session.user_id)

module _ {F : Type 0} ⦃float : Float64 F⦄ (lib : Lib) where
  -- `InitiateLogin`, after the form is read; a redirect is a reply with its URL.
  abbrev pub login_with : LoginEnv → (Text → Text) → World F → Reply Text × World F
  login_with env param w =
      if is_empty (param (codes "iss")) || is_empty (param (codes "client_id"))
      then (error 400, w)
      else (let (r, w') =
            Login.initiate_login lib env (param (codes "iss")) (param (codes "client_id"))
              (param (codes "target_link_uri")) (param (codes "login_hint"))
              (param (codes "lti_message_hint")) w in
          (login_reply r, w'))

  abbrev pub login_after : LoginEnv → LtiRequest → Option ℕ → World F → Reply Text × World F
  login_after env req (some status) w = (error status, w)
  login_after env req none w =
      login_with env (if is_empty (req.query (codes "iss")) then req.post_form else req.query) w

  -- `InitiateLogin`
  unfoldable pub handle_login_request : LoginEnv → LtiRequest → World F → Reply Text × World F
  unfolding parse_lti_form
  handle_login_request env req w =
      login_after env req (if req.is_post then parse_lti_form req.form else none) w

  abbrev pub launch_after :
      LtiHandler
      → LaunchEnv
      → Cache
      → LtiRequest
      → Option ℕ
      → World F
      → (Reply (Grant F) × World F) × Cache
  launch_after h env cache req (some status) w = ((error status, w), cache)
  launch_after h env cache req none w =
      if is_empty (req.post_form (codes "id_token")) || is_empty (req.post_form (codes "state"))
      then ((error 400, w), cache)
      else (let x =
            Launch.handle_launch lib env cache (req.post_form (codes "id_token"))
              (req.post_form (codes "state")) w in
          ((launch_reply h x.0.0, x.0.1), x.1))

  -- `HandleLaunch`
  unfoldable pub handle_launch_request :
      LtiHandler → LaunchEnv → Cache → LtiRequest → World F → (Reply (Grant F) × World F) × Cache
  unfolding parse_lti_form
  handle_launch_request h env cache req w = launch_after h env cache req (parse_lti_form req.form) w
