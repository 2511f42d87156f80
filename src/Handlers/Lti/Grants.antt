-- ===== src/Handlers/Lti/Grants.antt =====
-- What the token of a launch is worth.
use mathlib.Core.Path.{subst}
use tao_core_go.Prelude.{
  ℕ, ◌+◌, ◌≤◌, ◌<◌, Text, ◌||◌, Option, none, some, ◌++◌, ◌≡◌, inl, inr, refl, ap, any, text_eq,
  codes, Bool-cases,
}
use tao_core_go.Prelude.Int.{pos}
use tao_core_go.Text.{is_empty}
use tao_core_go.Float.{Float64}
use tao_core_go.Models.{TestSession}
use tao_core_go.Auth.{next, aborted, jwt_auth_middleware, require_role, admin_chain}
use tao_core_go.Auth.Access.{JwtLaws, jwt_auth_middleware-generate_jwt}
use tao_core_go.Store.{World, Result, ok, err}
use tao_core_go.Lti.{Lib}
use tao_core_go.Lti.Keys.{Cache}
use tao_core_go.Lti.Launch.{LaunchEnv, handle_launch}
use tao_core_go.Lti.Launch.States.{HasUniqueStates}
use tao_core_go.Lti.Launch.Verified.{IsVerified, IsUsedUp}
use tao_core_go.Lti.Launch.Stages.{handle_launch-Effect}
use tao_core_go.Handlers.{json}
use tao_core_go.Handlers.Lti.{
  LtiRequest, LtiHandler, Grant, students, parse_lti_form, token_for, token_reply, launch_reply,
  launch_after, handle_launch_request,
}

module _ {F : Type 0} ⦃float : Float64 F⦄ (lib : Lib) (h : LtiHandler) (env : LaunchEnv)
    (cache : Cache) (req : LtiRequest) (w : World F) (grant : Grant F) where
  abbrev id_token : Text
  id_token = req.post_form (codes "id_token")

  abbrev state : Text
  state = req.post_form (codes "state")

  -- A launch that is verified and uses its state up, and a token for the user of its session
  pub record IsGranted (w' : World F) : Type 0 where
    pub verified : IsVerified lib env cache id_token state w.db
    pub used_up : IsUsedUp env.now state w.db w'.db
    pub issued : token_for h grant.session.user_id ≡ some grant.access_token

  token_pass :
      (session : TestSession F) (token : Option Text)
      → token_reply session token ≡ json 200 grant
      → (session ≡ grant.session) × (token ≡ some grant.access_token)
  token_pass session none e = cc
  token_pass session (some t) e = (cc, cc)

  reply_pass :
      (r : Result (TestSession F))
      → launch_reply h r ≡ json 200 grant
      → (r ≡ ok grant.session) × (token_for h grant.session.user_id ≡ some grant.access_token)
  reply_pass (err e) k = cc
  reply_pass (ok session) k =
      let (same, token) = token_pass session (token_for h session.user_id) k in
      (ap ok same, subst (λ s. token_for h s.user_id ≡ some grant.access_token) same token)

  after_pass :
      (status : Option ℕ)
      → (launch_after lib h env cache req status w).0.0 ≡ json 200 grant
      → HasUniqueStates w.db
      → IsGranted (launch_after lib h env cache req status w).0.1
  after_pass (some status) k unique = cc
  after_pass none k unique = elim (Bool-cases (is_empty id_token || is_empty state)) [
    | inl missing ↦ let e = rw missing at k in cc
    | inr given ↦
        let (opened, issued) =
          reply_pass (handle_launch lib env cache id_token state w).0.0 (rw given at k) in
        rw given (elim (handle_launch-Effect lib env cache id_token state w unique) [
          | inl (e, failed, kept) ↦ cc
          | inr (verified, used_up) ↦ record {
            verified = verified;
            used_up = used_up;
            issued = issued;
          }
        ])
  ]

  request_pass :
      (handle_launch_request lib h env cache req w).0.0 ≡ json 200 grant
      → HasUniqueStates w.db
      → IsGranted (handle_launch_request lib h env cache req w).0.1
  unfolding handle_launch_request
  request_pass k unique = after_pass (parse_lti_form req.form) k unique

  student_only :
      (now : ℕ) (auth_header user_id : Text)
      → jwt_auth_middleware h.jwt h.jwt_config now auth_header
        ≡ next (record { user_id = user_id; user_roles = students })
      → admin_chain h.jwt h.jwt_config now auth_header ≡ aborted 403
  unfolding admin_chain require_role text_eq any
  student_only now auth_header user_id e = rw e refl

  -- The claims of a token, at the times at which it is valid
  abbrev pub Admits : ℕ → Type 0
  Admits now =
      (jwt_auth_middleware h.jwt h.jwt_config now (codes "Bearer " ++ grant.access_token)
        ≡ next (record { user_id = grant.session.user_id; user_roles = students }))
      × (admin_chain h.jwt h.jwt_config now (codes "Bearer " ++ grant.access_token) ≡ aborted 403)

  -- If the states in the table are unique and the jwt package reads what it signs, then a launch
  -- request that is answered with a session and a token was verified and has used its state up,
  -- and from its issue to its expiry the token authenticates the user of that session with the
  -- role STUDENT and is refused, with 403, on the routes for administrators.
  pub handle_launch_request-IsGranted :
      (lifetime now : ℕ)
      → JwtLaws h.jwt
      → HasUniqueStates w.db
      → h.token_ttl ≡ pos lifetime
      → (handle_launch_request lib h env cache req w).0.0 ≡ json 200 grant
      → h.jwt.numeric_date h.issued_at ≤ now
      → now < h.jwt.numeric_date (h.expiry_from + lifetime)
      → IsGranted (handle_launch_request lib h env cache req w).0.1 × Admits now
  handle_launch_request-IsGranted lifetime now laws unique ttl answered issued unexpired =
      let granted = request_pass answered unique in
      let admitted =
        jwt_auth_middleware-generate_jwt h.jwt laws grant.session.user_id students h.jwt_config
          h.expiry_from h.issued_at lifetime grant.access_token now (rw ttl at granted.issued)
          issued unexpired in
      (
        granted,
        (
          admitted,
          student_only now (codes "Bearer " ++ grant.access_token) grant.session.user_id admitted,
        ),
      )
