-- ===== src/Server/Access.antt =====
-- Who reaches the handlers.
use mathlib.Core.Path.{subst}
use tao_core_go.Prelude.{
  ℕ, Text, Bool, true, false, Option, none, some, List, [], ◌∷◌, ◌≡◌, refl, inl, inr, All, any,
  codes, ◌==◌, text_eq_instance, if◌then◌else◌, Bool-cases,
}
use tao_core_go.Prelude.Rows.{In, All-In}
use tao_core_go.Auth.{
  JwtConfig, Jwt, Identity, Answer, next, aborted, and_then, jwt_auth_middleware, require_role,
}
use tao_core_go.Auth.Access.{IsAuthenticated, jwt_auth_middleware-IsAuthenticated}
use tao_core_go.Server.{
  Middleware, auth, admin, limited, Endpoint, uploads, start_session, get_session, save_response,
  submit_session, record_event, initiate_login, handle_launch, Route, routes, run_chain,
}

pub data Access : Type 0 where
  everyone users administrators : Access

-- The security boundary: the two LTI steps are open to everyone, what a student does is for users,
-- and all else is for administrators.
abbrev pub meant_for : Endpoint → Access
meant_for initiate_login = everyone
meant_for handle_launch = everyone
meant_for uploads = users
meant_for start_session = users
meant_for get_session = users
meant_for save_response = users
meant_for submit_session = users
meant_for record_event = users
meant_for _ = administrators

next_injective : {A : Type 0} (a b : A) → ◌≡◌ {A = Answer A} (next a) (next b) → a ≡ b
next_injective a b h = cc

-- The rate limiter lets a request through or ends it.
within_limit :
    {A : Type 0} (allowed : Bool) (a b : A)
    → (if allowed then next a else aborted 429) ≡ next b
    → next a ≡ next b
within_limit true a b h = h
within_limit false a b h = cc

module _ (jwt : Jwt) (config : JwtConfig) (now : ℕ) (auth_header : Text) (allowed : Bool) where
  -- A user has a valid token; an administrator's has the role.
  pub data MayReach : Access → Option Identity → Type 0 where
    anyone : (who : Option Identity) → MayReach everyone who
    user :
        (identity : Identity)
        → IsAuthenticated jwt config now auth_header identity
        → MayReach users (some identity)
    administrator :
        (identity : Identity)
        → IsAuthenticated jwt config now auth_header identity
        → any (λ role. role == codes "ADMIN") identity.user_roles ≡ true
        → MayReach administrators (some identity)

  abbrev runs : List Middleware → Answer (Option Identity)
  runs chain = run_chain jwt config now auth_header allowed chain none

  through_auth :
      (f : Identity → Answer (Option Identity)) (who : Option Identity)
      → and_then (jwt_auth_middleware jwt config now auth_header) f ≡ next who
      → (identity : Identity) × IsAuthenticated jwt config now auth_header identity
        × (f identity ≡ next who)
  through_auth f who h = go (jwt_auth_middleware jwt config now auth_header) refl h
    where
      go :
          (x : Answer Identity)
          → jwt_auth_middleware jwt config now auth_header ≡ x
          → and_then x f ≡ next who
          → (identity : Identity) × IsAuthenticated jwt config now auth_header identity
            × (f identity ≡ next who)
      go (next identity) e k = (
        identity,
        (jwt_auth_middleware-IsAuthenticated jwt config now auth_header identity).0 e,
        k,
      )
      go (aborted status) e k = cc

  users_pass : (who : Option Identity) → runs (auth ∷ []) ≡ next who → MayReach users who
  unfolding run_chain
  users_pass who h =
      let (identity, known, e) = through_auth (λ i. next (some i)) who h in
      subst (MayReach users) (next_injective _ _ e) (user identity known)

  limited_users_pass :
      (who : Option Identity) → runs (auth ∷ limited ∷ []) ≡ next who → MayReach users who
  unfolding run_chain
  limited_users_pass who h =
      let (identity, known, e) =
        through_auth (λ i. if allowed then next (some i) else aborted 429) who h in
      subst (MayReach users) (next_injective _ _ (within_limit allowed (some identity) who e))
        (user identity known)

  administrators_pass :
      (who : Option Identity) → runs (auth ∷ admin ∷ []) ≡ next who → MayReach administrators who
  unfolding run_chain require_role
  administrators_pass who h =
      let (identity, known, e) =
        through_auth (λ i. and_then (require_role (codes "ADMIN") (some i)) (λ j. next (some j)))
          who h in
      elim (Bool-cases (any (λ role. role == codes "ADMIN") identity.user_roles)) [
        | inl has_role ↦
            let k : next (some identity) ≡ next who = rw has_role at e in
            subst (MayReach administrators) (next_injective _ _ k)
              (administrator identity known has_role)
        | inr lacks ↦
            let k : ◌≡◌ {A = Answer (Option Identity)} (aborted 403) (next who) = rw lacks at e in
            cc
      ]

  -- The route lets through only whom it is meant for.
  abbrev IsGuarded : Route → Type 0
  IsGuarded route =
      (who : Option Identity)
      → runs route.chain ≡ next who
      → MayReach (meant_for route.endpoint) who

  routes-AreGuarded : All IsGuarded routes
  unfolding routes
  routes-AreGuarded = (
    users_pass,
    (
      users_pass,
      (
        administrators_pass,
        (
          users_pass,
          (
            users_pass,
            (
              limited_users_pass,
              (
                users_pass,
                (
                  users_pass,
                  (
                    administrators_pass,
                    (
                      administrators_pass,
                      (
                        administrators_pass,
                        (
                          administrators_pass,
                          (
                            administrators_pass,
                            (
                              administrators_pass,
                              (
                                administrators_pass,
                                (
                                  administrators_pass,
                                  (
                                    λ who h. anyone who,
                                    (λ who h. anyone who, (λ who h. anyone who, tt)),
                                  ),
                                ),
                              ),
                            ),
                          ),
                        ),
                      ),
                    ),
                  ),
                ),
              ),
            ),
          ),
        ),
      ),
    ),
  )

  -- Whoever gets through the middlewares of a registered route may reach it: the LTI login and
  -- launch are open to everyone, what a student does needs a valid token, and every other endpoint
  -- needs a valid token with the role ADMIN.
  pub routes-MayReach :
      (route : Route) (who : Option Identity)
      → In route routes
      → run_chain jwt config now auth_header allowed route.chain none ≡ next who
      → MayReach (meant_for route.endpoint) who
  routes-MayReach route who listed h = All-In IsGuarded routes route routes-AreGuarded listed who h
