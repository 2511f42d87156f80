-- ===== src/Auth/Access.antt =====
-- Who gets through the middlewares.
use tao_core_go.Prelude.{
  ℕ, ◌+◌, ◌≤◌, ◌<◌, Text, true, false, Option, some, List, [], ◌∷◌, ◌++◌, ◌≡◌, ◌↔◌, refl, ap, inl,
  inr, arith, eqb, any, codes, ◌==◌, text_eq_instance, text_eq, text_eq_iff, Bool-cases,
  Option-cases,
}
use tao_core_go.Prelude.Int.{pos}
use tao_core_go.Auth.{
  JwtConfig, Claims, Jwt, Identity, Answer, next, aborted, validate_jwt_config, bad_user_id,
  generate_jwt, split_two, check_claims, jwt_auth_middleware, require_role, and_then, admin_chain,
}

through :
    {A B : Type 0} (x : Answer A) (f : A → Answer B) (b : B)
    → and_then x f ≡ next b
    → (a : A) × (x ≡ next a) × (f a ≡ next b)
through (next a) f b h = (a, refl, h)
through (aborted status) f b h = cc

split_two-append : (s a b : Text) → split_two s ≡ some (a, b) → s ≡ a ++ 32 ∷ b
unfolding split_two
split_two-append [] a b h = cc
split_two-append (c ∷ s) a b h = elim (Bool-cases (eqb c 32)) [
  | inl space ↦
      let found : ◌≡◌ {A = Option (Text × Text)} (some ([], s)) (some (a, b)) = rw space at h in
      let at_a : ◌≡◌ {A = Text} [] a = cc in
      let at_b : s ≡ b = cc in let at_c : c ≡ 32 = ground arith in rw (← at_a, ← at_b, at_c) refl
  | inr other ↦ elim (Option-cases (split_two s)) [
    | inl missing ↦ absurd (ground arith)
    | inr (p, found) ↦
        let whole : ◌≡◌ {A = Option (Text × Text)} (some (c ∷ p.0, p.1)) (some (a, b)) =
          rw (other, found) at h in
        let at_a : ◌≡◌ {A = Text} (c ∷ p.0) a = cc in
        let at_b : p.1 ≡ b = cc in
        rw (← at_a, ← at_b) (ap (λ t. c ∷ t) (split_two-append s p.0 p.1 found))
  ]
]

module _ (jwt : Jwt) (config : JwtConfig) (now : ℕ) (auth_header : Text) where
  -- The request carries a token of a named user that the package accepts.
  pub record IsAuthenticated (identity : Identity) : Type 0 where
    pub configured : validate_jwt_config config ≡ true
    pub token : Text
    pub carried : auth_header ≡ codes "Bearer " ++ token
    pub claims : Claims
    pub accepted : jwt.parse config.secret config.issuer config.audience now token ≡ some claims
    pub named : bad_user_id claims.user_id ≡ false
    pub issued : ℕ
    pub dated : claims.issued_at ≡ some issued
    pub known : identity ≡ record { user_id = claims.user_id; user_roles = claims.roles }

  jwt_auth_complete :
      (identity : Identity)
      → IsAuthenticated identity
      → jwt_auth_middleware jwt config now auth_header ≡ next identity
  unfolding jwt_auth_middleware check_claims text_eq
  jwt_auth_complete identity a =
      rw (a.configured, a.carried, a.accepted, a.named, a.dated, a.known) refl

  -- What each test of the middleware lets through.
  claims_pass :
      (claims : Claims) (identity : Identity)
      → check_claims claims ≡ next identity
      → (bad_user_id claims.user_id ≡ false)
        × ((t : ℕ) × (claims.issued_at ≡ some t))
        × (identity ≡ record { user_id = claims.user_id; user_roles = claims.roles })
  unfolding check_claims
  claims_pass claims identity h = elim (Bool-cases (bad_user_id claims.user_id)) [
    | inl bad ↦ absurd (ground arith)
    | inr named ↦ elim (Option-cases claims.issued_at) [
      | inl undated ↦ absurd (ground arith)
      | inr (t, dated) ↦
          let given : ◌≡◌ {A = Answer Identity}
              (next (record { user_id = claims.user_id; user_roles = claims.roles }))
              (next identity) =
            rw (named, dated) at h in
          (named, (t, dated), cc)
    ]
  ]

  jwt_auth_sound :
      (identity : Identity)
      → jwt_auth_middleware jwt config now auth_header ≡ next identity
      → IsAuthenticated identity
  unfolding jwt_auth_middleware
  jwt_auth_sound identity h = elim (Bool-cases (validate_jwt_config config)) [
    | inr unset ↦ absurd (ground arith)
    | inl configured ↦ elim (Option-cases (split_two auth_header)) [
      | inl unsplit ↦ absurd (ground arith)
      | inr (parts, split) ↦ elim (Bool-cases (parts.0 == codes "Bearer")) [
        | inr other ↦ absurd (ground arith)
        | inl bearer ↦
            elim (Option-cases
              (jwt.parse config.secret config.issuer config.audience now parts.1)) [
                | inl refused ↦ absurd (ground arith)
                | inr (claims, accepted) ↦
                    let passed : check_claims claims ≡ next identity = ground arith in
                    let (named, dated, known) = claims_pass claims identity passed in
                    let scheme : parts.0 ≡ codes "Bearer" =
                      (text_eq_iff parts.0 (codes "Bearer")).0 bearer in
                    record {
                      configured = configured;
                      token = parts.1;
                      carried =
                          rw (split_two-append auth_header parts.0 parts.1 split, scheme) refl;
                      claims = claims;
                      accepted = accepted;
                      named = named;
                      issued = dated.0;
                      dated = dated.1;
                      known = known;
                    }
              ]
      ]
    ]
  ]

  -- A request gets through the authentication, with an identity, exactly when the configuration is
  -- valid, its header is Bearer, a space and a token that the jwt package accepts for the
  -- configuration at that time, the token names a usable user and its time of issue, and the
  -- identity is that user with the token's roles.
  pub jwt_auth_middleware-IsAuthenticated :
      (identity : Identity)
      → (jwt_auth_middleware jwt config now auth_header ≡ next identity) ↔ IsAuthenticated identity
  jwt_auth_middleware-IsAuthenticated identity =
      (jwt_auth_sound identity, jwt_auth_complete identity)

  next_injective : {A : Type 0} (a b : A) → ◌≡◌ {A = Answer A} (next a) (next b) → a ≡ b
  next_injective a b h = cc

  same_identity :
      (role : Text) {identity identity' : Identity}
      → any (λ r. r == role) identity.user_roles ≡ true
      → require_role role (some identity) ≡ next identity'
      → identity ≡ identity'
  unfolding require_role
  same_identity role {identity = identity} {identity' = identity'} has h =
      next_injective identity identity' (rw has at h)

  require_role_iff :
      (role : Text) (identity identity' : Identity)
      → (require_role role (some identity) ≡ next identity')
        ↔ ((identity ≡ identity') × (any (λ r. r == role) identity.user_roles ≡ true))
  unfolding require_role
  require_role_iff role identity identity' =
      elim (Bool-cases (any (λ r. r == role) identity.user_roles)) [
        | inl has ↦ (λ h. (same_identity role has h, has), λ (e, _). rw (has, e) refl)
        | inr lacks ↦ (λ h. absurd (ground arith), λ (e, k). absurd (ground arith))
      ]

  -- A request gets through the chain of the administrators' routes exactly when it is
  -- authenticated and ADMIN is among the roles of its token.
  pub admin_chain_iff :
      (identity : Identity)
      → (admin_chain jwt config now auth_header ≡ next identity)
        ↔ (IsAuthenticated identity × (any (λ r. r == codes "ADMIN") identity.user_roles ≡ true))
  unfolding admin_chain
  admin_chain_iff identity = (
    λ h.
        let (first, passed, admitted) =
          through (jwt_auth_middleware jwt config now auth_header)
            (λ i. require_role (codes "ADMIN") (some i)) identity h in
        let (same, has) = (require_role_iff (codes "ADMIN") first identity).0 admitted in
        (jwt_auth_sound identity (rw (← same) passed), rw (← same) has),
    λ (a, has).
        rw (jwt_auth_complete identity a)
          ((require_role_iff (codes "ADMIN") identity identity).1 (refl, has)),
  )

-- What golang-jwt documents of HS256 and of the options that the middleware gives: a signed token is
-- accepted under the same secret, for its issuer and one of its audiences, once issued and before
-- it expires, and gives the claims back.
pub record JwtLaws (jwt : Jwt) : Type 0 where
  pub parse-sign :
      (secret issuer audience token : Text) (claims : Claims) (now issued expires : ℕ)
      → jwt.sign secret claims ≡ some token
      → claims.issuer ≡ issuer
      → claims.audience ≡ audience ∷ []
      → claims.issued_at ≡ some issued
      → claims.expires_at ≡ some expires
      → issued ≤ now
      → now < expires
      → jwt.parse secret issuer audience now token ≡ some claims

module _ (jwt : Jwt) (laws : JwtLaws jwt) (user_id : Text) (roles : List Text) (config : JwtConfig)
    (at later duration : ℕ) (token : Text) where
  abbrev issued_claims : Claims
  issued_claims = record {
    user_id = user_id;
    roles = roles;
    expires_at = some (jwt.numeric_date (at + duration));
    issued_at = some (jwt.numeric_date later);
    issuer = config.issuer;
    audience = config.audience ∷ [];
  }

  generated :
      generate_jwt jwt user_id roles config at later (pos duration) ≡ some token
      → (validate_jwt_config config ≡ true)
        × (bad_user_id user_id ≡ false)
        × (jwt.sign config.secret issued_claims ≡ some token)
  unfolding generate_jwt
  generated h = (ground arith, ground arith, ground arith)

  -- If the jwt package accepts what it signed as its documentation says, a token that was
  -- generated lets its user in, with the roles it was generated for, from its time of issue until
  -- it expires.
  pub jwt_auth_middleware-generate_jwt :
      (now : ℕ)
      → generate_jwt jwt user_id roles config at later (pos duration) ≡ some token
      → jwt.numeric_date later ≤ now
      → now < jwt.numeric_date (at + duration)
      → jwt_auth_middleware jwt config now (codes "Bearer " ++ token)
        ≡ next (record { user_id = user_id; user_roles = roles })
  jwt_auth_middleware-generate_jwt now h issued unexpired =
      let (configured, named, signed) = generated h in
      jwt_auth_complete jwt config now (codes "Bearer " ++ token)
        (record { user_id = user_id; user_roles = roles })
        (record {
          configured = configured;
          token = token;
          carried = refl;
          claims = issued_claims;
          accepted =
              laws.parse-sign config.secret config.issuer config.audience token issued_claims now
                (jwt.numeric_date later) (jwt.numeric_date (at + duration)) signed refl refl refl
                refl issued unexpired;
          named = named;
          issued = jwt.numeric_date later;
          dated = refl;
          known = refl;
        })
