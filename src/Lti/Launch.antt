-- ===== src/Lti/Launch.antt =====
-- `HandleLaunch`: the second step, with the token that the platform has signed.
pub mod States
pub mod Effects
pub mod Verified
pub mod Found
pub mod Stages
use tao_core_go.Prelude.{
  ℕ, suc, ◌+◌, Text, Bool, true, false, not, ◌&&◌, ◌||◌, Option, none, some, List, [], ◌∷◌, ◌++◌,
  codes, ltb, eqb, find, filter, count, any, update_where, ◌==◌, text_eq_instance, if◌then◌else◌,
}
use tao_core_go.Text.{is_empty}
use tao_core_go.Float.{Float64}
use tao_core_go.Models.{
  LtiPlatform, LtiOidcState, LtiResourceLink, LtiLinkSession, LtiTables, TestSession,
}
use tao_core_go.Store.{
  Db, World, Tx, Result, ok, err, Error, platform_not_found, invalid_lti_state, invalid_lti_token,
  resource_link_missing, pure, raise, first, write, ◌>>=◌, ◌>>◌,
}
use tao_core_go.Outbound.{new_outbound_policy, validate_url}
use tao_core_go.Session.{Env}
use tao_core_go.Session.Start.{start_session}
use tao_core_go.Lti.{TokenHeader, RsaKey, LtiClaims, ParseOptions, Lib, rs256, mask}
use tao_core_go.Lti.Urls.{contains_string, hostnames}
use tao_core_go.Lti.Keys.{Cache, token_key_id, signing_key}
use tao_core_go.Lti.Login.{registered_as, with_states}

-- The clock of one launch, and what it hands to the session service
pub record LaunchEnv : Type 0 where
  pub now : ℕ
  -- the clock in the look at the cached keys, and where keys are stored
  pub checked_at : ℕ
  pub stored_at : ℕ
  pub session_env : Env
  pub linked_at : ℕ

abbrev pub is_unset : Option ℕ → Bool
is_unset none = true
is_unset (some t) = false

-- A pending state: not used, and not expired
unfoldable pub is_pending : ℕ → Text → LtiOidcState → Bool
is_pending now state r = r.state == state && is_unset r.used_at && ltb now r.expires_at

-- The key function: the algorithm and the key id of the header are those looked up.
abbrev pub key_for : Text → RsaKey → TokenHeader → Option RsaKey
key_for kid key header = elim header.kid [
  | none ↦ none
  | some k ↦ if not (header.alg == rs256) || not (k == kid) then none else some key
]

abbrev pub thirty_seconds : ℕ
thirty_seconds = 30_000_000_000

abbrev pub options_for : LtiPlatform → ParseOptions
options_for platform = record {
  valid_method = rs256;
  issuer = platform.issuer;
  audience = platform.client_id;
  leeway = thirty_seconds;
}

abbrev pub no_roles : List Text → Bool
no_roles [] = true
no_roles (r ∷ rs) = false

-- The checks after the signature's
unfoldable pub claims_fail : LtiOidcState → LtiClaims → Bool → Bool
claims_fail st claims valid =
    not valid
    || is_empty claims.subject
    || is_unset claims.issued_at
    || not (claims.claimed_nonce == st.expected_nonce)
    || not (claims.message_type == codes "LtiResourceLinkRequest")
    || not (claims.lti_version == codes "1.3.0")
    || is_empty claims.deployment_id
    || is_empty claims.resource_link_id
    || not (claims.target_link_uri == st.target_link_uri)
    || no_roles claims.roles

unfoldable pub verified_claims :
    Lib → LtiOidcState → LtiPlatform → Text → RsaKey → Text → Option LtiClaims
verified_claims lib st platform kid key id_token =
    elim (lib.parse_with_claims (options_for platform) (key_for kid key) id_token) [
      | none ↦ none
      | some (claims, valid) ↦ if claims_fail st claims valid then none else some claims
    ]

unfoldable pub score_scope : Text
score_scope = codes "https://purl.imsglobal.org/spec/lti-ags/scope/score"

-- The line item is called only on a host of the platform, and with the scope for scores.
unfoldable pub line_item_allowed : Lib → LtiPlatform → LtiClaims → Bool
line_item_allowed lib platform claims =
    if is_empty claims.line_item
    then true
    else if not (contains_string claims.scopes score_scope)
    then false
    else elim (new_outbound_policy lib.net
        (hostnames lib.net (platform.issuer ∷ platform.auth_token_url ∷ []))) [
          | none ↦ false
          | some policy ↦ elim (validate_url lib.net policy claims.line_item) [
            | none ↦ false
            | some validated ↦ true
          ]
        ]

-- `ltiUserID`
unfoldable pub lti_user_id : Lib → Text → Text → Text
lti_user_id lib issuer subject = codes "lti:" ++ lib.encode_url (lib.sha256 (issuer ++ 0 ∷ subject))

unfoldable pub mapped_by : LtiPlatform → LtiClaims → LtiResourceLink → Bool
mapped_by platform claims r =
    r.platform_id == platform.id
    && r.deployment_id == claims.deployment_id
    && r.resource_link_id == claims.resource_link_id

abbrev pub set_used : ℕ → LtiOidcState → LtiOidcState
set_used now r = record r { used_at = some now }

-- `Save` of a link: an update of the row with its key, or a new row
unfoldable pub save_in : LtiLinkSession → List LtiLinkSession → List LtiLinkSession
save_in row rows =
    if any (λ r. r.session_id == row.session_id) rows
    then update_where (λ r. r.session_id == row.session_id) (λ r. row) rows
    else rows ++ row ∷ []

module _ {F : Type 0} where
  unfoldable pub find_state : ℕ → Text → Tx F LtiOidcState
  find_state now state =
      mask invalid_lti_state
        (first invalid_lti_state (λ db. find (is_pending now state) db.lti.states))

  unfoldable pub find_platform : LtiOidcState → Tx F LtiPlatform
  find_platform st = mask platform_not_found (
      first platform_not_found (λ db. find (registered_as st.issuer st.client_id) db.lti.platforms))

  unfoldable pub find_login : ℕ → Text → Tx F (LtiOidcState × LtiPlatform)
  unfolding find_state find_platform
  find_login now state =
      find_state now state >>= λ st. find_platform st >>= λ platform. pure (st, platform)

  unfoldable pub find_mapping : LtiPlatform → LtiClaims → Tx F LtiResourceLink
  find_mapping platform claims =
      mask resource_link_missing
        (first resource_link_missing (λ db. find (mapped_by platform claims) db.lti.resource_links))

  -- The update of used_at, with the rows affected
  unfoldable pub mark_used : ℕ → Text → Tx F ℕ
  mark_used now state = mask invalid_lti_state (
      write (λ db. ok (
        count (is_pending now state) db.lti.states,
        with_states (update_where (is_pending now state) (set_used now) db.lti.states) db,
      )))

  unfoldable pub save_link : LtiLinkSession → Tx F Unit
  save_link row = write (λ db. ok (
    tt,
    record db { lti = record (db.lti) { link_sessions = save_in row db.lti.link_sessions } },
  ))

abbrev pub link_of : {F : Type 0} → ℕ → LtiPlatform → LtiClaims → TestSession F → LtiLinkSession
link_of now platform claims session = record {
  session_id = session.id;
  platform_id = platform.id;
  issuer = platform.issuer;
  client_id = platform.client_id;
  lis_user_id = claims.subject;
  deployment_id = claims.deployment_id;
  resource_link_id = claims.resource_link_id;
  line_item_url = claims.line_item;
  created_at = now;
}

module _ {F : Type 0} ⦃float : Float64 F⦄ (lib : Lib) (env : LaunchEnv) where
  -- What follows once the state is used up.
  unfoldable pub open_session : LtiPlatform → LtiClaims → LtiResourceLink → Tx F (TestSession F)
  open_session platform claims mapping =
      start_session env.session_env mapping.delivery_id
        (lti_user_id lib platform.issuer claims.subject)
      >>= λ session.
          save_link (link_of env.linked_at platform claims session) >>= λ done. pure session

  unfoldable pub consume : Text → LtiPlatform → LtiClaims → LtiResourceLink → Tx F (TestSession F)
  unfolding open_session mark_used
  consume state platform claims mapping = mark_used env.now state >>= λ rows.
      if not (eqb rows 1) then raise invalid_lti_state else open_session platform claims mapping

  unfoldable pub finish_launch : Text → LtiPlatform → LtiClaims → Tx F (TestSession F)
  unfolding consume find_mapping
  finish_launch state platform claims = find_mapping platform claims >>= λ mapping.
      if line_item_allowed lib platform claims
      then consume state platform claims mapping
      else raise invalid_lti_token

  unfoldable pub with_claims : Text → LtiPlatform → Option LtiClaims → Tx F (TestSession F)
  unfolding finish_launch
  with_claims state platform none = raise invalid_lti_token
  with_claims state platform (some claims) = finish_launch state platform claims

  unfoldable pub with_key :
      Text → Text → LtiOidcState → LtiPlatform → Text → Option RsaKey → Tx F (TestSession F)
  unfolding with_claims
  with_key id_token state st platform kid none = raise invalid_lti_token
  with_key id_token state st platform kid (some key) =
      with_claims state platform (verified_claims lib st platform kid key id_token)

  unfoldable pub with_kid :
      Cache
      → Text
      → Text
      → LtiOidcState × LtiPlatform
      → Option Text
      → World F
      → (Result (TestSession F) × World F) × Cache
  unfolding with_key
  with_kid cache id_token state (st, platform) none w = ((err invalid_lti_token, w), cache)
  with_kid cache id_token state (st, platform) (some kid) w =
      let (key, cache') = signing_key lib env.checked_at env.stored_at cache platform kid in
      (with_key id_token state st platform kid key w, cache')

  abbrev pub with_login :
      Cache
      → Text
      → Text
      → Result (LtiOidcState × LtiPlatform)
      → World F
      → (Result (TestSession F) × World F) × Cache
  with_login cache id_token state (err e) w = ((err e, w), cache)
  with_login cache id_token state (ok login) w =
      with_kid cache id_token state login (token_key_id lib id_token) w

  -- `HandleLaunch`: the session or an error, the world, and the cache of keys
  unfoldable pub handle_launch :
      Cache → Text → Text → World F → (Result (TestSession F) × World F) × Cache
  unfolding find_login with_kid
  handle_launch cache id_token state w =
      let (r, w') = find_login env.now state w in with_login cache id_token state r w'
