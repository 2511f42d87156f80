-- ===== src/Lti/Launch/Verified.antt =====
-- What a launch that goes through has verified, and what it leaves of its state.
use tao_core_go.Prelude.{
  ℕ, ◌<◌, Text, Bool, true, false, not, ◌||◌, Option, none, some, List, [], ◌∷◌, ◌≡◌, ◌≢◌, ◌⊎◌,
  refl, arith, codes, eqb, update_where, ◌==◌, text_eq_instance, text_eq_iff,
}
use tao_core_go.Prelude.Rows.{In}
use tao_core_go.Text.{is_empty}
use tao_core_go.Float.{Float64}
use tao_core_go.Models.{LtiPlatform, LtiOidcState, LtiResourceLink, TestSession}
use tao_core_go.Store.{Db, World, Result, err, Error}
use tao_core_go.Lti.{RsaKey, LtiClaims, Lib}
use tao_core_go.Lti.Keys.{Cache, token_key_id, signing_key}
use tao_core_go.Lti.Launch.{
  LaunchEnv, is_unset, no_roles, is_pending, set_used, key_for, options_for, claims_fail,
  line_item_allowed,
}
use tao_core_go.Lti.Launch.States.{Spent}

-- The claims of a launch message, checked against the state of its login
pub record AreAccepted (st : LtiOidcState) (claims : LtiClaims) : Type 0 where
  pub same_nonce : claims.claimed_nonce ≡ st.expected_nonce
  pub same_target : claims.target_link_uri ≡ st.target_link_uri
  pub is_launch : claims.message_type ≡ codes "LtiResourceLinkRequest"
  pub is_version : claims.lti_version ≡ codes "1.3.0"
  pub has_subject : claims.subject ≢ []
  pub has_deployment : claims.deployment_id ≢ []
  pub has_resource : claims.resource_link_id ≢ []
  pub has_roles : claims.roles ≢ []
  pub has_issue_time : claims.issued_at ≢ none

ne_of_not_empty : (t : Text) → is_empty t ≡ false → t ≢ []
ne_of_not_empty [] h = cc
ne_of_not_empty (c ∷ t) h = cc

ne_of_some_role : (rs : List Text) → no_roles rs ≡ false → rs ≢ []
ne_of_some_role [] h = cc
ne_of_some_role (r ∷ rs) h = cc

ne_of_set : (o : Option ℕ) → is_unset o ≡ false → o ≢ none
ne_of_set none h = cc
ne_of_set (some t) h = cc

pub none_of_unset : (o : Option ℕ) → is_unset o ≡ true → o ≡ none
none_of_unset none h = refl
none_of_unset (some t) h = cc

eq_of_same : (s t : Text) → not (s == t) ≡ false → s ≡ t
eq_of_same s t h = ground (arith, text_eq_iff s t)

of_not : (b : Bool) → not b ≡ false → b ≡ true
of_not true h = refl
of_not false h = cc

pub not_one : (n : ℕ) → n ≢ 1 → eqb n 1 ≡ false
not_one n h = ground arith

or-false : (a b : Bool) → (a || b) ≡ false → (a ≡ false) × (b ≡ false)
or-false false b h = (refl, h)
or-false true b h = cc

pub claims-AreAccepted :
    (st : LtiOidcState) (claims : LtiClaims) (valid : Bool)
    → claims_fail st claims valid ≡ false
    → (valid ≡ true) × AreAccepted st claims
unfolding claims_fail
claims-AreAccepted st claims valid h =
    let (h9, roles) = or-false _ _ h in
    let (h8, target) = or-false _ _ h9 in
    let (h7, resource) = or-false _ _ h8 in
    let (h6, deployment) = or-false _ _ h7 in
    let (h5, version) = or-false _ _ h6 in
    let (h4, message) = or-false _ _ h5 in
    let (h3, drawn) = or-false _ _ h4 in
    let (h2, issued) = or-false _ _ h3 in
    let (h1, subject) = or-false (not valid) _ h2 in
    (
      of_not valid h1,
      record {
        same_nonce = eq_of_same _ _ drawn;
        same_target = eq_of_same _ _ target;
        is_launch = eq_of_same _ _ message;
        is_version = eq_of_same _ _ version;
        has_subject = ne_of_not_empty _ subject;
        has_deployment = ne_of_not_empty _ deployment;
        has_resource = ne_of_not_empty _ resource;
        has_roles = ne_of_some_role _ roles;
        has_issue_time = ne_of_set _ issued;
      },
    )

-- Of the states, the one of the launch is used up, and that is all.
pub record IsUsedUp {F : Type 0} (now : ℕ) (state : Text) (db db' : Db F) : Type 0 where
  pub spent : Spent state db'
  pub states : db'.lti.states ≡ update_where (is_pending now state) (set_used now) db.lti.states

-- The state was drawn by a login and is neither used nor expired, and the platform of that login is
-- registered.
pub record IsFound {F : Type 0} (env : LaunchEnv) (state : Text) (db : Db F) (st : LtiOidcState)
    (platform : LtiPlatform) : Type 0 where
  pub listed : In st db.lti.states
  pub asked : st.state ≡ state
  pub not_used : st.used_at ≡ none
  pub in_time : env.now < st.expires_at
  pub registered : In platform db.lti.platforms
  pub same_issuer : platform.issuer ≡ st.issuer
  pub same_client : platform.client_id ≡ st.client_id

module _ {F : Type 0} ⦃float : Float64 F⦄ (lib : Lib) (env : LaunchEnv) (cache : Cache)
    (id_token state : Text) (db : Db F) where
  -- What is checked before a session is started, in terms of the tables before the launch.
  pub record IsVerified : Type 0 where
    pub st : LtiOidcState
    pub platform : LtiPlatform
    pub kid : Text
    pub key : RsaKey
    pub claims : LtiClaims
    pub mapping : LtiResourceLink
    pub login : IsFound env state db st platform
    -- the token is signed with a key of the platform, and its claims are those of a launch
    pub header : token_key_id lib id_token ≡ some kid
    pub known : (signing_key lib env.checked_at env.stored_at cache platform kid).0 ≡ some key
    pub signed :
        lib.parse_with_claims (options_for platform) (key_for kid key) id_token
        ≡ some (claims, true)
    pub accepted : AreAccepted st claims
    -- the resource is mapped to a delivery, and grades go to the platform only
    pub mapped : In mapping db.lti.resource_links
    pub same_platform : mapping.platform_id ≡ platform.id
    pub same_deployment : mapping.deployment_id ≡ claims.deployment_id
    pub same_resource : mapping.resource_link_id ≡ claims.resource_link_id
    pub line_item : line_item_allowed lib platform claims ≡ true

  -- A refusal that changes nothing, or a verified launch after which the state is used up
  abbrev pub Effect : Result (TestSession F) × World F → Type 0
  Effect x =
      ((e : Error) × (x.0 ≡ err e) × (x.1.db ≡ db))
      ⊎ (IsVerified × IsUsedUp env.now state db x.1.db)
