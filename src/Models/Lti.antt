-- ===== src/Models/Lti.antt =====
-- internal/domain/models/lti.go: the platforms, pending logins and links of LTI 1.3.
use tao_core_go.Prelude.{ℕ, Text, Option, List}

pub record LtiPlatform : Type 0 where
  pub id : Text
  pub issuer : Text
  pub client_id : Text
  pub key_set_url : Text
  pub auth_token_url : Text
  pub auth_login_url : Text
  pub tool_launch_url : Text
  pub key_id : Text
  pub private_key : Text
  pub public_key : Text
  pub created_at : ℕ

pub record LtiLinkSession : Type 0 where
  pub session_id : Text
  pub platform_id : Text
  pub issuer : Text
  pub client_id : Text
  pub lis_user_id : Text
  pub deployment_id : Text
  pub resource_link_id : Text
  pub line_item_url : Text
  pub created_at : ℕ

pub record LtiOidcState : Type 0 where
  pub state : Text
  pub expected_nonce : Text
  pub issuer : Text
  pub client_id : Text
  pub target_link_uri : Text
  pub lti_message_hint : Text
  pub expires_at : ℕ
  pub used_at : Option ℕ
  pub created_at : ℕ

pub record LtiResourceLink : Type 0 where
  pub id : Text
  pub platform_id : Text
  pub deployment_id : Text
  pub resource_link_id : Text
  pub delivery_id : Text
  pub created_at : ℕ

-- The tables of LTI.
pub record LtiTables : Type 0 where
  pub platforms : List LtiPlatform
  pub states : List LtiOidcState
  pub resource_links : List LtiResourceLink
  pub link_sessions : List LtiLinkSession
