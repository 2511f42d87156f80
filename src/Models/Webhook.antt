-- ===== src/Models/Webhook.antt =====
-- internal/domain/models/webhook.go. A status code is a number: none that the service stores is
-- negative.
use tao_core_go.Prelude.{ℕ, Text, Bool, List}

pub record WebhookConfig : Type 0 where
  pub id : Text
  pub event : Text
  pub target_url : Text
  pub http_method : Text
  pub secret_token : Text
  pub is_active : Bool
  pub created_at : ℕ

pub record WebhookLog : Type 0 where
  pub id : Text
  pub config_id : Text
  pub event : Text
  pub payload : Text
  pub status_code : ℕ
  pub response_body : Text
  pub is_success : Bool
  pub created_at : ℕ

-- The tables of the webhooks.
pub record WebhookTables : Type 0 where
  pub configs : List WebhookConfig
  pub logs : List WebhookLog
