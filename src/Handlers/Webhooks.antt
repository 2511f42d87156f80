-- ===== src/Handlers/Webhooks.antt =====
-- internal/handler/session_handler.go: the two handlers for webhooks. The row that the answer to a
-- registration shows beside the secret is left out.
use tao_core_go.Prelude.{Text, true, Option, none, some, List, []}
use tao_core_go.Models.{WebhookConfig, WebhookLog}
use tao_core_go.Store.{World, Result, ok, err}
use tao_core_go.Webhook.{WebhookLib, Service}
use tao_core_go.Webhook.Registration.{RegisterEnv, register_config, get_webhook_logs}
use tao_core_go.Handlers.{Reply, json, error, plain_reply}

-- `RegisterWebhookRequest`, with the limits of its binding checked by gin
pub record RegisterWebhookRequest : Type 0 where
  pub event : Text
  pub url : Text
  pub signing_secret : Text

abbrev pub config_of : RegisterWebhookRequest → WebhookConfig
config_of req = record {
  id = [];
  event = req.event;
  target_url = req.url;
  http_method = [];
  secret_token = req.signing_secret;
  is_active = true;
  created_at = 0;
}

abbrev pub registered_reply : Result Text → Reply Text
registered_reply (ok secret) = json 201 secret
registered_reply (err e) = error 400

module _ {F : Type 0} where
  -- `RegisterWebhook`
  unfoldable pub handle_register_webhook :
      WebhookLib
      → Service
      → RegisterEnv
      → Option RegisterWebhookRequest
      → World F
      → Reply Text × World F
  handle_register_webhook lib service env none w = (error 400, w)
  handle_register_webhook lib service env (some req) w =
      let (r, w') = register_config lib service env (config_of req) w in (registered_reply r, w')

  -- `GetWebhookLogs`
  unfoldable pub handle_webhook_logs : World F → Reply (List WebhookLog) × World F
  handle_webhook_logs w = let (r, w') = get_webhook_logs w in (plain_reply r, w')
