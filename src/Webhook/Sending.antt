-- ===== src/Webhook/Sending.antt =====
-- The worker: `workerLoop` for one event, `sendWebhook` and `logWebhookResult`.
pub mod Signed
use tao_core_go.Prelude.{
  ℕ, zero, suc, Text, Bool, true, false, not, ◌&&◌, Option, none, some, List, [], ◌∷◌, ◌++◌, codes,
  any, filter, length, ltb, leb, ◌==◌, text_eq_instance, if◌then◌else◌,
}
use tao_core_go.Models.{WebhookConfig, WebhookLog, WebhookTables}
use tao_core_go.Store.{Db, World, Tx, Result, ok, err, duplicated_key, query, write}
use tao_core_go.Outbound.{Url, validate_url}
use tao_core_go.Cipher.{Bytes, decrypt, take}
use tao_core_go.Webhook.{
  WebhookLib, Service, Post, Response, SendError, bad_url, bad_secret, failed_call,
}

-- The clock and the random identifiers of one call
pub record SendEnv : Type 0 where
  pub timestamp : Text
  pub delivery_id : Text
  pub log_id : Text
  pub logged_at : ℕ

-- The request, or why there is none
pub data Prepared : Type 0 where
  ready : Post → Prepared
  failed : SendError → Prepared

-- What is logged of a call
pub record Outcome : Type 0 where
  pub status_code : ℕ
  pub body : Bytes
  pub is_success : Bool

abbrev pub dot : Text
dot = codes "."

unfoldable pub signature_of : WebhookLib → SendEnv → Bytes → Bytes → Text
signature_of lib env secret payload =
    codes "v1="
    ++ lib.hex (
        lib.hmac_sha256 secret
          (lib.bytes_of (env.timestamp ++ (dot ++ (env.delivery_id ++ dot))) ++ payload))

unfoldable pub is_2xx : ℕ → Bool
is_2xx code = leb 200 code && ltb code 300

module _ (lib : WebhookLib) (service : Service) (env : SendEnv) where
  abbrev pub sign : WebhookConfig → Bytes → Url → Option Bytes → Prepared
  sign config payload url none = failed bad_secret
  sign config payload url (some secret) = ready (record {
    url = url;
    delivery_id = env.delivery_id;
    timestamp = env.timestamp;
    signature = signature_of lib env secret payload;
    payload = payload;
  })

  abbrev pub sign_for : WebhookConfig → Bytes → Option Url → Prepared
  sign_for config payload none = failed bad_url
  sign_for config payload (some url) =
      sign config payload url (decrypt lib.crypto service.cipher config.secret_token)

  -- The part of `sendWebhook` before the call
  unfoldable pub prepare : WebhookConfig → Bytes → Prepared
  prepare config payload =
      sign_for config payload (validate_url lib.net service.policy config.target_url)

  abbrev pub failure : SendError → Outcome
  failure e = record { status_code = 0; body = lib.error_text e; is_success = false }

  -- The response, of which at most 4096 bytes are read
  abbrev pub outcome_of : Option Response → Outcome
  outcome_of none = failure failed_call
  outcome_of (some response) = record {
    status_code = response.status_code;
    body = lib.trim (take 4096 response.body);
    is_success = is_2xx response.status_code;
  }

  unfoldable pub outcome : Prepared → Outcome
  outcome (failed e) = failure e
  outcome (ready post) = outcome_of (lib.call post)

  -- The entry of `logWebhookResult`; `response[:4096]` cuts bytes.
  unfoldable pub log_entry : WebhookConfig → Text → Outcome → WebhookLog
  log_entry config event_name result = record {
    id = env.log_id;
    config_id = config.id;
    event = event_name;
    payload = [];
    status_code = result.status_code;
    response_body = take 4096 result.body;
    is_success = result.is_success;
    created_at = env.logged_at;
  }

abbrev pub with_logs : {F : Type 0} → List WebhookLog → Db F → Db F
with_logs logs db = record db { webhooks = record (db.webhooks) { logs = logs } }

abbrev pub posts_of : Prepared → List Post
posts_of (ready post) = post ∷ []
posts_of (failed e) = []

unfoldable pub subscribed : Text → WebhookConfig → Bool
subscribed event_name config = config.event == event_name && config.is_active

module _ {F : Type 0} where
  unfoldable pub create_log : WebhookLog → Tx F Unit
  create_log row = write (λ db.
      if any (λ r. r.id == row.id) db.webhooks.logs
      then err duplicated_key
      else ok (tt, with_logs (db.webhooks.logs ++ row ∷ []) db))

  -- `sendWebhook`: the request that is made, if any, and the log; that the log cannot be written is
  -- no error.
  unfoldable pub send_webhook :
      WebhookLib → Service → SendEnv → WebhookConfig → Text → Bytes → World F → List Post × World F
  send_webhook lib service env config event_name payload w =
      let prepared = prepare lib service env config payload in
      (
        posts_of prepared,
        (create_log (log_entry lib service env config event_name (outcome lib service env prepared))
            w).1,
      )

  unfoldable pub send_all :
      WebhookLib
      → Service
      → (ℕ → SendEnv)
      → ℕ
      → List WebhookConfig
      → Text
      → Bytes
      → World F
      → List Post × World F
  send_all lib service env i [] event_name payload w = ([], w)
  send_all lib service env i (config ∷ configs) event_name payload w =
      let (posts, w') = send_webhook lib service (env i) config event_name payload w in
      let (later, w'') = send_all lib service env (suc i) configs event_name payload w' in
      (posts ++ later, w'')

  abbrev pub send_to :
      WebhookLib
      → Service
      → (ℕ → SendEnv)
      → Text
      → Option Bytes
      → Result (List WebhookConfig) × World F
      → List Post × World F
  send_to lib service env event_name payload (err e, w) = ([], w)
  send_to lib service env event_name none (ok configs, w) = ([], w)
  send_to lib service env event_name (some payload) (ok configs, w) =
      send_all lib service env 0 configs event_name payload w

  -- One round of `workerLoop`; the payload is the event in JSON, none where json.Marshal fails.
  unfoldable pub process_event :
      WebhookLib → Service → (ℕ → SendEnv) → Text → Option Bytes → World F → List Post × World F
  process_event lib service env event_name payload w =
      send_to lib service env event_name payload
        (query (λ db. filter (subscribed event_name) db.webhooks.configs) w)
