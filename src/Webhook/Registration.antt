-- ===== src/Webhook/Registration.antt =====
-- `RegisterConfig`, and the history of calls, `GetWebhookLogs`.
pub mod Secret
use tao_core_go.Prelude.{
  ℕ, zero, suc, Text, Bool, true, false, not, Option, none, some, List, [], ◌∷◌, ◌++◌, codes, any,
  ltb, leb, ◌==◌, text_eq_instance, if◌then◌else◌,
}
use tao_core_go.Text.{len, is_empty}
use tao_core_go.Models.{WebhookConfig, WebhookLog, WebhookTables}
use tao_core_go.Store.{
  Db, Tx, Result, ok, err, Error, duplicated_key, rejected, pure, raise, query, write, ◌>>=◌,
}
use tao_core_go.Outbound.{validate_url}
use tao_core_go.Cipher.{Bytes, encrypt}
use tao_core_go.Webhook.{WebhookLib, Service, session_completed}

-- The clock and what the random generators give in one call; none where one fails
pub record RegisterEnv : Type 0 where
  pub new_id : Text
  pub now : ℕ
  pub random_secret : Option Bytes
  pub cipher_random : Option Bytes

abbrev pub with_configs : {F : Type 0} → List WebhookConfig → Db F → Db F
with_configs configs db = record db { webhooks = record (db.webhooks) { configs = configs } }

module _ {F : Type 0} where
  unfoldable pub create_config : WebhookConfig → Tx F Unit
  create_config row = write (λ db.
      if any (λ r. r.id == row.id) db.webhooks.configs
      then err duplicated_key
      else ok (tt, with_configs (db.webhooks.configs ++ row ∷ []) db))

unfoldable pub signing_secret : WebhookLib → RegisterEnv → Text → Option Text
signing_secret lib env given =
    if is_empty given
    then elim env.random_secret [ none ↦ none | some bytes ↦ some (lib.hex bytes) ]
    else some given

unfoldable pub stored_config : RegisterEnv → WebhookConfig → Text → Text → WebhookConfig
stored_config env config target_url token = record {
  id = if is_empty config.id then env.new_id else config.id;
  event = config.event;
  target_url = target_url;
  http_method = codes "POST";
  secret_token = token;
  -- gorm writes the default of the column, true, where the field is false
  is_active = true;
  created_at = env.now;
}

module _ {F : Type 0} (lib : WebhookLib) (service : Service) (env : RegisterEnv) where
  abbrev pub store_encrypted : WebhookConfig → Text → Text → Option Text → Tx F Text
  store_encrypted config url secret none = raise rejected
  store_encrypted config url secret (some token) =
      create_config (stored_config env config url token) >>= λ done. pure secret

  abbrev pub with_secret : WebhookConfig → Text → Option Text → Tx F Text
  with_secret config url none = raise rejected
  with_secret config url (some secret) =
      if ltb (len secret) 32
      then raise rejected
      else store_encrypted config url secret
          (encrypt lib.crypto service.cipher env.cipher_random (lib.bytes_of secret))

  -- `RegisterConfig`: the signing secret, in plain
  unfoldable pub register_config : WebhookConfig → Tx F Text
  register_config config =
      if not (config.event == session_completed)
      then raise rejected
      else elim (validate_url lib.net service.policy config.target_url) [
        | none ↦ raise rejected
        | some validated ↦
            with_secret config (lib.render validated) (signing_secret lib env config.secret_token)
      ]

insert_newest : WebhookLog → List WebhookLog → List WebhookLog
insert_newest row [] = row ∷ []
insert_newest row (r ∷ rows) =
    let later = insert_newest row rows in
    if ltb r.created_at row.created_at then row ∷ r ∷ rows else r ∷ later

-- Order("created_at DESC"); rows of one time stay in the order of the table.
unfoldable pub newest_first : List WebhookLog → List WebhookLog
unfolding insert_newest
newest_first rows = insert_all rows []
  where
    insert_all : List WebhookLog → List WebhookLog → List WebhookLog
    insert_all [] out = out
    insert_all (r ∷ rs) out = insert_all rs (insert_newest r out)

unfoldable pub limit : ℕ → List WebhookLog → List WebhookLog
limit zero rows = []
limit (suc n) [] = []
limit (suc n) (r ∷ rows) = r ∷ limit n rows

-- `GetWebhookLogs`
unfoldable pub get_webhook_logs : {F : Type 0} → Tx F (List WebhookLog)
unfolding newest_first limit
get_webhook_logs = query (λ db. limit 100 (newest_first db.webhooks.logs))
