-- ===== src/Webhook/Tests.antt =====
-- A webhook that is registered and called.
use tao_core_go.Prelude.{
  ℕ, Text, true, false, Option, none, some, List, [], ◌∷◌, ◌++◌, ◌≡◌, refl, arith, any, text_eq,
  codes,
}
use tao_core_go.Models.{WebhookConfig}
use tao_core_go.Text.{len}
use tao_core_go.Store.{Db, ok, quiet, write}
use tao_core_go.Outbound.{Url, validate_url}
use tao_core_go.Cipher.{Bytes, Aead, Crypto, encrypt}
use tao_core_go.Cipher.RoundTrip.{CryptoLaws}
use tao_core_go.Webhook.{WebhookLib, Service, session_completed}
use tao_core_go.Webhook.Queue.{Op, sent, taken, run_queue}
use tao_core_go.Webhook.Queue.Order.{IsFifo, run_queue-IsFifo}
use tao_core_go.Webhook.Queue.Served.{IsServed, receipts, run_queue-IsServed}
use tao_core_go.Webhook.Registration.{RegisterEnv, signing_secret, create_config, register_config}
use tao_core_go.Webhook.Registration.Secret.{FillsNonce, IsRegistered, register_config-IsRegistered}
use tao_core_go.Webhook.Sending.{SendEnv, process_event}
use tao_core_go.Webhook.Sending.Signed.{AreSigned, process_event-AreSigned}

abbrev ops : List (Op ℕ)
ops = sent 1 ∷ sent 2 ∷ taken ∷ sent 3 ∷ taken ∷ []

run_queue-IsFifo_example : IsFifo ops
run_queue-IsFifo_example = run_queue-IsFifo ops

run_queue-IsServed_example : IsServed (receipts ops) (7 ∷ []) [] (run_queue ops (7 ∷ []) []).1
run_queue-IsServed_example = run_queue-IsServed ops (7 ∷ []) []

abbrev unmark : Bytes → Bytes → Option Bytes
unmark salt [] = none
unmark salt (b ∷ bs) = some bs

-- A cipher that seals by writing the plaintext after a mark
abbrev marked : Aead
marked = record { nonce_size = 2; seal = λ salt plaintext. 9 ∷ plaintext; open_sealed = unmark }

abbrev crypto : Crypto
crypto = record {
  decode_std = λ t. some t;
  decode_url = λ t. some t;
  encode_url = λ b. b;
  new_gcm = λ key. some marked;
}

crypto-CryptoLaws : CryptoLaws crypto marked
crypto-CryptoLaws = record { decode-encode = λ b. refl; open-seal = λ salt plaintext h. refl }

abbrev hook : Url
hook = record {
  scheme = codes "https";
  host = codes "h.org";
  hostname = codes "h.org";
  has_user = false;
  path = codes "/x";
  fragment = [];
}

abbrev lib : WebhookLib
lib = record {
  net = record {
    parse_url = λ t. some hook;
    parse_ip = λ t. none;
    lookup = λ t. none;
    to_lower = λ t. t;
  };
  crypto = crypto;
  render = λ url. codes "https://h.org/x";
  bytes_of = λ t. t;
  text_of = λ b. b;
  hmac_sha256 = λ key message. key ++ message;
  hex = λ b. b;
  trim = λ b. b;
  call = λ post. some (record { status_code = 204; body = [] });
  error_text = λ e. [];
}

abbrev service : Service
service = record { policy = record { allowed_hosts = codes "h.org" ∷ [] }; cipher = some marked }

abbrev secret : Text
secret = codes "0123456789abcdef0123456789abcdef"

abbrev config : WebhookConfig
config = record {
  id = codes "c";
  event = session_completed;
  target_url = codes "https://h.org/x";
  http_method = [];
  secret_token = secret;
  is_active = true;
  created_at = 0;
}

abbrev env : RegisterEnv
env = record {
  new_id = codes "n";
  now = 7;
  random_secret = none;
  cipher_random = some (1 ∷ 2 ∷ []);
}

abbrev tables : Db ℕ
tables = record {
  deliveries = [];
  tests = [];
  test_sections = [];
  test_items = [];
  items = [];
  delivery_groups = [];
  user_groups = [];
  sessions = [];
  responses = [];
  proctor_events = [];
  lti = record { platforms = []; states = []; resource_links = []; link_sessions = [] };
  webhooks = record { configs = []; logs = [] };
}

env-FillsNonce : FillsNonce marked env
env-FillsNonce salt h = ground arith

registered : (register_config lib service env config (quiet tables)).0 ≡ ok secret
unfolding register_config text_eq validate_url any signing_secret len encrypt create_config write
registered = refl

register_config-IsRegistered_example :
    IsRegistered lib service env marked crypto-CryptoLaws env-FillsNonce refl config
      (quiet tables)
      secret
      (register_config lib service env config (quiet tables)).1
register_config-IsRegistered_example =
    register_config-IsRegistered lib service env marked crypto-CryptoLaws env-FillsNonce refl config
      (quiet tables) secret registered

abbrev send_env : ℕ → SendEnv
send_env i = record {
  timestamp = codes "170";
  delivery_id = codes "x";
  log_id = i ∷ [];
  logged_at = 9;
}

abbrev one_config : Db ℕ
one_config = (register_config lib service env config (quiet tables)).1.db

process_event-AreSigned_example :
    AreSigned lib service send_env session_completed
      (codes "body")
      one_config
      (process_event lib service send_env session_completed
        (some (codes "body"))
        (quiet one_config)).0
process_event-AreSigned_example =
    process_event-AreSigned lib service send_env session_completed (codes "body") (quiet one_config)
