-- ===== src/Webhook/Sending/Signed.antt =====
-- The requests that a worker makes for an event.
use mathlib.Core.Path.{subst}
use tao_core_go.Prelude.{
  ℕ, suc, ◌≤◌, Text, true, Option, none, some, List, [], ◌∷◌, ◌++◌, ◌≡◌, refl, ap, inl, inr, arith,
  All, All-append, length, length-append, length-filter, count, filter, codes, text_eq_instance,
  text_eq_iff,
}
use tao_core_go.Prelude.Rows.{In, In-filter}
use tao_core_go.Models.{WebhookConfig}
use tao_core_go.Store.{Db, World, Result, ok, err, query}
use tao_core_go.Store.Frame.{query_found}
use tao_core_go.Outbound.{Url, validate_url}
use tao_core_go.Outbound.Policy.{IsAllowed, validate_url-IsAllowed}
use tao_core_go.Cipher.{Bytes, decrypt}
use tao_core_go.Webhook.{WebhookLib, Service, Post}
use tao_core_go.Webhook.Sending.{
  SendEnv, ready, failed, Prepared, dot, signature_of, sign, sign_for, prepare, posts_of,
  send_webhook, send_all, subscribed, send_to, process_event,
}

module _ (lib : WebhookLib) (service : Service) (event_name : Text) (payload : Bytes)
    (configs : List WebhookConfig) where
  -- The request goes to an allowed URL of an active configuration of the event, and carries the
  -- payload, signed with its time and identifier by the secret of that configuration.
  pub record IsSigned (post : Post) : Type 0 where
    pub config : WebhookConfig
    pub listed : In config configs
    pub same_event : config.event ≡ event_name
    pub active : config.is_active ≡ true
    pub allowed : IsAllowed lib.net service.policy config.target_url post.url
    pub secret : Bytes
    pub decrypted : decrypt lib.crypto service.cipher config.secret_token ≡ some secret
    pub whole : post.payload ≡ payload
    pub signed :
        post.signature
        ≡ codes "v1="
          ++ lib.hex (
              lib.hmac_sha256 secret (
                lib.bytes_of (post.timestamp ++ (dot ++ (post.delivery_id ++ dot)))
                ++ post.payload))

  abbrev Sends : List Post → Type 0
  Sends posts = All IsSigned posts

  sign-Sends :
      (env : SendEnv) (config : WebhookConfig) (url : Url) (secret : Option Bytes)
      → In config configs
      → subscribed event_name config ≡ true
      → validate_url lib.net service.policy config.target_url ≡ some url
      → decrypt lib.crypto service.cipher config.secret_token ≡ secret
      → Sends (posts_of (sign lib service env config payload url secret))
  unfolding subscribed signature_of
  sign-Sends env config url none listed sub valid e = tt
  sign-Sends env config url (some secret) listed sub valid e = (
    record {
      config = config;
      listed = listed;
      same_event = ground (arith, text_eq_iff config.event event_name);
      active = ground arith;
      allowed = validate_url-IsAllowed lib.net service.policy config.target_url url valid;
      secret = secret;
      decrypted = e;
      whole = refl;
      signed = refl;
    },
    tt,
  )

  sign_for-Sends :
      (env : SendEnv) (config : WebhookConfig) (url : Option Url)
      → In config configs
      → subscribed event_name config ≡ true
      → validate_url lib.net service.policy config.target_url ≡ url
      → Sends (posts_of (sign_for lib service env config payload url))
  sign_for-Sends env config none listed sub valid = tt
  sign_for-Sends env config (some url) listed sub valid =
      sign-Sends env config url _ listed sub valid refl

  prepare-Sends :
      (env : SendEnv) (config : WebhookConfig)
      → In config configs
      → subscribed event_name config ≡ true
      → Sends (posts_of (prepare lib service env config payload))
  unfolding prepare
  prepare-Sends env config listed sub = sign_for-Sends env config _ listed sub refl

  posts_of-length : (p : Prepared) → length (posts_of p) ≤ 1
  posts_of-length (ready post) = omega arith
  posts_of-length (failed e) = omega arith

  -- At most one request for each configuration
  send_all-Sends :
      {F : Type 0} (env : ℕ → SendEnv) (i : ℕ) (some_configs : List WebhookConfig) (w : World F)
      → ((c : WebhookConfig) → In c some_configs → In c configs × (subscribed event_name c ≡ true))
      → let posts = (send_all lib service env i some_configs event_name payload w).0 in
        Sends posts × (length posts ≤ length some_configs)
  unfolding send_all send_webhook
  send_all-Sends env i [] w within = (tt, omega arith)
  send_all-Sends env i (config ∷ rest) w within =
      let (listed, sub) = within config (inl refl) in
      let first = prepare lib service (env i) config payload in
      let w' = (send_webhook lib service (env i) config event_name payload w).1 in
      let (later, few) = send_all-Sends env (suc i) rest w' (λ c h. within c (inr h)) in
      (
        All-append IsSigned (posts_of first) _ (prepare-Sends (env i) config listed sub) later,
        omega (
          arith,
          few,
          posts_of-length first,
          length-append (posts_of first)
              (send_all lib service env (suc i) rest event_name payload w').0,
        ),
      )

module _ {F : Type 0} (lib : WebhookLib) (service : Service) (env : ℕ → SendEnv) (event_name : Text)
    (payload : Bytes) where
  -- The requests of one event, in terms of the configurations in the table
  abbrev pub AreSigned : Db F → List Post → Type 0
  AreSigned db posts =
      All (IsSigned lib service event_name payload db.webhooks.configs) posts
      × (length posts ≤ count (subscribed event_name) db.webhooks.configs)

  send_to-AreSigned :
      (db : Db F) (r : Result (List WebhookConfig)) (w : World F)
      → ((found : List WebhookConfig)
          → r ≡ ok found
          → found ≡ filter (subscribed event_name) db.webhooks.configs)
      → AreSigned db (send_to lib service env event_name (some payload) (r, w)).0
  send_to-AreSigned db (err e) w found = (tt, omega arith)
  send_to-AreSigned db (ok configs) w found =
      let e = found configs refl in
      let (signed, few) =
        send_all-Sends lib service event_name payload db.webhooks.configs env 0 configs w
          (λ c h. In-filter (subscribed event_name) db.webhooks.configs c (subst (In c) e h)) in
      (
        signed,
        omega (arith, few, ap length e, length-filter (subscribed event_name) db.webhooks.configs),
      )

  -- Each request that an event sets off goes to an allowed URL of an active configuration of that
  -- event, and carries the payload with its signature under the secret of that configuration over
  -- its time, identifier and payload; there are no more requests than such configurations.
  pub process_event-AreSigned :
      (w : World F) → AreSigned w.db (process_event lib service env event_name (some payload) w).0
  unfolding process_event
  process_event-AreSigned w =
      let f : Db F → List WebhookConfig =
        λ db. filter (subscribed event_name) db.webhooks.configs in
      send_to-AreSigned w.db (query f w).0 (query f w).1 (λ found h. query_found f w found h)
