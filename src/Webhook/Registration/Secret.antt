-- ===== src/Webhook/Registration/Secret.antt =====
-- What a registration stores.
use mathlib.Core.Path.{subst}
use tao_core_go.Prelude.{
  ◌≤◌, Text, Option, none, some, [], ◌∷◌, ◌++◌, ◌≡◌, refl, inl, inr, arith, any, length, ltb, ◌==◌,
  text_eq_instance, text_eq_iff, Bool-cases, Option-cases,
}
use tao_core_go.Text.{len}
use tao_core_go.Models.{WebhookConfig}
use tao_core_go.Store.{World, Result, ok, duplicated_key, pure}
use tao_core_go.Store.Frame.{continue_rule, guarded_done}
use tao_core_go.Outbound.{Url, validate_url}
use tao_core_go.Cipher.{Bytes, Aead, encrypt, decrypt}
use tao_core_go.Cipher.RoundTrip.{CryptoLaws, decrypt-encrypt}
use tao_core_go.Webhook.{WebhookLib, Service, session_completed}
use tao_core_go.Webhook.Registration.{
  RegisterEnv, with_configs, create_config, signing_secret, stored_config, store_encrypted,
  with_secret, register_config,
}

-- The random reader fills the nonce.
abbrev pub FillsNonce : Aead → RegisterEnv → Type 0
FillsNonce aead env =
    (nonce : Bytes) → env.cipher_random ≡ some nonce → length nonce ≡ aead.nonce_size

module _ {F : Type 0} (lib : WebhookLib) (service : Service) (env : RegisterEnv) (aead : Aead)
    (laws : CryptoLaws lib.crypto aead) (sized : FillsNonce aead env)
    (keyed : service.cipher ≡ some aead) (config : WebhookConfig) (w : World F) where
  -- One new row for the one event, with an allowed URL; its secret is long enough, and what is
  -- stored of it decrypts to it.
  pub record IsRegistered (secret : Text) (w' : World F) : Type 0 where
    pub row : WebhookConfig
    pub added : w'.db ≡ with_configs (w.db.webhooks.configs ++ row ∷ []) w.db
    pub event : row.event ≡ session_completed
    pub url : Url
    pub allowed : validate_url lib.net service.policy config.target_url ≡ some url
    pub target : row.target_url ≡ lib.render url
    pub long : 32 ≤ len secret
    pub decrypts : decrypt lib.crypto service.cipher row.secret_token ≡ some (lib.bytes_of secret)

  abbrev Registers : Result Text × World F → Type 0
  Registers x = (secret : Text) → x.0 ≡ ok secret → IsRegistered secret x.1

  no_random :
      (plaintext : Bytes) (token : Text)
      → encrypt lib.crypto (some aead) none plaintext ≡ some token
      → ⊥
  unfolding encrypt
  no_random plaintext token h = cc

  create_config-done :
      (row : WebhookConfig) (done : Unit)
      → (create_config row w).0 ≡ ok done
      → (create_config row w).1.db ≡ with_configs (w.db.webhooks.configs ++ row ∷ []) w.db
  unfolding create_config
  create_config-done row done h =
      (guarded_done (λ db. any (λ r. r.id == row.id) db.webhooks.configs) duplicated_key
        (λ db. with_configs (db.webhooks.configs ++ row ∷ []) db) w done h).1

  encrypted_decrypts :
      (random : Option Bytes) (plaintext : Bytes) (token : Text)
      → env.cipher_random ≡ random
      → encrypt lib.crypto service.cipher random plaintext ≡ some token
      → decrypt lib.crypto service.cipher token ≡ some plaintext
  encrypted_decrypts none plaintext token drawn h =
      absurd (no_random plaintext token (rw keyed at h))
  encrypted_decrypts (some nonce) plaintext token drawn h = rw keyed (
      decrypt-encrypt lib.crypto aead laws nonce plaintext token (sized nonce drawn)
        (rw keyed at h))

  store_encrypted-Registers :
      (url : Url) (secret : Text) (token : Option Text)
      → config.event ≡ session_completed
      → validate_url lib.net service.policy config.target_url ≡ some url
      → 32 ≤ len secret
      → encrypt lib.crypto service.cipher env.cipher_random (lib.bytes_of secret) ≡ token
      → Registers (store_encrypted lib service env config (lib.render url) secret token w)
  store_encrypted-Registers url secret none event allowed long e = λ s h. cc
  store_encrypted-Registers url secret (some token) event allowed long e =
      let row = stored_config env config (lib.render url) token in
      continue_rule Registers (λ done. pure secret) (create_config row w).0 (create_config row w).1
        (λ e' failed s h. cc)
        (λ done created s h.
          let same : secret ≡ s = cc in
          subst (λ t. IsRegistered t (create_config row w).1) same
            (record {
              row = row;
              added = create_config-done row done created;
              event = unfold stored_config in event;
              url = url;
              allowed = allowed;
              target = unfold stored_config in refl;
              long = long;
              decrypts =
                  unfold stored_config in
                  encrypted_decrypts env.cipher_random (lib.bytes_of secret) token refl e;
            }))

  with_secret-Registers :
      (url : Url) (secret : Option Text)
      → config.event ≡ session_completed
      → validate_url lib.net service.policy config.target_url ≡ some url
      → Registers (with_secret lib service env config (lib.render url) secret w)
  with_secret-Registers url none event allowed = λ s h. cc
  with_secret-Registers url (some secret) event allowed = elim (Bool-cases (ltb (len secret) 32)) [
    | inl short ↦ rw short (λ s h. cc)
    | inr long ↦ rw long (store_encrypted-Registers url secret _ event allowed (ground arith) refl)
  ]

  register_config-Registers : Registers (register_config lib service env config w)
  unfolding register_config
  register_config-Registers = elim (Bool-cases (config.event == session_completed)) [
    | inl event ↦ elim (Option-cases (validate_url lib.net service.policy config.target_url)) [
      | inl refused ↦ rw (event, refused) (λ s h. cc)
      | inr (url, allowed) ↦
          rw (event, allowed)
            (with_secret-Registers url (signing_secret lib env config.secret_token)
              ((text_eq_iff config.event session_completed).0 event) allowed)
    ]
    | inr other ↦ rw other (λ s h. cc)
  ]

  -- If decoding undoes encoding and opening undoes sealing, the nonce drawn has the right size and
  -- the service has a key, a registration that succeeds adds exactly one row, for the event
  -- session.completed and with an allowed URL, its secret has at least 32 bytes, and what is
  -- stored of it decrypts to the secret returned.
  pub register_config-IsRegistered :
      (secret : Text)
      → (register_config lib service env config w).0 ≡ ok secret
      → IsRegistered secret (register_config lib service env config w).1
  register_config-IsRegistered = register_config-Registers
