-- ===== src/Webhook.antt =====
-- internal/service/webhook_service.go. The HTTP client, HMAC-SHA-256, the encodings and the text of
-- an error are parameters. A response body is its bytes, which need be no valid text.
pub mod Queue
pub mod Registration
pub mod Sending
mod Tests
use tao_core_go.Prelude.{ℕ, Text, Option, List, codes}
use tao_core_go.Outbound.{Net, Url, OutboundPolicy}
use tao_core_go.Cipher.{Bytes, Aead, Crypto}

pub data SendError : Type 0 where
  -- the URL is not allowed, the secret cannot be decrypted, the call fails
  bad_url bad_secret failed_call : SendError

pub record Response : Type 0 where
  pub status_code : ℕ
  pub body : Bytes

-- A request of the service: where it goes, its three headers and its body
pub record Post : Type 0 where
  pub url : Url
  pub delivery_id : Text
  pub timestamp : Text
  pub signature : Text
  pub payload : Bytes

-- What the service takes from the packages that it imports.
pub record WebhookLib : Type 0 where
  pub net : Net
  pub crypto : Crypto
  -- `URL.String`
  pub render : Url → Text
  -- the bytes of a text, and the text of bytes in UTF-8
  pub bytes_of : Text → Bytes
  pub text_of : Bytes → Text
  -- hmac.New(sha256.New, key) of a message, and hex.EncodeToString
  pub hmac_sha256 : Bytes → Bytes → Bytes
  pub hex : Bytes → Text
  -- strings.TrimSpace of the bytes of a response
  pub trim : Bytes → Bytes
  -- the event in JSON; none where json.Marshal fails
  pub call : Post → Option Response
  pub error_text : SendError → Bytes

-- `webhookService`, as far as it does not change
pub record Service : Type 0 where
  pub policy : OutboundPolicy
  pub cipher : Option Aead

abbrev pub session_completed : Text
session_completed = codes "session.completed"
