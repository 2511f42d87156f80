-- ===== src/Lti.antt =====
-- internal/service/lti_service.go. JSON web tokens, HTTP, base64, SHA-256, PEM and X.509 and the
-- encoding of a URL are parameters; what the service checks of their results is modelled.
pub mod Urls
pub mod Keys
pub mod Login
pub mod Launch
pub mod History
mod Tests
use tao_core_go.Prelude.{ℕ, Text, Bool, Option, List, codes}
use tao_core_go.Store.{Tx, Error, Result, ok, err}
use tao_core_go.Outbound.{Net, Url}

-- The header of a token: its key id, where that is a string, and its algorithm.
pub record TokenHeader : Type 0 where
  pub kid : Option Text
  pub alg : Text

-- `rsa.PublicKey`
pub record RsaKey : Type 0 where
  pub modulus : ℕ
  pub exponent : ℕ

-- `ltiClaims`, with those of the registered claims that the service reads itself
pub record LtiClaims : Type 0 where
  pub claimed_nonce : Text
  pub message_type : Text
  pub lti_version : Text
  pub deployment_id : Text
  pub target_link_uri : Text
  pub resource_link_id : Text
  pub roles : List Text
  pub line_item : Text
  pub scopes : List Text
  pub subject : Text
  pub issued_at : Option ℕ

-- The options of `ParseWithClaims`; the expiry and the time of issue are always checked.
pub record ParseOptions : Type 0 where
  pub valid_method : Text
  pub issuer : Text
  pub audience : Text
  pub leeway : ℕ

-- One entry of a JSON web key set
pub record Jwk : Type 0 where
  pub kty : Text
  pub kid : Text
  pub use_for : Text
  pub alg : Text
  pub n : Text
  pub e : Text

pub record HttpReply : Type 0 where
  pub status_code : ℕ
  pub body : List ℕ

-- What the service takes from the packages that it imports.
pub record Lib : Type 0 where
  pub net : Net
  pub fold : ℕ → ℕ
  -- `ParseUnverified` with RS256 as the only valid method
  pub parse_unverified : Text → Option TokenHeader
  -- `ParseWithClaims` with the key function, and `token.Valid`
  pub parse_with_claims :
      ParseOptions → (TokenHeader → Option RsaKey) → Text → Option (LtiClaims × Bool)
  -- a GET request of the transport, and the keys in its JSON body
  pub http_get : Url → Option HttpReply
  pub parse_jwks : List ℕ → Option (List Jwk)
  -- base64.RawURLEncoding and SHA-256 of a string's bytes
  pub decode_url : Text → Option (List ℕ)
  pub encode_url : List ℕ → Text
  pub sha256 : Text → List ℕ
  -- the URL with the keys of its query set
  pub set_query : Text → List (Text × Text) → Text

abbrev pub rs256 : Text
rs256 = codes "RS256"

abbrev pub masked : {A : Type 0} → Error → Result A → Result A
masked e (ok a) = ok a
masked e (err e') = err e

module _ {F A : Type 0} where
  -- A call whose every error the caller turns into the error `e`
  abbrev pub mask : Error → Tx F A → Tx F A
  mask e m w = let (r, w') = m w in (masked e r, w')

  -- A call whose result and error the caller drops
  abbrev pub ignore : Tx F A → Tx F Unit
  ignore m w = (ok tt, (m w).1)
