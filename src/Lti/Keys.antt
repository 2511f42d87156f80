-- ===== src/Lti/Keys.antt =====
-- The keys of a platform: `signingKey`, `tokenKeyID` and `rsaKey`.
pub mod Bounds
use tao_core_go.Prelude.{
  ℕ, ◌+◌, ◌*◌, ◌%◌, ◌^◌, Text, Bool, true, false, not, ◌&&◌, ◌||◌, Option, none, some, List, [],
  ◌∷◌, length, codes, ltb, leb, eqb, ◌==◌, text_eq_instance, if◌then◌else◌,
}
use tao_core_go.Prelude.Maps.{get, put}
use tao_core_go.Text.{len, is_empty}
use tao_core_go.Outbound.{Url, validate_url}
use tao_core_go.Models.{LtiPlatform}
use tao_core_go.Lti.{TokenHeader, RsaKey, Jwk, HttpReply, Lib, rs256}
use tao_core_go.Lti.Urls.{hostnames, safe_client}

-- `tokenKeyID`; a kid that is missing or no string is empty
unfoldable pub token_key_id : Lib → Text → Option Text
token_key_id lib raw = elim (lib.parse_unverified raw) [
  | none ↦ none
  | some header ↦ elim header.kid [
    | none ↦ none
    | some kid ↦ if is_empty kid || not (header.alg == rs256) then none else some kid
  ]
]

-- big.Int.SetBytes: the bytes from the most significant on
unfoldable pub big_endian : ℕ → List ℕ → ℕ
big_endian acc [] = acc
big_endian acc (b ∷ bs) = big_endian (acc * 256 + b) bs

-- The loop over the exponent's bytes, in 64 bits
unfoldable pub exponent_of : ℕ → List ℕ → ℕ
exponent_of acc [] = acc
exponent_of acc (b ∷ bs) = exponent_of ((acc * 256 % 2 ^ 64 + b) % 2 ^ 64) bs

-- A length of less than 2048 bits is a value below 2^2047; one of more than 8192 bits is a value
-- from 2^8192 on.
unfoldable pub checked_key : ℕ → ℕ → Option RsaKey
checked_key modulus exponent =
    if ltb modulus (2 ^ 2047) || leb (2 ^ 8192) modulus || ltb exponent 3 || eqb (exponent % 2) 0
    then none
    else some (record { modulus = modulus; exponent = exponent })

-- `rsaKey`
unfoldable pub rsa_key : Lib → Text → Text → Option RsaKey
rsa_key lib encoded_n encoded_e =
    if ltb 1368 (len encoded_n) then none else elim (lib.decode_url encoded_n) [
      | none ↦ none
      | some n_bytes ↦ if eqb (length n_bytes) 0 then none else elim (lib.decode_url encoded_e) [
        | none ↦ none
        | some e_bytes ↦
            if eqb (length e_bytes) 0 || ltb 4 (length e_bytes)
            then none
            else checked_key (big_endian 0 n_bytes) (exponent_of 0 e_bytes)
      ]
    ]

-- The keys of a set that are not meant for RS256 signatures are passed over.
unfoldable pub is_usable : Jwk → Bool
is_usable jwk =
    jwk.kty == codes "RSA"
    && not (is_empty jwk.kid)
    && (is_empty jwk.alg || jwk.alg == rs256)
    && (is_empty jwk.use_for || jwk.use_for == codes "sig")

abbrev pub add_key : Lib → Jwk → List (Text × RsaKey) → List (Text × RsaKey)
add_key lib jwk keys =
    if is_usable jwk
    then elim (rsa_key lib jwk.n jwk.e) [ none ↦ keys | some key ↦ put jwk.kid key keys ]
    else keys

unfoldable pub collect : Lib → List (Text × RsaKey) → List Jwk → List (Text × RsaKey)
collect lib keys [] = keys
collect lib keys (jwk ∷ jwks) = collect lib (add_key lib jwk keys) jwks

-- `cachedJWKSet`
pub record CachedJwkSet : Type 0 where
  pub keys : List (Text × RsaKey)
  pub expires_at : ℕ

abbrev pub Cache : Type 0
Cache = List (Text × CachedJwkSet)

-- The body of the reply, read up to one byte past its limit of a mebibyte
unfoldable pub keys_of_reply : Lib → HttpReply → Option (List (Text × RsaKey))
keys_of_reply lib reply =
    if not (eqb reply.status_code 200) || ltb (2 ^ 20) (length reply.body)
    then none
    else elim (lib.parse_jwks reply.body) [
      | none ↦ none
      | some jwks ↦ if ltb 100 (length jwks) then none else some (collect lib [] jwks)
    ]

-- The part of `signingKey` that asks the platform
unfoldable pub fetch_keys : Lib → Text → Option (List (Text × RsaKey))
unfolding keys_of_reply
fetch_keys lib url = elim (safe_client lib.net url (hostnames lib.net (url ∷ []))) [
  | none ↦ none
  | some policy ↦ elim (validate_url lib.net policy url) [
    | none ↦ none
    | some validated ↦ elim (lib.http_get validated) [
      | none ↦ none
      | some reply ↦ keys_of_reply lib reply
    ]
  ]
]

abbrev pub fifteen_minutes : ℕ
fifteen_minutes = 900_000_000_000

abbrev pub store_keys :
    ℕ → Cache → Text → Text → Option (List (Text × RsaKey)) → Option RsaKey × Cache
store_keys stored_at cache url kid none = (none, cache)
store_keys stored_at cache url kid (some keys) =
    (get kid keys, put url (record { keys = keys; expires_at = stored_at + fifteen_minutes }) cache)

abbrev pub use_cached :
    Lib → ℕ → ℕ → Cache → Text → Text → Option CachedJwkSet → Option RsaKey × Cache
use_cached lib checked_at stored_at cache url kid none =
    store_keys stored_at cache url kid (fetch_keys lib url)
use_cached lib checked_at stored_at cache url kid (some cached) =
    if ltb checked_at cached.expires_at
    then (get kid cached.keys, cache)
    else store_keys stored_at cache url kid (fetch_keys lib url)

-- `signingKey`, at the two times at which it reads the clock
unfoldable pub signing_key : Lib → ℕ → ℕ → Cache → LtiPlatform → Text → Option RsaKey × Cache
unfolding fetch_keys
signing_key lib checked_at stored_at cache platform kid =
    use_cached lib checked_at stored_at cache platform.key_set_url kid
      (get platform.key_set_url cache)
