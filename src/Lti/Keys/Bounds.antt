-- ===== src/Lti/Keys/Bounds.antt =====
-- The keys that the service accepts.
use tao_core_go.Prelude.{
  ℕ, ◌+◌, ◌%◌, ◌^◌, ◌≤◌, ◌<◌, Text, not, Option, none, some, List, [], ◌∷◌, ◌≡◌, refl, inl, inr,
  arith, length, All, ltb, eqb, ◌||◌, if◌then◌else◌, Bool-cases, Option-cases,
}
use tao_core_go.Prelude.Maps.{get, All-put, All-get}
use mathlib.Core.Path.{subst}
use tao_core_go.Text.{len}
use tao_core_go.Outbound.{validate_url}
use tao_core_go.Models.{LtiPlatform}
use tao_core_go.Lti.{RsaKey, Jwk, HttpReply, Lib}
use tao_core_go.Lti.Urls.{hostnames, safe_client}
use tao_core_go.Lti.Keys.{
  exponent_of, big_endian, checked_key, rsa_key, is_usable, add_key, collect, CachedJwkSet, Cache,
  keys_of_reply, fetch_keys, fifteen_minutes, store_keys, use_cached, signing_key,
}

-- An RSA key of 2048 to 8192 bits, with an odd exponent from 3 on that fits four bytes
pub record IsSound (key : RsaKey) : Type 0 where
  pub long : 2 ^ 2047 ≤ key.modulus
  pub short : key.modulus < 2 ^ 8192
  pub at_least : 3 ≤ key.exponent
  pub at_most : key.exponent < 2 ^ 32
  pub odd : key.exponent % 2 ≡ 1

-- What base64 documents: a byte is below 256.
abbrev pub DecodesBytes : Lib → Type 0
DecodesBytes lib = (t : Text) (bs : List ℕ) → lib.decode_url t ≡ some bs → All (λ b. b < 256) bs

exponent_of_four : (bs : List ℕ) → All (λ b. b < 256) bs → length bs ≤ 4 → exponent_of 0 bs < 2 ^ 32
unfolding exponent_of
exponent_of_four [] small h = omega arith
exponent_of_four (a ∷ []) small h = omega arith
exponent_of_four (a ∷ b ∷ []) small h = omega arith
exponent_of_four (a ∷ b ∷ c ∷ []) small h = omega arith
exponent_of_four (a ∷ b ∷ c ∷ d ∷ []) small h = omega arith
exponent_of_four (a ∷ b ∷ c ∷ d ∷ e ∷ bs) small h = absurd (omega arith)

checked_key-IsSound :
    (n e : ℕ) (key : RsaKey) → e < 2 ^ 32 → checked_key n e ≡ some key → IsSound key
unfolding checked_key
checked_key-IsSound n e key h k = ground arith

module _ (lib : Lib) (bytes : DecodesBytes lib) where
  exponent_step :
      (nb eb : List ℕ) (key : RsaKey)
      → All (λ b. b < 256) eb
      → (if eqb (length eb) 0 || ltb 4 (length eb)
          then none
          else checked_key (big_endian 0 nb) (exponent_of 0 eb))
        ≡ some key
      → IsSound key
  exponent_step nb eb key small h = elim (Bool-cases (eqb (length eb) 0 || ltb 4 (length eb))) [
    | inl long ↦ let k = rw long at h in cc
    | inr fits ↦
        checked_key-IsSound (big_endian 0 nb) (exponent_of 0 eb) key
          (exponent_of_four eb small (ground arith)) (rw fits at h)
  ]

  -- Where base64 gives bytes, a key of a key set that is accepted is sound.
  pub rsa_key-IsSound : (n e : Text) (key : RsaKey) → rsa_key lib n e ≡ some key → IsSound key
  unfolding rsa_key
  rsa_key-IsSound n e key h = elim (Bool-cases (ltb 1368 (len n))) [
    | inl long ↦ let k = rw long at h in cc
    | inr fits ↦ elim (Option-cases (lib.decode_url n)) [
      | inl failed ↦ let k = rw (fits, failed) at h in cc
      | inr (nb, en) ↦ elim (Bool-cases (eqb (length nb) 0)) [
        | inl blank ↦ let k = rw (fits, en, blank) at h in cc
        | inr filled ↦ elim (Option-cases (lib.decode_url e)) [
          | inl failed ↦ let k = rw (fits, en, filled, failed) at h in cc
          | inr (eb, ee) ↦ exponent_step nb eb key (bytes e eb ee) (rw (fits, en, filled, ee) at h)
        ]
      ]
    ]
  ]

  abbrev pub AreSound : List (Text × RsaKey) → Type 0
  AreSound keys = All (λ entry. IsSound entry.1) keys

  add_key-AreSound :
      (jwk : Jwk) (keys : List (Text × RsaKey)) → AreSound keys → AreSound (add_key lib jwk keys)
  add_key-AreSound jwk keys a = elim (Bool-cases (is_usable jwk)) [
    | inl usable ↦ elim (Option-cases (rsa_key lib jwk.n jwk.e)) [
      | inl refused ↦ rw (usable, refused) a
      | inr (key, accepted) ↦
          rw (usable, accepted)
            (All-put (λ entry. IsSound entry.1) jwk.kid key keys
              (rsa_key-IsSound jwk.n jwk.e key accepted) a)
    ]
    | inr other ↦ rw other a
  ]

  collect-AreSound :
      (keys : List (Text × RsaKey)) (jwks : List Jwk)
      → AreSound keys
      → AreSound (collect lib keys jwks)
  unfolding collect
  collect-AreSound keys [] a = a
  collect-AreSound keys (jwk ∷ jwks) a =
      collect-AreSound (add_key lib jwk keys) jwks (add_key-AreSound jwk keys a)

  keys_of_reply-AreSound :
      (reply : HttpReply) (keys : List (Text × RsaKey))
      → keys_of_reply lib reply ≡ some keys
      → AreSound keys
  unfolding keys_of_reply
  keys_of_reply-AreSound reply keys h =
      elim (Bool-cases (not (eqb reply.status_code 200) || ltb (2 ^ 20) (length reply.body))) [
        | inl refused ↦ let k = rw refused at h in cc
        | inr usual ↦ elim (Option-cases (lib.parse_jwks reply.body)) [
          | inl failed ↦ let k = rw (usual, failed) at h in cc
          | inr (jwks, parsed) ↦ elim (Bool-cases (ltb 100 (length jwks))) [
            | inl many ↦ let k = rw (usual, parsed, many) at h in cc
            | inr few ↦
                let e : some (collect lib [] jwks) ≡ some keys = rw (usual, parsed, few) at h in
                subst AreSound (cc) (collect-AreSound [] jwks tt)
          ]
        ]
      ]

  fetch_keys-AreSound :
      (url : Text) (keys : List (Text × RsaKey)) → fetch_keys lib url ≡ some keys → AreSound keys
  unfolding fetch_keys
  fetch_keys-AreSound url keys h =
      elim (Option-cases (safe_client lib.net url (hostnames lib.net (url ∷ [])))) [
        | inl refused ↦ let k = rw (refused, fetch_keys) at h in cc
        | inr (policy, allowed) ↦ elim (Option-cases (validate_url lib.net policy url)) [
          | inl refused ↦ let k = rw (allowed, refused, fetch_keys) at h in cc
          | inr (validated, valid) ↦ elim (Option-cases (lib.http_get validated)) [
            | inl failed ↦ let k = rw (allowed, valid, failed, fetch_keys) at h in cc
            | inr (reply, got) ↦
                keys_of_reply-AreSound reply keys (rw (allowed, valid, got, fetch_keys) at h)
          ]
        ]
      ]

  -- The keys of every set in the cache are sound.
  abbrev pub IsSoundCache : Cache → Type 0
  IsSoundCache cache = All (λ entry. AreSound entry.1.keys) cache

  abbrev pub IsSoundIfAny : Option RsaKey → Type 0
  IsSoundIfAny none = Unit
  IsSoundIfAny (some key) = IsSound key

  -- A result of a key lookup: the key, if there is one, is sound, and so is the cache.
  abbrev pub IsSoundResult : Option RsaKey × Cache → Type 0
  IsSoundResult r = IsSoundIfAny r.0 × IsSoundCache r.1

  found-IsSound :
      (found : Option RsaKey)
      → ((key : RsaKey) → found ≡ some key → IsSound key)
      → IsSoundIfAny found
  found-IsSound none sound = tt
  found-IsSound (some key) sound = sound key refl

  get-IsSound :
      (kid : Text) (keys : List (Text × RsaKey)) → AreSound keys → IsSoundIfAny (get kid keys)
  get-IsSound kid keys a = found-IsSound (get kid keys) (λ key h. All-get IsSound kid key keys a h)

  store_keys-IsSound :
      (stored_at : ℕ) (cache : Cache) (url kid : Text) (fetched : Option (List (Text × RsaKey)))
      → IsSoundCache cache
      → ((keys : List (Text × RsaKey)) → fetched ≡ some keys → AreSound keys)
      → IsSoundResult (store_keys stored_at cache url kid fetched)
  store_keys-IsSound stored_at cache url kid none c sound = (tt, c)
  store_keys-IsSound stored_at cache url kid (some keys) c sound = (
    get-IsSound kid keys (sound keys refl),
    All-put (λ entry. AreSound entry.1.keys) url
        (record { keys = keys; expires_at = stored_at + fifteen_minutes }) cache (sound keys refl)
        c,
  )

  use_cached-IsSound :
      (checked_at stored_at : ℕ) (cache : Cache) (url kid : Text) (found : Option CachedJwkSet)
      → IsSoundCache cache
      → ((set : CachedJwkSet) → found ≡ some set → AreSound set.keys)
      → IsSoundResult (use_cached lib checked_at stored_at cache url kid found)
  use_cached-IsSound checked_at stored_at cache url kid none c sound =
      store_keys-IsSound stored_at cache url kid (fetch_keys lib url) c (fetch_keys-AreSound url)
  use_cached-IsSound checked_at stored_at cache url kid (some set) c sound =
      elim (Bool-cases (ltb checked_at set.expires_at)) [
        | inl fresh ↦ rw fresh (get-IsSound kid set.keys (sound set refl), c)
        | inr stale ↦ rw stale (
            store_keys-IsSound stored_at cache url kid (fetch_keys lib url) c
              (fetch_keys-AreSound url))
      ]

  -- If the base64 decoder gives bytes and the cached keys are sound, then the key returned and the
  -- keys cached after looking one up are sound: the modulus has 2048 to 8192 bits, and the
  -- exponent is odd, at least 3 and below 2^32.
  pub signing_key-IsSound :
      (checked_at stored_at : ℕ) (cache : Cache) (platform : LtiPlatform) (kid : Text)
      → IsSoundCache cache
      → IsSoundResult (signing_key lib checked_at stored_at cache platform kid)
  unfolding signing_key
  signing_key-IsSound checked_at stored_at cache platform kid c =
      use_cached-IsSound checked_at stored_at cache platform.key_set_url kid
        (get platform.key_set_url cache) c
        (λ set h. All-get (λ s. AreSound s.keys) platform.key_set_url set cache c h)
