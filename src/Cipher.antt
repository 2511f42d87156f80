-- ===== src/Cipher.antt =====
-- internal/security/secret_cipher.go. AES-GCM, base64 and the random nonce are parameters; bytes are
-- numbers, and the plaintext is the bytes of the string.
mod Tests
pub mod RoundTrip
use tao_core_go.Prelude.{
  ℕ, zero, suc, Text, Bool, true, false, Option, none, some, List, [], ◌∷◌, ◌++◌, length, eqb, ltb,
  codes, if◌then◌else◌,
}
use tao_core_go.Text.{trim_space, has_prefix}

abbrev pub Bytes : Type 0
Bytes = List ℕ

-- cipher.AEAD of a key; `none` where `Open` fails
pub record Aead : Type 0 where
  pub nonce_size : ℕ
  pub seal : Bytes → Bytes → Bytes
  pub open_sealed : Bytes → Bytes → Option Bytes

pub record Crypto : Type 0 where
  pub decode_std : Text → Option Bytes
  pub decode_url : Text → Option Bytes
  pub encode_url : Bytes → Text
  -- aes.NewCipher and cipher.NewGCM
  pub new_gcm : Bytes → Option Aead

abbrev pub encrypted_prefix : Text
encrypted_prefix = codes "enc:v1:"

-- `NewSecretCipher`
unfoldable pub new_secret_cipher : Crypto → Text → Option Aead
unfolding trim_space
new_secret_cipher crypto encoded_key = elim (crypto.decode_std (trim_space encoded_key)) [
  | none ↦ none
  | some key ↦ if eqb (length key) 32 then crypto.new_gcm key else none
]

-- `Encrypt`; no cipher is Go's nil receiver, no nonce a failure of the random reader.
unfoldable pub encrypt : Crypto → Option Aead → Option Bytes → Bytes → Option Text
encrypt crypto none random plaintext = none
encrypt crypto (some aead) none plaintext = none
encrypt crypto (some aead) (some salt) plaintext =
    some (encrypted_prefix ++ crypto.encode_url (salt ++ aead.seal salt plaintext))

unfoldable pub drop : ℕ → Text → Text
drop zero s = s
drop (suc n) [] = []
drop (suc n) (c ∷ s) = drop n s

unfoldable pub take : ℕ → Bytes → Bytes
take zero s = []
take (suc n) [] = []
take (suc n) (c ∷ s) = c ∷ take n s

-- `Decrypt`
unfoldable pub decrypt : Crypto → Option Aead → Text → Option Bytes
decrypt crypto none ciphertext = none
decrypt crypto (some aead) ciphertext =
    if has_prefix ciphertext encrypted_prefix
    then elim (crypto.decode_url (drop (length encrypted_prefix) ciphertext)) [
      | none ↦ none
      | some payload ↦
          if ltb (length payload) aead.nonce_size
          then none
          else aead.open_sealed (take aead.nonce_size payload) (drop aead.nonce_size payload)
    ]
    else none
