-- ===== src/Cipher/Tests.antt =====
-- A cipher that seals by writing the plaintext after a mark.
use tao_core_go.Prelude.{Option, some, none, [], ◌∷◌, ◌++◌, ◌≡◌, refl}
use tao_core_go.Cipher.{Bytes, Aead, Crypto, encrypted_prefix, encrypt, decrypt}
use tao_core_go.Cipher.RoundTrip.{CryptoLaws, decrypt-encrypt}

abbrev open_marked : Bytes → Bytes → Option Bytes
open_marked salt [] = none
open_marked salt (b ∷ bs) = some bs

abbrev marked : Aead
marked = record {
  nonce_size = 2;
  seal = λ salt plaintext. 9 ∷ plaintext;
  open_sealed = open_marked;
}

abbrev plain_text : Crypto
plain_text = record {
  decode_std = λ t. some t;
  decode_url = λ t. some t;
  encode_url = λ b. b;
  new_gcm = λ key. some marked;
}

plain-CryptoLaws : CryptoLaws plain_text marked
plain-CryptoLaws = record { decode-encode = λ b. refl; open-seal = λ salt plaintext h. refl }

encrypted_one :
    encrypt plain_text (some marked) (some (1 ∷ 2 ∷ [])) (7 ∷ [])
    ≡ some (encrypted_prefix ++ 1 ∷ 2 ∷ 9 ∷ 7 ∷ [])
unfolding encrypt
encrypted_one = refl

decrypt-encrypt_example :
    decrypt plain_text (some marked) (encrypted_prefix ++ 1 ∷ 2 ∷ 9 ∷ 7 ∷ []) ≡ some (7 ∷ [])
decrypt-encrypt_example =
    decrypt-encrypt plain_text marked plain-CryptoLaws (1 ∷ 2 ∷ []) (7 ∷ [])
      (encrypted_prefix ++ 1 ∷ 2 ∷ 9 ∷ 7 ∷ []) refl encrypted_one
