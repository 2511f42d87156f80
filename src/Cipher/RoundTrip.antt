-- ===== src/Cipher/RoundTrip.antt =====
-- Decrypting what was encrypted gives the plaintext.
use tao_core_go.Prelude.{
  ℕ, zero, suc, Text, true, false, some, [], ◌∷◌, ◌++◌, ◌≡◌, refl, ap, arith, length, length-append,
  ltb,
}
use tao_core_go.Text.{has_prefix}
use tao_core_go.Cipher.{Bytes, Aead, Crypto, encrypted_prefix, encrypt, decrypt, drop, take}

-- What base64 and AES-GCM document: decoding undoes encoding, and opening undoes sealing.
pub record CryptoLaws (crypto : Crypto) (aead : Aead) : Type 0 where
  pub decode-encode : (b : Bytes) → crypto.decode_url (crypto.encode_url b) ≡ some b
  pub open-seal :
      (nonce plaintext : Bytes)
      → length nonce ≡ aead.nonce_size
      → aead.open_sealed nonce (aead.seal nonce plaintext) ≡ some plaintext

take-append : (xs ys : Bytes) (n : ℕ) → length xs ≡ n → take n (xs ++ ys) ≡ xs
unfolding take
take-append [] ys zero h = refl
take-append [] ys (suc n) h = absurd (omega arith)
take-append (x ∷ xs) ys zero h = absurd (omega arith)
take-append (x ∷ xs) ys (suc n) h = ap (λ t. x ∷ t) (take-append xs ys n (omega arith))

drop-append : (xs ys : Bytes) (n : ℕ) → length xs ≡ n → drop n (xs ++ ys) ≡ ys
unfolding drop
drop-append [] ys zero h = refl
drop-append [] ys (suc n) h = absurd (omega arith)
drop-append (x ∷ xs) ys zero h = absurd (omega arith)
drop-append (x ∷ xs) ys (suc n) h = drop-append xs ys n (omega arith)

module _ (crypto : Crypto) (aead : Aead) (laws : CryptoLaws crypto aead) where
  prefixed : (t : Text) → has_prefix (encrypted_prefix ++ t) encrypted_prefix ≡ true
  unfolding has_prefix
  prefixed t = refl

  opened :
      (nonce plaintext : Bytes)
      → length nonce ≡ aead.nonce_size
      → decrypt crypto
          (some aead)
          (encrypted_prefix ++ crypto.encode_url (nonce ++ aead.seal nonce plaintext))
        ≡ some plaintext
  unfolding decrypt
  opened nonce plaintext sized =
      let sealed = aead.seal nonce plaintext in
      let long : ltb (length (nonce ++ sealed)) aead.nonce_size ≡ false =
        ground (arith, sized, length-append nonce sealed) in
      let dropped = drop-append encrypted_prefix (crypto.encode_url (nonce ++ sealed)) 7 refl in
      rw
        (
          prefixed (crypto.encode_url (nonce ++ sealed)),
          dropped,
          laws.decode-encode (nonce ++ sealed),
          long,
          take-append nonce sealed aead.nonce_size sized,
          drop-append nonce sealed aead.nonce_size sized,
        )
        (laws.open-seal nonce plaintext sized)

  -- If decoding undoes encoding and opening undoes sealing, decrypting what was encrypted with a
  -- nonce of the right size gives the plaintext.
  pub decrypt-encrypt :
      (nonce plaintext : Bytes) (ciphertext : Text)
      → length nonce ≡ aead.nonce_size
      → encrypt crypto (some aead) (some nonce) plaintext ≡ some ciphertext
      → decrypt crypto (some aead) ciphertext ≡ some plaintext
  unfolding encrypt
  decrypt-encrypt nonce plaintext ciphertext sized h =
      let e : encrypted_prefix ++ crypto.encode_url (nonce ++ aead.seal nonce plaintext)
          ≡ ciphertext =
        cc in
      rw (← e) (opened nonce plaintext sized)
