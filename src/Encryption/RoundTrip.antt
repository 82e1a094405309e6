-- ===== src/Encryption/RoundTrip.antt =====
-- What is encrypted and stored by internal/encryption is decrypted again.
use mailvault.Base.{ℕ, ◌≡◌, refl, inr, some, arith, ◌==◌, Bytes, length, true}
use mailvault.Encryption.{
  KeyPair, EncryptedData, SerializedEncryptedData, Cipher, Primitives, Codec, need, need_right,
  generate_key_pair, encrypt, decrypt, serialize, deserialize_encrypted_data, decode_fields,
  encrypt_and_serialize, deserialize_and_decrypt,
}

-- X25519 with the base point gives public keys of 32 bytes, and two private keys agree on a secret by
-- them; a secret is a key of the cipher, which opens what it has sealed under a nonce of 12 bytes.
pub record IsSound (p : Primitives) : Type 0 where
  pub public_keys :
      (a : Bytes)
      → length a ≡ 32
      → (pub_a : Bytes) × (p.x25519 a p.basepoint ≡ some pub_a) × (length pub_a ≡ 32)
  pub secrets :
      (a b pub_a pub_b : Bytes)
      → length a ≡ 32
      → length b ≡ 32
      → p.x25519 a p.basepoint ≡ some pub_a
      → p.x25519 b p.basepoint ≡ some pub_b
      → (s : Bytes) × (p.x25519 a pub_b ≡ some s) × (p.x25519 b pub_a ≡ some s) × (length s ≡ 32)
  pub ciphers :
      (s : Bytes)
      → length s ≡ 32
      → (c : Cipher) × (p.new_cipher s ≡ some c)
        × ((nonce text : Bytes)
            → length nonce ≡ 12
            → c.open_sealed nonce (c.seal nonce text) ≡ some text)

-- JSON and base64 read back what they wrote.
pub record ReadsBack (codec : Codec) : Type 0 where
  pub marshals :
      (s : SerializedEncryptedData)
      → (t : codec.Text) × (codec.marshal s ≡ some t) × (codec.unmarshal t ≡ some s)
  pub decodes : (b : Bytes) → codec.decode (codec.encode b) ≡ some b

module _ (p : Primitives) (sound : IsSound p) (codec : Codec) (reads : ReadsBack codec) where
  serialize-deserialize :
      (sealed : EncryptedData)
      → (t : codec.Text) × (serialize p codec sealed ≡ inr t)
        × (deserialize_encrypted_data p codec t ≡ inr sealed)
  unfolding serialize deserialize_encrypted_data need decode_fields
  serialize-deserialize sealed =
      let (t, written, read) = reads.marshals (record {
        version = 1;
        ephemeral_public_key = codec.encode sealed.ephemeral_public_key;
        nonce = codec.encode sealed.nonce;
        ciphertext = codec.encode sealed.ciphertext;
      }) in
      (
        t,
        rw written refl,
        rw
            (
              read,
              reads.decodes sealed.ephemeral_public_key,
              reads.decodes sealed.nonce,
              reads.decodes sealed.ciphertext,
            )
            refl,
      )

  sized : (b : Bytes) (n : ℕ) → length b ≡ n → (length b == n) ≡ true
  sized b n h = ground (arith, h)

  -- A key pair is generated, every message is encrypted and serialized for its public key, and its
  -- private key reads the message back from the text, when the random bytes could be drawn: 32 for
  -- each of the two private keys and 12 for the nonce. The curve is one on which two keys agree,
  -- the cipher opens what it sealed, and the encodings read back what they wrote.
  pub stored_message_is_read :
      (k e nonce text : Bytes)
      → length k ≡ 32
      → length e ≡ 32
      → length nonce ≡ 12
      → (pair : KeyPair) × (generate_key_pair p (some k) ≡ inr pair)
        × ((t : codec.Text) × (encrypt_and_serialize p codec
                (some e)
                (some nonce)
                text
                pair.public_key
              ≡ inr t)
            × (deserialize_and_decrypt p codec t pair.private_key ≡ inr text))
  unfolding generate_key_pair encrypt decrypt encrypt_and_serialize deserialize_and_decrypt need
      need_right
  stored_message_is_read k e nonce text hk he hn =
      let (pub_k, made_k, size_k) = sound.public_keys k hk in
      let (pub_e, made_e, size_e) = sound.public_keys e he in
      let (s, by_e, by_k, size_s) = sound.secrets e k pub_e pub_k he hk made_e made_k in
      let (c, ciphered, opens) = sound.ciphers s size_s in
      let sealed : EncryptedData = record {
        ephemeral_public_key = pub_e;
        nonce = nonce;
        ciphertext = c.seal nonce text;
      } in
      let (t, written, read) = serialize-deserialize sealed in
      (
        record { public_key = pub_k; private_key = k },
        rw made_k refl,
        (
          t,
          rw (sized pub_k 32 size_k, made_e, by_e, ciphered) written,
          rw
              (
                read,
                sized k 32 hk,
                sized pub_e 32 size_e,
                sized nonce 12 hn,
                by_k,
                ciphered,
                opens nonce text hn,
              )
              refl,
        ),
      )
