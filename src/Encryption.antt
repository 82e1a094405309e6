-- ===== src/Encryption.antt =====
-- The encryption of stored messages: internal/encryption/encryption.go and serialization.go. The
-- curve, the cipher and the encodings JSON and base64 are parameters, as are the random bytes drawn.
use mailvault.Base.{ℕ, ◌⊎◌, inl, inr, Option, none, some, not, if◌then◌else◌, ◌==◌, Bytes, length}
pub mod Keys
pub mod RoundTrip
mod Tests

-- The errors, by the text that the code gives them.
pub data EncryptionError : Type 0 where
  invalid_key_size invalid_nonce_size decryption_failed : EncryptionError
  private_key_failed public_key_failed ecdh_failed cipher_failed nonce_failed : EncryptionError
  ephemeral_failed : EncryptionError → EncryptionError
  serialize_failed deserialize_failed decode_failed : EncryptionError
  unsupported_version : ℕ → EncryptionError

pub record KeyPair : Type 0 where
  pub public_key : Bytes
  pub private_key : Bytes

pub record EncryptedData : Type 0 where
  pub ephemeral_public_key : Bytes
  pub nonce : Bytes
  pub ciphertext : Bytes

-- Base64 texts, and the version.
pub record SerializedEncryptedData : Type 0 where
  pub version : ℕ
  pub ephemeral_public_key : Bytes
  pub nonce : Bytes
  pub ciphertext : Bytes

-- A cipher.AEAD under a key, without additional data.
pub record Cipher : Type 0 where
  pub seal : Bytes → Bytes → Bytes
  pub open_sealed : Bytes → Bytes → Option Bytes

-- curve25519.X25519 with its base point, and chacha20poly1305.New.
pub record Primitives : Type 0 where
  pub x25519 : Bytes → Bytes → Option Bytes
  pub basepoint : Bytes
  pub new_cipher : Bytes → Option Cipher

-- base64.StdEncoding and encoding/json.
pub record Codec : Type 1 where
  pub Text : Type 0
  pub marshal : SerializedEncryptedData → Option Text
  pub unmarshal : Text → Option SerializedEncryptedData
  pub encode : Bytes → Bytes
  pub decode : Bytes → Option Bytes

-- A call with an error check: `x, err := call; if err != nil { return err }`.
unfoldable pub need {ℓ κ} :
    {A : Type ℓ} {B : Type κ}
    → Option A
    → EncryptionError
    → (A → EncryptionError ⊎ B)
    → EncryptionError ⊎ B
need none err rest = inl err
need (some a) err rest = rest a

-- The same of a call that has errors of its own, which are wrapped.
unfoldable pub need_right {ℓ κ} :
    {A : Type ℓ} {B : Type κ}
    → EncryptionError ⊎ A
    → (EncryptionError → EncryptionError)
    → (A → EncryptionError ⊎ B)
    → EncryptionError ⊎ B
need_right (inl err) wrap rest = inl (wrap err)
need_right (inr a) wrap rest = rest a

module _ (p : Primitives) where
  open p use {x25519, basepoint, new_cipher}

  unfoldable pub generate_key_pair : Option Bytes → EncryptionError ⊎ KeyPair
  unfolding need
  generate_key_pair drawn = need drawn private_key_failed λ private_key.
      need (x25519 private_key basepoint) public_key_failed
        λ public_key. inr (record { public_key = public_key; private_key = private_key })

  -- The two draws are of the ephemeral private key and of the nonce.
  unfoldable pub encrypt :
      Option Bytes → Option Bytes → Bytes → Bytes → EncryptionError ⊎ EncryptedData
  unfolding need need_right generate_key_pair
  encrypt drawn nonce_drawn data_bytes recipient =
      if not (length recipient == 32)
      then inl invalid_key_size
      else need_right (generate_key_pair drawn) ephemeral_failed λ pair.
        need (x25519 pair.private_key recipient) ecdh_failed λ shared.
          need (new_cipher shared) cipher_failed λ cipher. need nonce_drawn nonce_failed λ nonce.
            inr (record {
              ephemeral_public_key = pair.public_key;
              nonce = nonce;
              ciphertext = cipher.seal nonce data_bytes;
            })

  unfoldable pub decrypt : EncryptedData → Bytes → EncryptionError ⊎ Bytes
  unfolding need
  decrypt sealed private_key =
      if not (length private_key == 32)
      then inl invalid_key_size
      else if not (length sealed.ephemeral_public_key == 32)
      then inl invalid_key_size
      else if not (length sealed.nonce == 12)
      then inl invalid_nonce_size
      else need (x25519 private_key sealed.ephemeral_public_key) ecdh_failed λ shared.
        need (new_cipher shared) cipher_failed
          λ cipher. need (cipher.open_sealed sealed.nonce sealed.ciphertext) decryption_failed inr

  module _ (codec : Codec) where
    open codec use {Text, marshal, unmarshal, encode, decode}

    -- EncryptedData.Serialize
    unfoldable pub serialize : EncryptedData → EncryptionError ⊎ Text
    unfolding need
    serialize sealed =
        need
          (marshal (record {
            version = 1;
            ephemeral_public_key = encode sealed.ephemeral_public_key;
            nonce = encode sealed.nonce;
            ciphertext = encode sealed.ciphertext;
          }))
          serialize_failed inr

    decode_fields : SerializedEncryptedData → EncryptionError ⊎ EncryptedData
    unfolding need
    decode_fields s = need (decode s.ephemeral_public_key) decode_failed λ key.
        need (decode s.nonce) decode_failed λ nonce.
          need (decode s.ciphertext) decode_failed λ ciphertext.
            inr (record { ephemeral_public_key = key; nonce = nonce; ciphertext = ciphertext })

    unfoldable pub deserialize_encrypted_data : Text → EncryptionError ⊎ EncryptedData
    unfolding need decode_fields
    deserialize_encrypted_data text =
        need (unmarshal text) deserialize_failed
          λ s. if not (s.version == 1) then inl (unsupported_version s.version) else decode_fields s

    unfoldable pub encrypt_and_serialize :
        Option Bytes → Option Bytes → Bytes → Bytes → EncryptionError ⊎ Text
    unfolding need_right encrypt serialize
    encrypt_and_serialize drawn nonce_drawn data_bytes recipient =
        need_right (encrypt drawn nonce_drawn data_bytes recipient) (λ err. err) serialize

    unfoldable pub deserialize_and_decrypt : Text → Bytes → EncryptionError ⊎ Bytes
    unfolding need_right decrypt deserialize_encrypted_data
    deserialize_and_decrypt text private_key =
        need_right (deserialize_encrypted_data text) (λ err. err)
          λ sealed. decrypt sealed private_key
