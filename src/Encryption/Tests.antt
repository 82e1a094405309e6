-- ===== src/Encryption/Tests.antt =====
-- A curve and a cipher of small numbers, and the properties at concrete keys.
use mailvault.Base.{
  ℕ, zero, suc, ◌+◌, ◌≡◌, refl, ap, inl, inr, Option, none, some, [], ◌∷◌, ◌++◌, arith, Bytes,
  codes, length, has_prefix,
}
use mailvault.Encryption.{
  Cipher, Primitives, Codec, invalid_key_size, KeyPair, SerializedEncryptedData, generate_key_pair,
  encrypt, encrypt_and_serialize, deserialize_and_decrypt,
}
use mailvault.Encryption.Keys.{
  parse_public_key, format_public_key, parse_public_key-format_public_key, scan_hex, hex_text,
  hex_bytes, hex_pair, hex_digit, some_byte, digit_text,
}
use mailvault.Encryption.RoundTrip.{IsSound, ReadsBack, stored_message_is_read}

abbrev repeat : ℕ → ℕ → Bytes
repeat zero b = []
repeat (suc n) b = b ∷ repeat n b

length-repeat : (n b : ℕ) → length (repeat n b) ≡ n
length-repeat zero b = refl
length-repeat (suc n) b = omega (arith, length-repeat n b)

abbrev first : Bytes → ℕ
first [] = 0
first (b ∷ k) = b

abbrev open_marked : Bytes → Option Bytes
open_marked [] = none
open_marked (b ∷ text) = some text

abbrev marking : Cipher
marking = record {
  seal = λ nonce text. first nonce ∷ text;
  open_sealed = λ nonce text. open_marked text;
}

-- Keys are multiples of one point.
abbrev sums : Primitives
sums = record {
  x25519 = λ a b. some (repeat 32 (first a + first b));
  basepoint = repeat 32 0;
  new_cipher = λ s. some marking;
}

first_of : Option Bytes → ℕ
first_of none = 0
first_of (some k) = first k

sums-agree :
    (a b pub_a pub_b : Bytes)
    → some (repeat 32 (first a + 0)) ≡ some pub_a
    → some (repeat 32 (first b + 0)) ≡ some pub_b
    → first b + first pub_a ≡ first a + first pub_b
unfolding first_of
sums-agree a b pub_a pub_b ha hb = omega (arith, ap first_of ha, ap first_of hb)

sums-IsSound : IsSound sums
sums-IsSound = record {
  public_keys = λ a h. (repeat 32 (first a + 0), refl, refl);
  secrets = λ a b pub_a pub_b sa sb ha hb. (
    repeat 32 (first a + first pub_b),
    refl,
    ap (λ n. some (repeat 32 n)) (sums-agree a b pub_a pub_b ha hb),
    refl,
  );
  ciphers = λ s h. (marking, refl, λ nonce text n. refl);
}

abbrev plain : Codec
plain = record {
  Text = SerializedEncryptedData;
  marshal = some;
  unmarshal = some;
  encode = λ b. b;
  decode = some;
}

plain-ReadsBack : ReadsBack plain
plain-ReadsBack = record { marshals = λ s. (s, refl, refl); decodes = λ b. refl }

stored_message_is_read_example :
    (pair : KeyPair) × (generate_key_pair sums (some (repeat 32 5)) ≡ inr pair)
    × ((t : SerializedEncryptedData) × (encrypt_and_serialize sums plain
            (some (repeat 32 9))
            (some (repeat 12 1))
            (codes "hello")
            pair.public_key
          ≡ inr t)
        × (deserialize_and_decrypt sums plain t pair.private_key ≡ inr (codes "hello")))
stored_message_is_read_example =
    stored_message_is_read sums sums-IsSound plain plain-ReadsBack (repeat 32 5) (repeat 32 9)
      (repeat 12 1) (codes "hello") refl refl refl

parse_public_key-format_public_key_example :
    parse_public_key (format_public_key (repeat 32 171)) ≡ some (repeat 32 171)
parse_public_key-format_public_key_example =
    parse_public_key-format_public_key (repeat 32 171) refl (grind arith)

-- A key of one byte, which Encrypt refuses, passes for a public key.
short_key_parsed : parse_public_key (codes "x25519:ab" ++ repeat 62 b'-') ≡ some (171 ∷ [])
unfolding parse_public_key scan_hex hex_bytes hex_pair hex_digit some_byte has_prefix
short_key_parsed = refl

short_key_refused :
    encrypt sums (some (repeat 32 9)) (some (repeat 12 1)) (codes "hello") (171 ∷ [])
    ≡ inl invalid_key_size
unfolding encrypt
short_key_refused = refl

formatted : format_public_key (10 ∷ 255 ∷ []) ≡ codes "x25519:0aff"
unfolding format_public_key hex_text digit_text
formatted = refl
