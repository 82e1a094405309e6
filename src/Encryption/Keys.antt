-- ===== src/Encryption/Keys.antt =====
-- Public keys as texts: FormatPublicKey and ParsePublicKey of internal/encryption/encryption.go, with
-- what fmt does for the verb %x. Texts are ASCII.
use mailvault.Base.{
  ℕ, ◌+◌, ◌-◌, ◌*◌, ◌/◌, ◌%◌, ◌<◌, ◌≡◌, refl, Option, none, some, [], ◌∷◌, ◌++◌, true, false, not,
  ◌&&◌, if◌then◌else◌, ◌==◌, leb, ltb, arith, Bytes, codes, length, drop, has_prefix, is_space, All,
}

unfoldable pub digit_text : ℕ → ℕ
digit_text n = if ltb n 10 then b'0' + n else 87 + n

-- %x of bytes, and hex.EncodeToString
unfoldable pub hex_text : Bytes → Bytes
unfolding digit_text
hex_text [] = []
hex_text (b ∷ k) = digit_text (b / 16) ∷ digit_text (b % 16) ∷ hex_text k

unfoldable pub hex_digit : ℕ → Option ℕ
hex_digit c =
    if leb b'0' c && leb c b'9'
    then some (c - b'0')
    else if leb b'a' c && leb c b'f'
    then some (c - 87)
    else if leb b'A' c && leb c b'F'
    then some (c - 55)
    else none

-- A byte of two digits before the rest: the text ends at a first byte that is no digit, and an error
-- follows a second that is none.
unfoldable pub hex_pair : Option ℕ → Option ℕ → Option Bytes → Option Bytes
hex_pair none low rest = some []
hex_pair (some h) none rest = none
hex_pair (some h) (some l) none = none
hex_pair (some h) (some l) (some k) = some ((h * 16 + l) ∷ k)

unfoldable pub hex_bytes : Bytes → Option Bytes
unfolding hex_pair hex_digit
hex_bytes [] = some []
hex_bytes (c ∷ []) = hex_pair (hex_digit c) none none
hex_bytes (c ∷ d ∷ s) = hex_pair (hex_digit c) (hex_digit d) (hex_bytes s)

unfoldable pub some_byte : Option Bytes → Option Bytes
some_byte none = none
some_byte (some []) = none
some_byte (some (b ∷ k)) = some (b ∷ k)

-- fmt.Sscanf(s, "%x", &bytes): blanks are skipped, a new line is an error, and what follows the digits
-- is left.
unfoldable pub scan_hex : Bytes → Option Bytes
unfolding some_byte hex_bytes
scan_hex [] = none
scan_hex (c ∷ s) =
    if c == 10 then none else if is_space c then scan_hex s else some_byte (hex_bytes (c ∷ s))

abbrev pub public_key_prefix : Bytes
public_key_prefix = codes "x25519:"

unfoldable pub format_public_key : Bytes → Bytes
unfolding hex_text
format_public_key k = public_key_prefix ++ hex_text k

unfoldable pub parse_public_key : Bytes → Option Bytes
unfolding has_prefix scan_hex
parse_public_key formatted =
    if not (length formatted == length public_key_prefix + 64)
    then none
    else if not (has_prefix formatted public_key_prefix)
    then none
    else scan_hex (drop (length public_key_prefix) formatted)

abbrev pub IsByte : ℕ → Type 0
IsByte b = b < 256

hex_digit-digit_text : (n : ℕ) → n < 16 → hex_digit (digit_text n) ≡ some n
unfolding hex_digit digit_text
hex_digit-digit_text n h = ground (arith, h)

length-hex_text : (k : Bytes) → length (hex_text k) ≡ length k + length k
unfolding hex_text
length-hex_text [] = refl
length-hex_text (b ∷ k) = omega (arith, length-hex_text k)

hex_bytes-hex_text : (k : Bytes) → All IsByte k → hex_bytes (hex_text k) ≡ some k
unfolding hex_bytes hex_text hex_pair
hex_bytes-hex_text [] h = refl
hex_bytes-hex_text (b ∷ k) h =
    let high = hex_digit-digit_text (b / 16) (omega (arith, h.0)) in
    let low = hex_digit-digit_text (b % 16) (omega arith) in
    let whole : b / 16 * 16 + b % 16 ≡ b = omega arith in
    rw (high, low, hex_bytes-hex_text k h.1, whole) refl

digit_text_no_space : (n : ℕ) → (digit_text n == 10 ≡ false) × (is_space (digit_text n) ≡ false)
unfolding digit_text
digit_text_no_space n = (ground arith, ground arith)

scan_hex-hex_text :
    (b : ℕ) (k : Bytes) → All IsByte (b ∷ k) → scan_hex (hex_text (b ∷ k)) ≡ some (b ∷ k)
unfolding scan_hex some_byte hex_text
scan_hex-hex_text b k h =
    let (no_line, no_space) = digit_text_no_space (b / 16) in
    rw (no_line, no_space, hex_bytes-hex_text (b ∷ k) h) refl

scan_key : (k : Bytes) → length k ≡ 32 → All IsByte k → scan_hex (hex_text k) ≡ some k
scan_key [] size h = absurd (omega (arith, size))
scan_key (b ∷ k) size h = scan_hex-hex_text b k h

-- ParsePublicKey reads back the text that FormatPublicKey gives for a key of 32 bytes.
pub parse_public_key-format_public_key :
    (k : Bytes) → length k ≡ 32 → All IsByte k → parse_public_key (format_public_key k) ≡ some k
unfolding parse_public_key format_public_key has_prefix
parse_public_key-format_public_key k size h =
    let long : (length (format_public_key k) == 71) ≡ true =
      ground (arith, length-hex_text k, size) in
    rw (long, scan_key k size h) refl
