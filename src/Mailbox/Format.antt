-- ===== src/Mailbox/Format.antt =====
-- The formats of local parts and addresses: isValidLocalPart and isValidEmail of
-- domain/email/usecase.go, their regular expressions written out as tests on texts.
use mailvault.Base.{
  ℕ, Bool, true, false, ◌&&◌, ◌||◌, List, [], ◌∷◌, Option, none, some, ltb, leb, ◌==◌,
  if◌then◌else◌, Bytes, length, ends_in, split,
}

unfoldable pub is_letter : ℕ → Bool
is_letter c = leb b'a' c && leb c b'z' || leb b'A' c && leb c b'Z'

unfoldable pub is_alphanumeric : ℕ → Bool
unfolding is_letter
is_alphanumeric c = is_letter c || leb b'0' c && leb c b'9'

unfoldable pub all_bytes : (ℕ → Bool) → Bytes → Bool
all_bytes p [] = true
all_bytes p (c ∷ s) = p c && all_bytes p s

-- [a-zA-Z0-9._-]
unfoldable pub is_local_byte : ℕ → Bool
is_local_byte c = is_alphanumeric c || c == b'.' || c == b'_' || c == b'-'

begins : Bytes → ℕ → Bool
begins [] d = false
begins (c ∷ s) d = c == d

unfoldable pub is_valid_local_part : Bytes → Bool
unfolding begins
is_valid_local_part s =
    if length s == 0 || ltb 64 (length s)
    then false
    else if begins s b'.' || ends_in s b'.'
    then false
    else all_bytes is_local_byte s

-- [a-zA-Z0-9._%+-]
unfoldable pub is_mailbox_byte : ℕ → Bool
unfolding is_local_byte
is_mailbox_byte c = is_local_byte c || c == b'%' || c == b'+'

-- [a-zA-Z0-9.-]
unfoldable pub is_host_byte : ℕ → Bool
is_host_byte c = is_alphanumeric c || c == b'.' || c == b'-'

-- The text after the last dot, and whether there is a byte before that dot.
after_last_dot : Bool → Bytes → Option (Bool × Bytes)
after_last_dot before [] = none
after_last_dot before (c ∷ s) = elim (after_last_dot true s) [
  | some found ↦ some found
  | none ↦ if c == b'.' then some (before, s) else none
]

-- [a-zA-Z0-9.-]+\.[a-zA-Z]{2} of a text of host bytes: its last dot has a byte before it and, as
-- letters are no dots, only letters after it, two at least.
is_host : Option (Bool × Bytes) → Bool
is_host none = false
is_host (some (before, top)) = before && leb 2 (length top) && all_bytes is_letter top

parts_of_email : Bytes × List Bytes → Bool
unfolding is_mailbox_byte is_host_byte is_host after_last_dot
parts_of_email (name, []) = false
parts_of_email (name, host ∷ []) =
    ltb 0 (length name)
    && all_bytes is_mailbox_byte name
    && all_bytes is_host_byte host
    && is_host (after_last_dot false host)
parts_of_email (name, host ∷ other ∷ rest) = false

-- An address of the form has one "@", which no class of its expression holds.
unfoldable pub is_valid_email : Bytes → Bool
unfolding parts_of_email
is_valid_email s = parts_of_email (split s b'@')
