-- ===== src/Address.antt =====
-- The mail addresses of internal/utils/email.go.
use mailvault.Base.{
  ℕ, Bool, true, false, ◌&&◌, ◌||◌, not, ◌⊎◌, inl, inr, List, [], ◌∷◌, Option, none, some, leb, ltb,
  ◌==◌, if◌then◌else◌, Bytes, codes, is_space, to_lower, contains, cut, trim, trim_left, trim_right,
  ends_in, split, has_prefix,
}
pub mod Domain
pub mod RoundTrip
mod Tests

pub data DomainError : Type 0 where
  empty_domain ends_with_dot no_dot has_space invalid_characters bad_edge : DomainError

pub data AddressError : Type 0 where
  empty_address not_one_at empty_local : AddressError
  bad_domain : DomainError → AddressError

abbrev pub is_empty_text : Bytes → Bool
is_empty_text [] = true
is_empty_text (c ∷ s) = false

-- The bytes of the cut sets of TrimLeft and TrimRight.
abbrev pub is_leading : ℕ → Bool
is_leading c =
    c == b'<' || c == 34 || c == 39 || c == b',' || c == b' ' || c == 9 || c == 10 || c == 13

abbrev pub is_trailing : ℕ → Bool
is_trailing c =
    c == b'>' || c == 34 || c == 39 || c == b',' || c == b' ' || c == 9 || c == 10 || c == 13

abbrev pub is_dot : ℕ → Bool
is_dot c = c == b'.'

-- [a-zA-Z0-9.-]
abbrev pub is_domain_byte : ℕ → Bool
is_domain_byte c =
    leb b'a' c && leb c b'z'
    || leb b'A' c && leb c b'Z'
    || leb b'0' c && leb c b'9'
    || c == b'.'
    || c == b'-'

unfoldable pub all_domain_bytes : Bytes → Bool
all_domain_bytes [] = true
all_domain_bytes (c ∷ s) = is_domain_byte c && all_domain_bytes s

unfoldable pub starts_with : Bytes → ℕ → Bool
starts_with [] d = false
starts_with (c ∷ s) d = c == d

-- The checks of cleanDomain on the domain that is cleaned.
unfoldable pub check_domain : Bytes → DomainError ⊎ Bytes
check_domain domain =
    if not (contains domain b'.')
    then inl no_dot
    else if contains domain b' '
    then inl has_space
    else if is_empty_text domain || not (all_domain_bytes domain)
    then inl invalid_characters
    else if starts_with domain b'.'
        || ends_in domain b'.'
        || starts_with domain b'-'
        || ends_in domain b'-'
    then inl bad_edge
    else inr domain

unfoldable pub clean_domain : Bytes → DomainError ⊎ Bytes
clean_domain domain =
    if is_empty_text domain
    then inl empty_domain
    else if ends_in domain b'.' && not (contains domain b'>') && not (contains domain 34)
    then inl ends_with_dot
    else check_domain
        (trim_right is_dot (trim_right is_trailing (to_lower (trim_left is_leading domain))))

or_lower : Bytes → DomainError ⊎ Bytes → Bytes
or_lower domain (inl err) = to_lower (trim is_space domain)
or_lower domain (inr cleaned) = cleaned

unfoldable pub normalize_domain : Bytes → Bytes
unfolding or_lower
normalize_domain domain = or_lower domain (clean_domain domain)

between : Bytes → Option (Bytes × Bytes) → Bytes
between s none = s
between s (some (before, after)) = inside (cut after b'>')
  where
    inside : Option (Bytes × Bytes) → Bytes
    inside none = s
    inside (some (address, rest)) = if contains before b'>' then s else address

abbrev pub is_bracket : ℕ → Bool
is_bracket c = c == b'<' || c == b'>'

abbrev pub is_quote : ℕ → Bool
is_quote c = c == 34 || c == 39

-- cleanEmailAddress: the text between the first "<" and the first ">", if they come in this order.
unfoldable pub clean_email_address : Bytes → Bytes
unfolding between
clean_email_address email =
    let s = trim is_space email in
    trim is_space (trim is_quote (trim is_bracket (between s (cut s b'<'))))

with_domain : Bytes → DomainError ⊎ Bytes → AddressError ⊎ (Bytes × Bytes)
with_domain local_part (inl err) = inl (bad_domain err)
with_domain local_part (inr domain) = inr (local_part, domain)

parse_parts : Bytes × List Bytes → AddressError ⊎ (Bytes × Bytes)
parse_parts (part, []) = inl not_one_at
parse_parts (part, domain ∷ []) =
    if is_empty_text (trim is_space part)
    then inl empty_local
    else with_domain (trim is_space part) (clean_domain (trim is_space domain))
parse_parts (part, domain ∷ other ∷ rest) = inl not_one_at

-- ParseEmailAddress: the local part and the domain.
unfoldable pub parse_email_address : Bytes → AddressError ⊎ (Bytes × Bytes)
unfolding parse_parts with_domain
parse_email_address email =
    if is_empty_text email
    then inl empty_address
    else parse_parts (split (clean_email_address email) b'@')

domain_part : AddressError ⊎ (Bytes × Bytes) → AddressError ⊎ Bytes
domain_part (inl err) = inl err
domain_part (inr (local_part, domain)) = inr domain

unfoldable pub extract_domain : Bytes → AddressError ⊎ Bytes
unfolding domain_part
extract_domain email = domain_part (parse_email_address email)

error_of : AddressError ⊎ (Bytes × Bytes) → Option AddressError
error_of (inl err) = some err
error_of (inr parts) = none

unfoldable pub validate_email_format : Bytes → Option AddressError
unfolding error_of
validate_email_format email = error_of (parse_email_address email)

fall_back : Bytes → Bytes × List Bytes → Bytes × Bytes
fall_back email (part, domain ∷ []) = (trim is_space part, normalize_domain domain)
fall_back email (part, _) = (email, [])

or_fall_back : Bytes → AddressError ⊎ (Bytes × Bytes) → Bytes × Bytes
or_fall_back email (inr parts) = parts
or_fall_back email (inl err) = fall_back email (split email b'@')

unfoldable pub split_email_address_safe : Bytes → Bytes × Bytes
unfolding or_fall_back fall_back
split_email_address_safe email = or_fall_back email (parse_email_address email)
