-- ===== src/Spf/Record.antt =====
-- Reading an SPF record and an address: the functions of spf.go on texts.
use mailvault.Base.{
  ℕ, ◌≡◌, refl, Bool, true, false, ◌&&◌, ◌||◌, not, List, [], ◌∷◌, ◌++◌, Option, none, some, arith,
  ◌==◌, if◌then◌else◌, Bytes, codes, is_space, to_lower, has_prefix, contains, cut, trim,
  trim_right, fields,
}
use mailvault.Spf.{SpfStatus, spf_neutral, spf_pass, spf_fail, spf_soft_fail, SpfMechanism, Net}

-- Modifiers such as redirect= are passed over.
unfoldable pub is_modifier : Bytes → Bool
is_modifier part =
    contains part b'='
    && not (has_prefix part (codes "include:"))
    && not (has_prefix part (codes "ip4:"))
    && not (has_prefix part (codes "ip6:"))
    && not (has_prefix part (codes "exists:"))

unfoldable pub is_qualifier : ℕ → Bool
is_qualifier c = c == b'+' || c == b'-' || c == b'~' || c == b'?'

unfoldable pub split_value : ℕ → Bytes → Option (Bytes × Bytes) → SpfMechanism
split_value q text none = record { qualifier = q; mechanism = text; value = [] }
split_value q text (some (mechanism, value)) = record {
  qualifier = q;
  mechanism = mechanism;
  value = value;
}

unfoldable pub parse_mechanism : Bytes → SpfMechanism
unfolding split_value
parse_mechanism [] = split_value b'+' [] (cut [] b':')
parse_mechanism (c ∷ rest) =
    if is_qualifier c
    then split_value c rest (cut rest b':')
    else split_value b'+' (c ∷ rest) (cut (c ∷ rest) b':')

unfoldable pub parse_mechanisms : List Bytes → List SpfMechanism
parse_mechanisms [] = []
parse_mechanisms (part ∷ parts) =
    let rest = parse_mechanisms parts in
    if is_modifier part then rest else parse_mechanism part ∷ rest

-- Skips the first field, "v=spf1".
drop_first : List Bytes → List Bytes
drop_first [] = []
drop_first (part ∷ parts) = parts

unfoldable pub parse_spf_record : Bytes → List SpfMechanism
unfolding drop_first
parse_spf_record text = parse_mechanisms (drop_first (fields text))

unfoldable pub qualifier_to_result : ℕ → SpfStatus
qualifier_to_result q =
    if q == b'+'
    then spf_pass
    else if q == b'-'
    then spf_fail
    else if q == b'~'
    then spf_soft_fail
    else spf_neutral

-- The text between the last "<" and the first ">" after it, if both are there.
bracketed : Bytes → Option Bytes
bracketed [] = none
bracketed (c ∷ s) = later (bracketed s)
  where
    closed : Option (Bytes × Bytes) → Option Bytes
    closed none = none
    closed (some (inside, rest)) = some inside

    later : Option Bytes → Option Bytes
    later (some inside) = some inside
    later none = if c == b'<' && not (contains s b'<') then closed (cut s b'>') else none

-- The text after the last "@", if there is one.
after_last_at : Bytes → Option Bytes
after_last_at [] = none
after_last_at (c ∷ s) = later (after_last_at s)
  where
    later : Option Bytes → Option Bytes
    later (some domain) = some domain
    later none = if c == b'@' then some s else none

is_bracket : ℕ → Bool
is_bracket c = c == b'<' || c == b'>'

is_trailing : ℕ → Bool
is_trailing c = contains (codes ">.,;:\"'") c

address_of : Bytes → Option Bytes → Bytes
address_of s (some address) = address
address_of s none = trim is_space (trim is_bracket (inside (bracketed s)))
  where
    inside : Option Bytes → Bytes
    inside none = s
    inside (some t) = t

domain_of : Option Bytes → Bytes
domain_of none = []
domain_of (some domain) = to_lower (trim_right is_trailing (trim is_space domain))

-- extractDomainFromEmail; the empty text says that there is no domain.
unfoldable pub extract_domain_from_email : Net → Bytes → Bytes
unfolding address_of domain_of after_last_at bracketed is_trailing is_bracket
extract_domain_from_email net input = read (trim is_space input)
  where
    read : Bytes → Bytes
    read [] = []
    read (c ∷ s) = domain_of (after_last_at (address_of (c ∷ s) (net.parse_address (c ∷ s))))

-- The text of a mechanism in a record.
abbrev pub print_mechanism : SpfMechanism → Bytes
print_mechanism m = m.qualifier ∷ m.mechanism ++ b':' ∷ m.value

cut-append : (s t : Bytes) (d : ℕ) → contains s d ≡ false → cut (s ++ d ∷ t) d ≡ some (s, t)
unfolding cut contains
cut-append [] t d h = ground arith
cut-append (c ∷ s) t d h = ground (arith, cut-append s t d)

-- Parsing the text of a mechanism gives it back, whatever its value, when its qualifier is one and
-- its name has no colon.
pub parse_mechanism-print_mechanism :
    (m : SpfMechanism)
    → is_qualifier m.qualifier ≡ true
    → contains m.mechanism b':' ≡ false
    → parse_mechanism (print_mechanism m) ≡ m
unfolding parse_mechanism split_value
parse_mechanism-print_mechanism m q h = rw (q, cut-append m.mechanism m.value b':' h) refl
