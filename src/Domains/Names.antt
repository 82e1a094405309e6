-- ===== src/Domains/Names.antt =====
-- The names of domains: isValidDomain of domain/domain/usecase.go, its regular expression written out
-- as tests on the labels between dots.
use mailvault.Base.{
  ℕ, Bool, true, false, not, ◌&&◌, ◌||◌, List, [], ◌∷◌, ltb, leb, ◌==◌, if◌then◌else◌, Bytes,
  length, contains, split,
}
use mailvault.Mailbox.Format.{is_alphanumeric, all_bytes}

-- [a-zA-Z0-9\-]
unfoldable pub is_label_byte : ℕ → Bool
unfolding is_alphanumeric
is_label_byte c = is_alphanumeric c || c == b'-'

-- [a-zA-Z0-9] at the end
unfoldable pub ends_alphanumeric : Bytes → Bool
unfolding is_alphanumeric
ends_alphanumeric [] = false
ends_alphanumeric (c ∷ []) = is_alphanumeric c
ends_alphanumeric (c ∷ d ∷ s) = ends_alphanumeric (d ∷ s)

-- ([a-zA-Z0-9\-]{0,61}[a-zA-Z0-9])?
unfoldable pub is_label_rest : Bytes → Bool
unfolding ends_alphanumeric is_label_byte all_bytes
is_label_rest [] = true
is_label_rest (c ∷ s) =
    leb (length (c ∷ s)) 62 && all_bytes is_label_byte (c ∷ s) && ends_alphanumeric (c ∷ s)

unfoldable pub is_label : Bytes → Bool
unfolding is_alphanumeric is_label_rest
is_label [] = false
is_label (c ∷ s) = is_alphanumeric c && is_label_rest s

unfoldable pub all_labels : List Bytes → Bool
unfolding is_label
all_labels [] = true
all_labels (s ∷ rest) = is_label s && all_labels rest

unfoldable pub are_labels : Bytes × List Bytes → Bool
unfolding is_label all_labels
are_labels (part, rest) = is_label part && all_labels rest

unfoldable pub is_valid_domain : Bytes → Bool
unfolding are_labels split contains
is_valid_domain s =
    if not (are_labels (split s b'.'))
    then false
    else if ltb 253 (length s)
    then false
    else contains s b'.'
