-- ===== src/Address/RoundTrip.antt =====
-- Parsing addresses of internal/utils/email.go: what comes out, and that a plain address comes back.
use mailvault.Base.{
  ℕ, ◌≡◌, ◌≢◌, refl, ◌∙◌, ap, ◌⊎◌, inl, inr, Bool, true, false, ◌||◌, not, List, [], ◌∷◌, ◌++◌,
  none, arith, ◌==◌, Bool-cases, All, Bytes, is_space, trim, trim_left, trim_right, trimmed, split,
  cut,
}
use mailvault.Address.{
  DomainError, AddressError, is_empty_text, all_domain_bytes, clean_domain, is_bracket, is_quote,
  clean_email_address, between, with_domain, parse_parts, parse_email_address,
}
use mailvault.Address.Domain.{IsDomain, clean_domain-IsDomain, clean_domain-same}

-- A byte that the parser gives no meaning: no blank, bracket, quote or "@".
abbrev pub is_plain : ℕ → Bool
is_plain c = not (is_space c || is_bracket c || is_quote c || c == b'@')

abbrev pub Plain : Bytes → Type 0
Plain s = All (λ c. is_plain c ≡ true) s

Plain-not :
    (p : ℕ → Bool) (s : Bytes)
    → ((c : ℕ) → is_plain c ≡ true → p c ≡ false)
    → Plain s
    → All (λ c. p c ≡ false) s
Plain-not p [] h a = tt
Plain-not p (c ∷ s) h a = (h c a.0, Plain-not p s h a.1)

domain-Plain : (d : Bytes) → all_domain_bytes d ≡ true → Plain d
unfolding all_domain_bytes
domain-Plain [] a = tt
domain-Plain (c ∷ d) a = (ground (arith, a), domain-Plain d (ground (arith, a)))

All-map : (P Q : ℕ → Type 0) (s : Bytes) → ((c : ℕ) → P c → Q c) → All P s → All Q s
All-map P Q [] f a = tt
All-map P Q (c ∷ s) f a = (f c a.0, All-map P Q s f a.1)

All-append : (P : ℕ → Type 0) (s t : Bytes) → All P s → All P t → All P (s ++ t)
All-append P [] t a b = b
All-append P (c ∷ s) t a b = (a.0, All-append P s t a.1 b)

trim_left-none : (p : ℕ → Bool) (s : Bytes) → All (λ c. p c ≡ false) s → trim_left p s ≡ s
unfolding trim_left
trim_left-none p [] a = refl
trim_left-none p (c ∷ s) a = rw a.0 refl

trimmed-none : (p : ℕ → Bool) (c : ℕ) (s : Bytes) → p c ≡ false → trimmed p c s ≡ c ∷ s
trimmed-none p c [] h = rw h refl
trimmed-none p c (d ∷ s) h = refl

trim_right-none : (p : ℕ → Bool) (s : Bytes) → All (λ c. p c ≡ false) s → trim_right p s ≡ s
unfolding trim_right
trim_right-none p [] a = refl
trim_right-none p (c ∷ s) a = ap (trimmed p c) (trim_right-none p s a.1) ∙ trimmed-none p c s a.0

trim-none : (p : ℕ → Bool) (s : Bytes) → All (λ c. p c ≡ false) s → trim p s ≡ s
unfolding trim
trim-none p s a = ap (trim_right p) (trim_left-none p s a) ∙ trim_right-none p s a

cut-none : (s : Bytes) (d : ℕ) → All (λ c. (c == d) ≡ false) s → cut s d ≡ none
unfolding cut
cut-none [] d a = refl
cut-none (c ∷ s) d a = ground (arith, a.0, cut-none s d a.1)

split-none : (s : Bytes) (d : ℕ) → All (λ c. (c == d) ≡ false) s → split s d ≡ (s, [])
unfolding split
split-none [] d a = refl
split-none (c ∷ s) d a = rw (split-none s d a.1) (rw a.0 refl)

split-append :
    (s t : Bytes) (d : ℕ)
    → All (λ c. (c == d) ≡ false) s
    → All (λ c. (c == d) ≡ false) t
    → split (s ++ d ∷ t) d ≡ (s, t ∷ [])
unfolding split
split-append [] t d a b = rw (split-none t d b) (ground arith)
split-append (c ∷ s) t d a b = rw (split-append s t d a.1 b) (rw a.0 refl)

-- An address with nothing to clean away.
clean_email_address-same :
    (s : Bytes)
    → All (λ c. (is_space c || is_bracket c || is_quote c) ≡ false) s
    → clean_email_address s ≡ s
unfolding clean_email_address between
clean_email_address-same s a =
    let blank = trim-none is_space s (All-map _ _ s (λ c h. ground (arith, h)) a) in
    let bracket = trim-none is_bracket s (All-map _ _ s (λ c h. ground (arith, h)) a) in
    let quote = trim-none is_quote s (All-map _ _ s (λ c h. ground (arith, h)) a) in
    let no_open = cut-none s b'<' (All-map _ _ s (λ c h. ground (arith, h)) a) in
    rw (blank, no_open, bracket, quote, blank) refl

nonempty : (l t : Bytes) → l ≢ [] → is_empty_text (l ++ t) ≡ false
nonempty [] t n = absurd (n refl)
nonempty (c ∷ l) t n = refl

nonempty_text : (l : Bytes) → l ≢ [] → is_empty_text l ≡ false
nonempty_text [] n = absurd (n refl)
nonempty_text (c ∷ l) n = refl

-- Parsing the address that a local part and a domain make gives both back, when the local part is not
-- empty and has no blank, bracket, quote or "@", and the domain is a clean one.
pub parse_email_address-append :
    (l d : Bytes) → l ≢ [] → Plain l → IsDomain d → parse_email_address (l ++ b'@' ∷ d) ≡ inr (l, d)
unfolding parse_email_address
parse_email_address-append l d n a i =
    let dp = domain-Plain d i.bytes in
    let clean = clean_email_address-same (l ++ b'@' ∷ d) (
      All-append _ l (b'@' ∷ d) (Plain-not _ l (λ c h. ground (arith, h)) a)
        (refl, Plain-not _ d (λ c h. ground (arith, h)) dp)) in
    let at =
      split-append l d b'@' (Plain-not _ l (λ c h. ground (arith, h)) a)
        (Plain-not _ d (λ c h. ground (arith, h)) dp) in
    let left = trim-none is_space l (Plain-not _ l (λ c h. ground (arith, h)) a) in
    let right = trim-none is_space d (Plain-not _ d (λ c h. ground (arith, h)) dp) in
    let full = nonempty_text l n in
    rw (nonempty l (b'@' ∷ d) n, clean, at, left, full, right, clean_domain-same d i) refl

with_domain-cases :
    (part l d : Bytes) (r : DomainError ⊎ Bytes)
    → with_domain part r ≡ inr (l, d)
    → (part ≡ l) × (r ≡ inr d)
unfolding with_domain
with_domain-cases part l d (inl err) e = absurd (ground (arith, e))
with_domain-cases part l d (inr domain) e = (ap (λ p. (pair p).0) e, ap (λ p. inr (pair p).1) e)
  where
    pair : AddressError ⊎ (Bytes × Bytes) → Bytes × Bytes
    pair (inl err) = ([], [])
    pair (inr p) = p

parse_parts-cases :
    (l d : Bytes) (parts : Bytes × List Bytes)
    → parse_parts parts ≡ inr (l, d)
    → (l ≢ []) × ((s : Bytes) × (clean_domain s ≡ inr d))
unfolding parse_parts
parse_parts-cases l d (part, []) e = absurd (ground (arith, e))
parse_parts-cases l d (part, s ∷ t ∷ rest) e = absurd (ground (arith, e))
parse_parts-cases l d (part, s ∷ []) e = elim (Bool-cases (is_empty_text (trim is_space part))) [
  | inl y ↦ absurd (ground (arith, rw y at e))
  | inr n ↦
      let (f, g) = with_domain-cases (trim is_space part) l d _ (rw n at e) in
      ((λ h. ground (arith, ap is_empty_text (f ∙ h), n)), (trim is_space s, g))
]

-- The address that the parser takes from a text, whatever it looks like, has a local part that is not
-- empty and a clean domain.
pub parse_email_address-IsDomain :
    (email l d : Bytes) → parse_email_address email ≡ inr (l, d) → (l ≢ []) × IsDomain d
unfolding parse_email_address
parse_email_address-IsDomain email l d e = elim (Bool-cases (is_empty_text email)) [
  | inl y ↦ absurd (ground (arith, rw y at e))
  | inr n ↦
      let (full, (s, g)) = parse_parts-cases l d _ (rw n at e) in
      (full, (clean_domain-IsDomain s d g).0)
]
