-- ===== src/Address/Domain.antt =====
-- What cleanDomain of internal/utils/email.go accepts, and that it leaves clean domains alone.
use mailvault.Base.{
  ℕ, ◌≡◌, refl, ap, ◌⊎◌, inl, inr, Bool, true, false, ◌&&◌, ◌||◌, not, [], ◌∷◌, arith, leb, if_rule,
  All, Bytes, to_lower, contains, trim_left, trim_right, trimmed, ends_in, subst,
}
use mailvault.Address.{
  DomainError, is_empty_text, is_leading, is_trailing, is_dot, is_domain_byte, all_domain_bytes,
  starts_with, check_domain, clean_domain,
}

-- A text that may stand as a domain: lower-case letters, digits, dots and hyphens, with a dot, and with
-- neither a dot nor a hyphen at an end.
pub record IsDomain (d : Bytes) : Type 0 where
  pub bytes : all_domain_bytes d ≡ true
  pub dotted : contains d b'.' ≡ true
  pub edges : (starts_with d b'.' || ends_in d b'.' || starts_with d b'-' || ends_in d b'-') ≡ false
  pub lower : to_lower d ≡ d

-- No upper-case letter.
abbrev Lower : Bytes → Type 0
Lower s = All (λ c. (leb b'A' c && leb c b'Z') ≡ false) s

to_lower-Lower : (s : Bytes) → Lower (to_lower s)
unfolding to_lower
to_lower-Lower [] = tt
to_lower-Lower (c ∷ s) = (ground arith, to_lower-Lower s)

Lower-to_lower : (s : Bytes) → Lower s → to_lower s ≡ s
unfolding to_lower
Lower-to_lower [] l = refl
Lower-to_lower (c ∷ s) l = ground (arith, l.0, Lower-to_lower s l.1)

trimmed-All :
    (P : ℕ → Type 0) (p : ℕ → Bool) (c : ℕ) (s : Bytes) → P c → All P s → All P (trimmed p c s)
trimmed-All P p c [] h a = if_rule (All P) (p c) (λ _. tt) (λ _. (h, tt))
trimmed-All P p c (d ∷ s) h a = (h, a)

trim_right-All : (P : ℕ → Type 0) (p : ℕ → Bool) (s : Bytes) → All P s → All P (trim_right p s)
unfolding trim_right
trim_right-All P p [] a = tt
trim_right-All P p (c ∷ s) a = trimmed-All P p c (trim_right p s) a.0 (trim_right-All P p s a.1)

right : Bytes → DomainError ⊎ Bytes → Bytes
right d (inl err) = d
right d (inr s) = s

-- A text that passes the checks is a domain, if it has no upper-case letter.
check_domain-IsDomain : (s r : Bytes) → Lower s → check_domain s ≡ inr r → IsDomain r
unfolding check_domain right
check_domain-IsDomain s r l =
    if_rule P (not (contains s b'.')) (λ _. refused _)
      λ dotted.
        if_rule P (contains s b' ') (λ _. refused _)
          λ _.
            if_rule P (is_empty_text s || not (all_domain_bytes s)) (λ _. refused _)
              λ valid.
                if_rule P
                  (starts_with s b'.' || ends_in s b'.' || starts_with s b'-' || ends_in s b'-')
                  (λ _. refused _)
                  λ edges e. subst IsDomain (ap (right s) e) (record {
                    bytes = ground (arith, valid);
                    dotted = ground (arith, dotted);
                    edges = edges;
                    lower = Lower-to_lower s l;
                  })
  where
    P : DomainError ⊎ Bytes → Type 0
    P x = x ≡ inr r → IsDomain r

    refused : (err : DomainError) → P (inl err)
    refused err e = absurd (ground (arith, e))

cleaned-IsDomain : (s r : Bytes) → clean_domain s ≡ inr r → IsDomain r
unfolding clean_domain
cleaned-IsDomain s r =
    if_rule P (is_empty_text s) (λ _. refused _)
      λ _.
        if_rule P (ends_in s b'.' && not (contains s b'>') && not (contains s 34)) (λ _. refused _)
          λ _ e.
            check_domain-IsDomain _ r
              (trim_right-All _ is_dot _
                (trim_right-All _ is_trailing _ (to_lower-Lower (trim_left is_leading s))))
              e
  where
    P : DomainError ⊎ Bytes → Type 0
    P x = x ≡ inr r → IsDomain r

    refused : (err : DomainError) → P (inl err)
    refused err e = absurd (ground (arith, e))

-- A text whose last byte is not trimmed.
trim_right-same :
    (p : ℕ → Bool) (s : Bytes) → ((c : ℕ) → p c ≡ true → ends_in s c ≡ false) → trim_right p s ≡ s
unfolding trim_right ends_in
trim_right-same p [] h = refl
trim_right-same p (c ∷ []) h =
    if_rule (λ t. t ≡ c ∷ []) (p c) (λ y. absurd (ground (arith, h c y))) (λ _. refl)
trim_right-same p (c ∷ d ∷ s) h = rw (trim_right-same p (d ∷ s) h) refl

all_domain_bytes-ends_in :
    (s : Bytes) (c : ℕ) → all_domain_bytes s ≡ true → is_domain_byte c ≡ false → ends_in s c ≡ false
unfolding all_domain_bytes ends_in
all_domain_bytes-ends_in [] c a n = refl
all_domain_bytes-ends_in (d ∷ []) c a n = ground (arith, a, n)
all_domain_bytes-ends_in (d ∷ e ∷ s) c a n =
    all_domain_bytes-ends_in (e ∷ s) c (ground (arith, a)) n

all_domain_bytes-contains :
    (s : Bytes) (c : ℕ)
    → all_domain_bytes s ≡ true
    → is_domain_byte c ≡ false
    → contains s c ≡ false
unfolding all_domain_bytes contains
all_domain_bytes-contains [] c a n = refl
all_domain_bytes-contains (d ∷ s) c a n =
    ground (arith, a, n, all_domain_bytes-contains s c (ground (arith, a)) n)

trim_left-same : (d : Bytes) → all_domain_bytes d ≡ true → trim_left is_leading d ≡ d
unfolding trim_left all_domain_bytes
trim_left-same [] a = refl
trim_left-same (c ∷ d) a = ground (arith, a)

nonempty : (d : Bytes) → contains d b'.' ≡ true → is_empty_text d ≡ false
unfolding contains
nonempty [] e = absurd (ground (arith, e))
nonempty (c ∷ d) e = refl

check_domain-same : (d : Bytes) → IsDomain d → check_domain d ≡ inr d
unfolding check_domain
check_domain-same d i =
    let blank = all_domain_bytes-contains d b' ' i.bytes refl in
    let full = nonempty d i.dotted in rw (i.dotted, blank, full, i.bytes, i.edges) refl

-- A text of lower-case letters, digits, dots and hyphens that has a dot, and neither a dot nor a hyphen
-- at an end, is a domain that cleaning leaves as it is.
pub clean_domain-same : (d : Bytes) → IsDomain d → clean_domain d ≡ inr d
unfolding clean_domain
clean_domain-same d i =
    let full = nonempty d i.dotted in
    let end : ends_in d b'.' ≡ false = ground (arith, i.edges) in
    let no_left = trim_left-same d i.bytes in
    let no_right =
      trim_right-same is_trailing d
        (λ c t. all_domain_bytes-ends_in d c i.bytes (ground (arith, t))) in
    let no_dot_left = trim_right-same is_dot d (λ c t. dot_end c t end) in
    rw (full, end, no_left, i.lower, no_right, no_dot_left) (check_domain-same d i)
  where
    dot_end : (c : ℕ) → is_dot c ≡ true → ends_in d b'.' ≡ false → ends_in d c ≡ false
    dot_end c t end = ground (arith, t, end)

-- What cleaning makes of a text, when it accepts it, is a text of lower-case letters, digits, dots and
-- hyphens that has a dot, and neither a dot nor a hyphen at an end; and cleaning it again changes
-- nothing.
pub clean_domain-IsDomain :
    (s d : Bytes) → clean_domain s ≡ inr d → IsDomain d × (clean_domain d ≡ inr d)
clean_domain-IsDomain s d e = let i = cleaned-IsDomain s d e in (i, clean_domain-same d i)
