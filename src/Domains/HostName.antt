-- ===== src/Domains/HostName.antt =====
-- What isValidDomain of domain/domain/usecase.go accepts.
use mailvault.Base.{
  ℕ, ◌≤◌, ◌≡◌, refl, ◌↔◌, true, false, not, List, [], ◌∷◌, arith, All, Bytes, length, contains,
  ends_in, split,
}
use mailvault.Address.{starts_with}
use mailvault.Mailbox.Format.{is_alphanumeric, is_letter, all_bytes}
use mailvault.Domains.Names.{
  is_label_byte, ends_alphanumeric, is_label_rest, is_label, all_labels, are_labels,
  is_valid_domain,
}

-- 1 to 63 letters, digits and hyphens, without a hyphen at an end.
pub record IsLabel (l : Bytes) : Type 0 where
  pub nonempty : 1 ≤ length l
  pub short : length l ≤ 63
  pub bytes : all_bytes is_label_byte l ≡ true
  pub first : starts_with l b'-' ≡ false
  pub last : ends_in l b'-' ≡ false

-- Labels with dots between them, two at least, of 253 bytes at most.
pub record IsHostName (s : Bytes) : Type 0 where
  pub head : IsLabel (split s b'.').0
  pub rest : All IsLabel (split s b'.').1
  pub dotted : contains s b'.' ≡ true
  pub short : length s ≤ 253

-- At the end of a text of label bytes, an alphanumeric byte is one that is no hyphen.
ends_alphanumeric_lem :
    (c : ℕ) (s : Bytes)
    → all_bytes is_label_byte (c ∷ s) ≡ true
    → ends_alphanumeric (c ∷ s) ≡ not (ends_in (c ∷ s) b'-')
unfolding all_bytes is_label_byte ends_alphanumeric is_alphanumeric is_letter ends_in
ends_alphanumeric_lem c [] h = ground (arith, h)
ends_alphanumeric_lem c (d ∷ s) h = ends_alphanumeric_lem d s (ground (arith, h))

is_label-IsLabel : (l : Bytes) → is_label l ≡ true → IsLabel l
unfolding is_label is_label_rest is_label_byte is_alphanumeric is_letter all_bytes starts_with
    ends_in
is_label-IsLabel [] h = absurd (ground (arith, h))
is_label-IsLabel (c ∷ []) h = record {
  nonempty = omega arith;
  short = omega arith;
  bytes = ground (arith, h);
  first = ground (arith, h);
  last = ground (arith, h);
}
is_label-IsLabel (c ∷ d ∷ s) h =
    let bytes : all_bytes is_label_byte (d ∷ s) ≡ true = ground (arith, h) in
    record {
      nonempty = omega arith;
      short = ground (arith, h);
      bytes = ground (arith, h);
      first = ground (arith, h);
      last = ground (arith, h, ends_alphanumeric_lem d s bytes);
    }

IsLabel-is_label : (l : Bytes) → IsLabel l → is_label l ≡ true
unfolding is_label is_label_rest is_label_byte is_alphanumeric is_letter all_bytes starts_with
    ends_in
IsLabel-is_label [] h = absurd (ground (arith, h.nonempty))
IsLabel-is_label (c ∷ []) h = ground (arith, h.bytes, h.first)
IsLabel-is_label (c ∷ d ∷ s) h =
    let bytes : all_bytes is_label_byte (d ∷ s) ≡ true = ground (arith, h.bytes) in
    ground (arith, h.short, h.bytes, h.first, h.last, ends_alphanumeric_lem d s bytes)

all_labels-All : (parts : List Bytes) → all_labels parts ≡ true → All IsLabel parts
unfolding all_labels
all_labels-All [] h = tt
all_labels-All (s ∷ rest) h =
    (is_label-IsLabel s (ground (arith, h)), all_labels-All rest (ground (arith, h)))

All-all_labels : (parts : List Bytes) → All IsLabel parts → all_labels parts ≡ true
unfolding all_labels
All-all_labels [] h = refl
All-all_labels (s ∷ rest) h = ground (arith, IsLabel-is_label s h.0, All-all_labels rest h.1)

-- A name passes exactly when it is made of two labels at least, with dots between them, and has 253
-- bytes at most.
pub is_valid_domain_iff : (s : Bytes) → (is_valid_domain s ≡ true) ↔ IsHostName s
unfolding is_valid_domain are_labels
is_valid_domain_iff s = (
  λ h. record {
    head = is_label-IsLabel (split s b'.').0 (ground (arith, h));
    rest = all_labels-All (split s b'.').1 (ground (arith, h));
    dotted = ground (arith, h);
    short = ground (arith, h);
  },
  λ n. ground (arith, n.dotted, n.short, IsLabel-is_label _ n.head, All-all_labels _ n.rest),
)
