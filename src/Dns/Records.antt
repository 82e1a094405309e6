-- ===== src/Dns/Records.antt =====
-- What the checks of MX and TXT records of domain/validation/dns_service.go find.
use Prim.Native.String.{String}
use mailvault.Base.{
  subst, ◌≡◌, ◌≢◌, refl, ◌⊎◌, inl, inr, ◌↔◌, Bool, true, false, not, is_nil, ◌&&◌, ◌||◌, List, [],
  ◌∷◌, Option, none, some, arith, Bool-cases, All, Bytes, same_text, same_text_refl, same_text→eq,
  to_lower,
}
use mailvault.Dns.{
  MxRecord, Resolver, trim_dot, convert, lower_all, hosts, is_in, not_in, is_empty, mx_result,
  matching, with_match, txt_result, validate_mx_records, validate_txt_record,
}

abbrev pub Among : List Bytes → Bytes → Type 0
Among [] s = ⊥
Among (t ∷ rest) s = (t ≡ s) ⊎ Among rest s

-- A record of the answer has the host, up to case and a dot at its end.
abbrev pub Serves : List MxRecord → Bytes → Type 0
Serves [] s = ⊥
Serves (mx ∷ rest) s = (to_lower (trim_dot mx.host) ≡ to_lower s) ⊎ Serves rest s

-- A text of the list is the given one up to case.
abbrev pub Matches : List Bytes → Bytes → Type 0
Matches [] s = ⊥
Matches (t ∷ rest) s = (to_lower t ≡ to_lower s) ⊎ Matches rest s

same_text_iff : (s t : Bytes) → (same_text s t ≡ true) ↔ (s ≡ t)
same_text_iff s t = (same_text→eq s t, λ e. rw e (same_text_refl t))

or_iff {ℓ κ} :
    {P : Type ℓ} {Q : Type κ} (b c : Bool)
    → ((b ≡ true) ↔ P)
    → ((c ≡ true) ↔ Q)
    → ((b || c) ≡ true) ↔ (P ⊎ Q)
or_iff true c p q = (λ h. inl (p.0 refl), λ h. refl)
or_iff false c p q =
    (λ h. inr (q.0 h), λ h. elim h [ inl x ↦ absurd (ground (arith, p.1 x)) | inr y ↦ q.1 y ])

is_in-Serves :
    (answer : List MxRecord) (s : Bytes)
    → (is_in (lower_all (hosts (convert answer))) (to_lower s) ≡ true) ↔ Serves answer s
unfolding is_in lower_all hosts convert
is_in-Serves [] s = (λ h. absurd (ground (arith, h)), λ h. absurd h)
is_in-Serves (mx ∷ rest) s = or_iff _ _ (same_text_iff _ _) (is_in-Serves rest s)

is_in-Matches :
    (known : List Bytes) (s : Bytes)
    → (is_in (lower_all known) (to_lower s) ≡ true) ↔ Matches known s
unfolding is_in lower_all
is_in-Matches [] s = (λ h. absurd (ground (arith, h)), λ h. absurd h)
is_in-Matches (t ∷ rest) s = or_iff _ _ (same_text_iff _ _) (is_in-Matches rest s)

same :
    {x s : Bytes} {b : Bool} (known : List Bytes)
    → x ≡ s
    → is_in known (to_lower x) ≡ b
    → is_in known (to_lower s) ≡ b
same {b = b} known e h = subst (λ y. is_in known (to_lower y) ≡ b) e h

not_in-Among :
    (known : List Bytes) (xs : List Bytes) (s : Bytes)
    → Among (not_in known xs) s ↔ (Among xs s × (is_in known (to_lower s) ≡ false))
unfolding not_in
not_in-Among known [] s = (λ h. absurd h, λ h. h.0)
not_in-Among known (x ∷ xs) s = elim (Bool-cases (is_in known (to_lower x))) [
  | inl old ↦ rw old (
    λ m. let (a, f) = (not_in-Among known xs s).0 m in (inr a, f),
    λ h. elim h.0 [
      | inl e ↦ absurd (ground (arith, same known e old))
      | inr a ↦ (not_in-Among known xs s).1 (a, h.1)
    ],
  )
  | inr new ↦ rw new (
    λ m. elim m [
      | inl e ↦ (inl e, same known e new)
      | inr n ↦ let (a, f) = (not_in-Among known xs s).0 n in (inr a, f)
    ],
    λ h. elim h.0 [ inl e ↦ inl e | inr a ↦ inr ((not_in-Among known xs s).1 (a, h.1)) ],
  )
]

is_empty-not_in :
    (known : List Bytes) (xs : List Bytes)
    → (is_empty (not_in known xs) ≡ true) ↔ All (λ s. is_in known (to_lower s) ≡ true) xs
unfolding not_in is_empty
is_empty-not_in known [] = (λ h. tt, λ h. refl)
is_empty-not_in known (x ∷ xs) = ground (arith, is_empty-not_in known xs)

matching-Matches :
    (records : List Bytes) (expected : Bytes)
    → (is_nil (matching expected records) ≡ false) ↔ Matches records expected
unfolding matching
matching-Matches [] expected = (λ h. absurd (ground (arith, h)), λ h. absurd h)
matching-Matches (r ∷ rest) expected =
    ground (arith, matching-Matches rest expected, same_text_iff (to_lower r) (to_lower expected))

convert_empty : (answer : List MxRecord) → is_empty (convert answer) ≡ is_empty answer
unfolding convert is_empty
convert_empty [] = refl
convert_empty (mx ∷ rest) = refl

All-iff {ℓ κ} :
    {A : Type 0} {P : A → Type ℓ} {Q : A → Type κ} (xs : List A)
    → ((x : A) → P x ↔ Q x)
    → All P xs ↔ All Q xs
All-iff [] f = (λ h. tt, λ h. tt)
All-iff (x ∷ xs) f =
    (λ h. ((f x).0 h.0, (All-iff xs f).0 h.1), λ h. ((f x).1 h.0, (All-iff xs f).1 h.1))

and_iff {ℓ κ} :
    {P : Type ℓ} {Q : Type κ} (b c : Bool)
    → ((b ≡ true) ↔ P)
    → ((c ≡ true) ↔ Q)
    → ((b && c) ≡ true) ↔ (Q × P)
and_iff true c p q = (λ h. (q.0 h, p.0 refl), λ h. q.1 h.0)
and_iff false c p q = (λ h. absurd (ground (arith, h)), λ h. absurd (ground (arith, p.1 h.1)))

is_empty-not : (answer : List MxRecord) → (not (is_empty (convert answer)) ≡ true) ↔ (answer ≢ [])
unfolding convert is_empty
is_empty-not [] = (λ h. absurd (ground (arith, h)), λ h. absurd (h refl))
is_empty-not (mx ∷ rest) = (λ h e. absurd (ground (arith, e)), λ h. refl)

-- The servers that the answer lacks, and the test for there being none.
missing-Serves :
    (answer : List MxRecord) (expected : List Bytes) (s : Bytes)
    → Among (not_in (lower_all (hosts (convert answer))) expected) s
      ↔ (Among expected s × ¬ Serves answer s)
missing-Serves answer expected s =
    let known = lower_all (hosts (convert answer)) in
    let both = not_in-Among known expected s in
    let served = is_in-Serves answer s in
    (
      λ m. let (a, f) = both.0 m in (a, λ v. ground (arith, f, served.1 v)),
      λ h. elim (Bool-cases (is_in known (to_lower s))) [
        | inl present ↦ absurd (h.1 (served.0 present))
        | inr missing ↦ both.1 (h.0, missing)
      ],
    )

module _ (resolver : Resolver) where
  -- When the lookup of the MX records gives an answer, the check is passed exactly if the answer is
  -- not empty and has a record for each expected server, up to case and a dot at its end. A server is
  -- reported missing exactly if it is expected and no record has it.
  pub validate_mx_records_correct :
      (domain : Bytes) (expected : List Bytes) (answer : List MxRecord) (s : Bytes)
      → resolver.lookup_mx domain ≡ inr answer
      → let r = validate_mx_records resolver domain expected in
        ((r.valid ≡ true) ↔ ((answer ≢ []) × All (Serves answer) expected))
        × (Among r.missing_servers s ↔ (Among expected s × ¬ Serves answer s))
  unfolding validate_mx_records mx_result
  validate_mx_records_correct domain expected answer s h = rw h (
    and_iff _ _
        (
          λ e. (All-iff expected (is_in-Serves answer)).0 ((is_empty-not_in _ expected).0 e),
          λ a. (is_empty-not_in _ expected).1 ((All-iff expected (is_in-Serves answer)).1 a),
        )
        (is_empty-not answer),
    missing-Serves answer expected s,
  )

  -- When the lookup of the TXT records gives an answer, the check is passed exactly if one of them is
  -- the expected text up to case.
  pub validate_txt_record-Matches :
      (domain expected : Bytes) (records : List Bytes)
      → resolver.lookup_txt domain ≡ inr records
      → ((validate_txt_record resolver domain expected).valid ≡ true) ↔ Matches records expected
  unfolding validate_txt_record txt_result
  validate_txt_record-Matches domain expected records h =
      rw h (found (matching expected records) (matching-Matches records expected))
    where
      found :
          (o : Option Bytes)
          → ((is_nil o ≡ false) ↔ Matches records expected)
          → ((with_match expected records o).valid ≡ true) ↔ Matches records expected
      found none m = (λ e. absurd (ground (arith, e)), λ v. absurd (ground (arith, m.1 v)))
      found (some r) m = (λ e. m.0 refl, λ v. refl)

  -- A check whose lookup fails is not passed.
  pub mx_lookup_failed :
      (domain : Bytes) (expected : List Bytes) (err : String)
      → resolver.lookup_mx domain ≡ inl err
      → (validate_mx_records resolver domain expected).valid ≡ false
  unfolding validate_mx_records mx_result
  mx_lookup_failed domain expected err h = rw h refl

  pub txt_lookup_failed :
      (domain expected : Bytes) (err : String)
      → resolver.lookup_txt domain ≡ inl err
      → (validate_txt_record resolver domain expected).valid ≡ false
  unfolding validate_txt_record txt_result
  txt_lookup_failed domain expected err h = rw h refl
