-- ===== src/Domains/Tests.antt =====
-- A table of at most one row in memory, and the properties at concrete requests.
use mailvault.Base.{
  ℕ, ◌≡◌, refl, subst, ap, true, false, Bool, ◌⊎◌, inl, inr, ◌↔◌, Option, none, some, List, [], ◌∷◌,
  arith, if◌then◌else◌, ◌==◌, All, Bytes, codes, to_lower, split, contains, has_prefix,
}
use mailvault.Mailbox.{is_empty}
use mailvault.Mailbox.Format.{is_alphanumeric, all_bytes, is_letter}
use mailvault.Validation.{status_pending}
use mailvault.Encryption.Keys.{
  hex_text, parse_public_key, scan_hex, hex_bytes, hex_pair, hex_digit, some_byte, digit_text,
}
use mailvault.Domains.{
  Domain, CreateDomainInput, UpdateDomainInput, Repository, Draws, given_or, create_domain,
  is_valid, is_valid_status, generate_api_key, generate_verification_token, new_domain, updated,
  outcome, create_drawn, update_found, update_domain, delete_found, delete_domain, unauthorized,
}
use mailvault.Domains.Names.{
  is_valid_domain, are_labels, all_labels, is_label, is_label_rest, ends_alphanumeric,
  is_label_byte,
}
use mailvault.Domains.HostName.{IsHostName, is_valid_domain_iff}
use mailvault.Domains.Rows.{Has, replaced, removed}
use mailvault.Domains.Changes.{
  IsRegistered, IsSame, Request, create_request, update_request, delete_request, run,
}
use mailvault.Domains.Registry.{Table, history-Registered, domain_kept}

abbrev World : Type 0
World = Option Domain

abbrev with_id : ℕ → World → Option Domain
with_id id none = none
with_id id (some d) = if d.id == id then some d else none

abbrev listed : World → List Domain
listed none = []
listed (some d) = d ∷ []

abbrev insert : World → Domain → World × Bool
insert none d = (some d, true)
insert (some e) d = (some e, false)

abbrev write : World → Domain → World × Bool
write none d = (none, false)
write (some e) d = (some (if e.id == d.id then d else e), e.id == d.id)

abbrev erase : World → ℕ → World × Bool
erase none id = (none, false)
erase (some e) id = (if e.id == id then none else some e, e.id == id)

abbrev memory : Repository
memory = record {
  World = World;
  create = insert;
  get_by_id = λ w id. with_id id w;
  get_by_domain = λ w name. none;
  get_by_api_key = λ w key. w;
  get_by_user_id = λ w user. some (listed w);
  update = write;
  delete_row = erase;
  can_create_domain = λ w user. true;
}

abbrev Queried : World → ℕ → Domain → Type 0
Queried w id d =
    (d.id ≡ id)
    × ((e : Domain) → Has (λ x. e ≡ x) (listed w) → e.id ≡ id → e ≡ d)
    × Has (λ x. d ≡ x) (listed w)

insert_rows :
    (w : World) (d : Domain)
    → (listed (insert w d).0 ≡ listed w) ⊎ (listed (insert w d).0 ≡ d ∷ listed w)
insert_rows none d = inr refl
insert_rows (some e) d = inl refl

write_rows :
    (w : World) (d : Domain)
    → (listed (write w d).0 ≡ listed w) ⊎ (listed (write w d).0 ≡ replaced d (listed w))
unfolding replaced
write_rows none d = inl refl
write_rows (some e) d = inr refl

erase_rows :
    (w : World) (id : ℕ)
    → (listed (erase w id).0 ≡ listed w) ⊎ (listed (erase w id).0 ≡ removed id (listed w))
unfolding removed
erase_rows none id = inl refl
erase_rows (some e) id = erased (e.id == id)
  where
    erased :
        (b : Bool)
        → (listed (if b then none else some e) ≡ e ∷ [])
          ⊎ (listed (if b then none else some e) ≡ (if b then [] else e ∷ []))
    erased true = inr refl
    erased false = inl refl

single : (e x : Domain) → (x ≡ e) ⊎ ⊥ → x ≡ e
single e x (inl h) = h
single e x (inr h) = elim h [ ]

queried : (w : World) (id : ℕ) (d : Domain) → with_id id w ≡ some d → Queried w id d
queried none id d h = absurd (ground (arith, h))
queried (some e) id d h = matched (e.id == id) (λ t. ground (arith, t)) h
  where
    matched :
        (b : Bool)
        → (b ≡ true → e.id ≡ id)
        → (if b then some e else none) ≡ some d
        → Queried (some e) id d
    matched true same h =
        subst (Queried (some e) id) (ap (λ o. given_or o e) h)
          (same refl, λ x row i. single e x row, inl refl)
    matched false same h = absurd (ground (arith, h))

abbrev memory-Table : Table memory
memory-Table = record {
  rows = listed;
  creates = insert_rows;
  updates = write_rows;
  deletes = erase_rows;
  queries = queried;
}

abbrev key : Bytes
key = codes "x25519:000102030405060708090a0b0c0d0e0f101112131415161718191a1b1c1d1e1f"

abbrev draws : Draws
draws = record {
  api_key_bytes = some (1 ∷ 2 ∷ []);
  token_bytes = some (254 ∷ []);
  new_id = 7;
  now = 100;
}

abbrev request : CreateDomainInput
request = record {
  user_id = 3;
  domain = codes "Mail.Example-1.com";
  public_key = key;
  storage_enabled = none;
  auto_create_address = none;
}

abbrev stored : Domain
stored = record {
  id = 7;
  user_id = 3;
  domain = codes "mail.example-1.com";
  public_key = key;
  api_key = codes "pm_0102";
  storage_enabled = true;
  auto_create_address = false;
  verification_status = status_pending;
  verification_token = codes "fe";
  created_at = 100;
  updated_at = 100;
}

is_created : create_domain memory none draws request ≡ (some stored, inr stored)
unfolding create_domain create_drawn is_empty parse_public_key is_valid_domain to_lower
    generate_api_key generate_verification_token scan_hex hex_bytes hex_pair hex_digit some_byte
    has_prefix are_labels all_labels is_label is_label_rest ends_alphanumeric is_label_byte
    is_alphanumeric is_letter all_bytes split contains is_valid new_domain outcome is_valid_status
    hex_text digit_text
is_created = refl

abbrev no_key : UpdateDomainInput
no_key = record {
  public_key = some (codes "no key");
  storage_enabled = none;
  auto_create_address = none;
}

-- An update takes any text as a public key.
any_key_updated :
    update_domain memory (some stored) 200 7 no_key
    ≡ (some (updated 200 no_key stored), inr (updated 200 no_key stored))
unfolding update_domain update_found is_valid updated is_empty is_valid_status outcome
any_key_updated = refl

stranger_refused : delete_domain memory (some stored) 7 4 ≡ (some stored, some unauthorized)
unfolding delete_domain delete_found
stranger_refused = refl

owner_deletes : delete_domain memory (some stored) 7 3 ≡ (none, none)
unfolding delete_domain delete_found
owner_deletes = refl

name_of : Bytes → Bool
unfolding is_valid_domain are_labels all_labels is_label is_label_rest ends_alphanumeric
    is_label_byte is_alphanumeric is_letter all_bytes split contains
name_of s = is_valid_domain s

names :
    (name_of (codes "localhost") ≡ false)
    × (name_of (codes "a..com") ≡ false)
    × (name_of (codes "-a.com") ≡ false)
    × (name_of (codes "a-.com") ≡ false)
    × (name_of (codes "a.com.") ≡ false)
    × (name_of (codes "A-1.com") ≡ true)
unfolding name_of
names = (refl, refl, refl, refl, refl, refl)

abbrev requests : List Request
requests =
    create_request draws request
    ∷ update_request 200 7 no_key
    ∷ delete_request 7 4
    ∷ delete_request 8 3
    ∷ []

history-Registered_example : All IsRegistered (listed (run memory none requests))
history-Registered_example = history-Registered memory memory-Table none requests tt

domain_kept_example : Has (IsSame stored) (listed (run memory (some stored) requests))
domain_kept_example =
    domain_kept memory memory-Table stored (some stored) requests
      (inl (record { id = refl; user_id = refl; domain = refl; api_key = refl }))
      (λ h. cc, (λ h. cc, (λ h. ground (arith, h), (λ h. ground (arith, h), tt))))

is_valid_domain_iff_example :
    (is_valid_domain (codes "mail.example-1.com") ≡ true) ↔ IsHostName (codes "mail.example-1.com")
is_valid_domain_iff_example = is_valid_domain_iff (codes "mail.example-1.com")
