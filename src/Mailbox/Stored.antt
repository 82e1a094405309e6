-- ===== src/Mailbox/Stored.antt =====
-- What CreateEmailAddressFromInput of domain/email/usecase.go stores, and that it is found again.
use mailvault.Base.{
  subst, ℕ, ◌≡◌, ◌≢◌, refl, ◌∙◌, ◌⊎◌, inl, inr, true, false, not, List, [], ◌∷◌, ◌++◌, Option, none,
  some, arith, ◌==◌, if_rule, Bool-cases, All, Bytes, is_nil, to_lower,
}
use mailvault.Address.Domain.{IsDomain}
use mailvault.Address.RoundTrip.{Plain, parse_email_address-append}
use mailvault.Mailbox.{
  EmailAddress, OwnedDomain, MailboxError, domain_id_required, local_part_required,
  invalid_local_part, already_exists, invalid_forward_address, create_failed, Repositories,
  is_empty, is_valid_address, outcome,
}
use mailvault.Mailbox.Format.{
  all_bytes, is_local_byte, is_alphanumeric, is_valid_local_part, is_valid_email,
}
use mailvault.Mailbox.Addresses.{
  CreateEmailAddressInput, forwards_or_empty, new_address, create_email_address,
  create_email_address_from_input, get_email_address_by_address, at_address, in_domain, of_query,
}

local_bytes-Plain : (s : Bytes) → all_bytes is_local_byte s ≡ true → Plain s
unfolding all_bytes is_local_byte is_alphanumeric
local_bytes-Plain [] h = tt
local_bytes-Plain (c ∷ s) h = (ground (arith, h), local_bytes-Plain s (ground (arith, h)))

is_valid_local_part-Plain : (s : Bytes) → is_valid_local_part s ≡ true → (s ≢ []) × Plain s
unfolding is_valid_local_part
is_valid_local_part-Plain [] h = absurd (ground (arith, h))
is_valid_local_part-Plain (c ∷ s) h =
    (λ e. ground (arith, e), local_bytes-Plain (c ∷ s) (ground (arith, h)))

valid_nonempty :
    (s : Bytes)
    → is_valid_local_part s ≡ true
    → (is_empty s ≡ false) × (is_empty (to_lower s) ≡ false)
unfolding is_valid_local_part is_empty to_lower
valid_nonempty [] h = absurd (ground (arith, h))
valid_nonempty (c ∷ s) h = (refl, refl)

not_nil-none : (o : Option EmailAddress) → not (is_nil o) ≡ false → o ≡ none
not_nil-none none h = refl
not_nil-none (some a) h = absurd (ground (arith, h))

-- Each entry is empty or an address.
abbrev pub EmptyOrValid : List Bytes → Type 0
EmptyOrValid forwards = All (λ a. (a ≡ []) ⊎ (is_valid_email a ≡ true)) forwards

forwards_or_empty-All :
    (forwards : List Bytes) → forwards_or_empty forwards ≡ true → EmptyOrValid forwards
unfolding forwards_or_empty is_empty
forwards_or_empty-All [] h = tt
forwards_or_empty-All ([] ∷ rest) h = (inl refl, forwards_or_empty-All rest h)
forwards_or_empty-All ((c ∷ s) ∷ rest) h =
    (inr (ground (arith, h)), forwards_or_empty-All rest (ground (arith, h)))

All-forwards_or_empty :
    (forwards : List Bytes) → EmptyOrValid forwards → forwards_or_empty forwards ≡ true
unfolding forwards_or_empty is_empty
All-forwards_or_empty [] h = refl
All-forwards_or_empty ([] ∷ rest) h = All-forwards_or_empty rest h.1
All-forwards_or_empty ((c ∷ s) ∷ rest) h = ground (arith, h.0, All-forwards_or_empty rest h.1)

module _ (repos : Repositories) (w : repos.World) (req : CreateEmailAddressInput) where
  open repos use {World, get_by_local_part_and_domain, create_address, get_by_domain}

  -- What a creation asks of its input.
  pub record IsAcceptable : Type 0 where
    pub domain_given : req.domain_id ≢ 0
    pub local_valid : is_valid_local_part req.local_part ≡ true
    pub free : get_by_local_part_and_domain w (to_lower req.local_part) req.domain_id ≡ none
    pub forwards : EmptyOrValid req.forward_addresses

  -- The row has the input, its local part in lower case.
  pub record Fits (a : EmailAddress) : Type 0 where
    pub domain_id : a.domain_id ≡ req.domain_id
    pub local_part : a.local_part ≡ to_lower req.local_part
    pub forward_addresses : a.forward_addresses ≡ req.forward_addresses
    pub forwarding_enabled : a.forwarding_enabled ≡ req.forwarding_enabled

  -- The endings of a creation: the world and the result that it leaves.
  pub data Creation : World → MailboxError ⊎ EmailAddress → Type 0 where
    refused : (err : MailboxError) → ¬ IsAcceptable → Creation w (inl err)
    failed :
        (a : EmailAddress)
        → IsAcceptable
        → (create_address w a).1 ≡ false
        → Creation (create_address w a).0 (inl create_failed)
    created :
        (a : EmailAddress)
        → IsAcceptable
        → Fits a
        → (create_address w a).1 ≡ true
        → Creation (create_address w a).0 (inr a)

  abbrev CreationResult : World × (MailboxError ⊎ EmailAddress) → Type 0
  CreationResult (w', r) = Creation w' r

  valid_new : (id now : ℕ) → IsAcceptable → is_valid_address (new_address id now req) ≡ true
  unfolding is_valid_address new_address
  valid_new id now a =
      ground (arith, (valid_nonempty req.local_part a.local_valid).1, a.domain_given)

  new_address-Fits : (id now : ℕ) → Fits (new_address id now req)
  unfolding new_address
  new_address-Fits id now = record {
    domain_id = refl;
    local_part = refl;
    forward_addresses = refl;
    forwarding_enabled = refl;
  }

  create-Creation :
      (id now : ℕ)
      → IsAcceptable
      → CreationResult (create_email_address repos w (new_address id now req))
  unfolding create_email_address outcome
  create-Creation id now ok =
      let a = new_address id now req in
      rw (valid_new id now ok) (elim (Bool-cases (create_address w a).1) [
        | inl done ↦ rw done (created a ok (new_address-Fits id now) done)
        | inr lost ↦ rw lost (failed a ok lost)
      ])

  -- CreateEmailAddressFromInput refuses an input without a domain, with a bad or taken local part or
  -- with a bad forward address, and then changes nothing. Else it makes one call that stores the input,
  -- its local part in lower case; it fails only if the call does.
  pub create_email_address_from_input-Creation :
      (id now : ℕ) → let r = create_email_address_from_input repos w id now req in Creation r.0 r.1
  unfolding create_email_address_from_input
  create_email_address_from_input-Creation id now =
      if_rule CreationResult (req.domain_id == 0)
        (λ h. refused domain_id_required (λ a. ground (arith, a.domain_given)))
        λ given.
          if_rule CreationResult (is_empty req.local_part)
            (λ h.
              refused local_part_required
                (λ a. ground (arith, h, (valid_nonempty req.local_part a.local_valid).0)))
            λ present.
              if_rule CreationResult (not (is_valid_local_part req.local_part))
                (λ h. refused invalid_local_part (λ a. ground (arith, a.local_valid)))
                λ valid.
                  if_rule CreationResult
                    (not (
                      is_nil
                        (get_by_local_part_and_domain w (to_lower req.local_part) req.domain_id)))
                    (λ h. refused already_exists (λ a. ground (arith, a.free)))
                    λ free.
                      if_rule CreationResult (not (forwards_or_empty req.forward_addresses))
                        (λ h.
                          refused invalid_forward_address
                            (λ a. ground (arith, All-forwards_or_empty _ a.forwards)))
                        λ forwards. create-Creation id now (record {
                          domain_given = ground (arith, given);
                          local_valid = ground (arith, valid);
                          free = not_nil-none _ free;
                          forwards = forwards_or_empty-All _ (ground (arith, forwards));
                        })

-- A mailbox that was stored is found by its local part and domain, and storing it keeps the domains.
pub record FindsCreated (repos : Repositories) : Type 0 where
  pub finds :
      (w : repos.World) (a : EmailAddress)
      → (repos.create_address w a).1 ≡ true
      → repos.get_by_local_part_and_domain (repos.create_address w a).0 a.local_part a.domain_id
        ≡ some a
  pub keeps :
      (w : repos.World) (a : EmailAddress) (name : Bytes)
      → repos.get_by_domain (repos.create_address w a).0 name ≡ repos.get_by_domain w name

module _ (repos : Repositories) (laws : FindsCreated repos) where
  creation_found :
      (w : repos.World) (req : CreateEmailAddressInput) (d : OwnedDomain) (w' : repos.World)
      (r : MailboxError ⊎ EmailAddress) (a : EmailAddress)
      → Creation repos w req w' r
      → r ≡ inr a
      → IsDomain d.domain
      → repos.get_by_domain w d.domain ≡ some d
      → d.id ≡ req.domain_id
      → get_email_address_by_address repos w' (req.local_part ++ b'@' ∷ d.domain) ≡ inr a
  unfolding get_email_address_by_address at_address in_domain of_query
  creation_found w req d w' r a (refused err n) e i g s = absurd (ground (arith, e))
  creation_found w req d w' r a (failed b ok f) e i g s = absurd (ground (arith, e))
  creation_found w req d w' r a (created b ok f done) e i g s =
      let (n, plain) = is_valid_local_part-Plain req.local_part ok.local_valid in
      let parsed = parse_email_address-append req.local_part d.domain n plain i in
      let same_domain = laws.keeps w b d.domain ∙ g in
      let found : repos.get_by_local_part_and_domain (repos.create_address w b).0
            (to_lower req.local_part) d.id
          ≡ some b =
        ground (arith, laws.finds w b done, f.local_part, f.domain_id, s) in
      rw (parsed, i.lower, same_domain, found) e

  -- A mailbox that was created is the one found for the text of its address, the local part being
  -- written as it was asked for, in capitals or not, when the domain of the input has a clean name and
  -- is found by it.
  pub created_is_found :
      (w w' : repos.World) (id now : ℕ) (req : CreateEmailAddressInput) (d : OwnedDomain)
      (a : EmailAddress)
      → create_email_address_from_input repos w id now req ≡ (w', inr a)
      → IsDomain d.domain
      → repos.get_by_domain w d.domain ≡ some d
      → d.id ≡ req.domain_id
      → get_email_address_by_address repos w' (req.local_part ++ b'@' ∷ d.domain) ≡ inr a
  created_is_found w w' id now req d a e i g s =
      creation_found w req d w' (inr a) a
        (subst (CreationResult repos w req) e
          (create_email_address_from_input-Creation repos w req id now))
        refl i g s
