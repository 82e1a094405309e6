-- ===== src/Mailbox/Addresses.antt =====
-- The operations on mailboxes of domain/email/usecase.go.
use mailvault.Base.{
  ℕ, Bool, true, false, not, ◌⊎◌, inl, inr, List, [], ◌∷◌, Option, none, some, ◌==◌, if◌then◌else◌,
  Bytes, to_lower, is_nil,
}
use mailvault.Address.{AddressError, parse_email_address}
use mailvault.Mailbox.{
  EmailAddress, OwnedDomain, MailboxError, id_required, domain_id_required, local_part_required,
  invalid_local_part, invalid_forward_address, invalid_data, already_exists, invalid_address,
  get_address_failed, get_domain_failed, create_failed, update_failed, delete_failed, Repositories,
  is_empty, is_valid_address, outcome,
}
use mailvault.Mailbox.Format.{is_valid_local_part, is_valid_email}

pub record CreateEmailAddressInput : Type 0 where
  pub domain_id : ℕ
  pub local_part : Bytes
  pub forward_addresses : List Bytes
  pub forwarding_enabled : Bool

-- A nil slice or pointer leaves the field as it is.
pub record UpdateEmailAddressInput : Type 0 where
  pub forward_addresses : Option (List Bytes)
  pub forwarding_enabled : Option Bool

-- The loop of a creation, which passes over empty entries.
unfoldable pub forwards_or_empty : List Bytes → Bool
forwards_or_empty [] = true
forwards_or_empty (a ∷ rest) =
    let others = forwards_or_empty rest in
    if is_empty a then others else if is_valid_email a then others else false

-- The loop of an update, which does not.
unfoldable pub forwards_valid : List Bytes → Bool
forwards_valid [] = true
forwards_valid (a ∷ rest) =
    let others = forwards_valid rest in if is_valid_email a then others else false

unfoldable pub set_forwarding : Option Bool → EmailAddress → EmailAddress
set_forwarding none a = a
set_forwarding (some enabled) a = record a { forwarding_enabled = enabled }

unfoldable pub new_address : ℕ → ℕ → CreateEmailAddressInput → EmailAddress
new_address id now req = record {
  id = id;
  domain_id = req.domain_id;
  local_part = to_lower req.local_part;
  forward_addresses = req.forward_addresses;
  forwarding_enabled = req.forwarding_enabled;
  created_at = now;
  updated_at = now;
}

module _ (repos : Repositories) where
  open repos use {
    World, get_address, get_by_local_part_and_domain, get_by_domain_id, create_address,
    update_address, delete_address, get_by_domain,
  }

  unfoldable pub create_email_address : World → EmailAddress → World × (MailboxError ⊎ EmailAddress)
  create_email_address w a =
      if not (is_valid_address a)
      then (w, inl invalid_data)
      else outcome create_failed a (create_address w a)

  -- CreateEmailAddressFromInput, with the id drawn and the time.
  unfoldable pub create_email_address_from_input :
      World → ℕ → ℕ → CreateEmailAddressInput → World × (MailboxError ⊎ EmailAddress)
  create_email_address_from_input w id now req =
      if req.domain_id == 0
      then (w, inl domain_id_required)
      else if is_empty req.local_part
      then (w, inl local_part_required)
      else if not (is_valid_local_part req.local_part)
      then (w, inl invalid_local_part)
      else if not (is_nil (get_by_local_part_and_domain w (to_lower req.local_part) req.domain_id))
      then (w, inl already_exists)
      else if not (forwards_or_empty req.forward_addresses)
      then (w, inl invalid_forward_address)
      else create_email_address w (new_address id now req)

  unfoldable pub update_forwards : Option (List Bytes) → EmailAddress → MailboxError ⊎ EmailAddress
  update_forwards none a = inr a
  update_forwards (some forwards) a =
      if forwards_valid forwards
      then inr (record a { forward_addresses = forwards })
      else inl invalid_forward_address

  unfoldable pub update_found :
      World
      → ℕ
      → UpdateEmailAddressInput
      → MailboxError ⊎ EmailAddress
      → World × (MailboxError ⊎ EmailAddress)
  update_found w now req (inl err) = (w, inl err)
  update_found w now req (inr a) =
      let a' = record (set_forwarding req.forwarding_enabled a) { updated_at = now } in
      if not (is_valid_address a')
      then (w, inl invalid_data)
      else outcome update_failed a' (update_address w a')

  unfoldable pub update_row :
      World
      → ℕ
      → UpdateEmailAddressInput
      → Option EmailAddress
      → World × (MailboxError ⊎ EmailAddress)
  update_row w now req none = (w, inl get_address_failed)
  update_row w now req (some a) = update_found w now req (update_forwards req.forward_addresses a)

  unfoldable pub update_email_address :
      World → ℕ → ℕ → UpdateEmailAddressInput → World × (MailboxError ⊎ EmailAddress)
  unfolding update_forwards update_found update_row
  update_email_address w now id req =
      if id == 0 then (w, inl id_required) else update_row w now req (get_address w id)

  unfoldable pub of_query {ℓ} : {A : Type ℓ} → MailboxError → Option A → MailboxError ⊎ A
  of_query err none = inl err
  of_query err (some a) = inr a

  unfoldable pub get_email_addresses_by_domain_id : World → ℕ → MailboxError ⊎ List EmailAddress
  unfolding of_query
  get_email_addresses_by_domain_id w id =
      if id == 0
      then inl domain_id_required
      else of_query get_address_failed (get_by_domain_id w id)

  unfoldable pub get_email_address_by_id : World → ℕ → MailboxError ⊎ EmailAddress
  unfolding of_query
  get_email_address_by_id w id =
      if id == 0 then inl id_required else of_query get_address_failed (get_address w id)

  unfoldable pub in_domain : World → Bytes → Option OwnedDomain → MailboxError ⊎ EmailAddress
  unfolding of_query
  in_domain w local_part none = inl get_domain_failed
  in_domain w local_part (some d) =
      of_query get_address_failed (get_by_local_part_and_domain w (to_lower local_part) d.id)

  unfoldable pub at_address : World → AddressError ⊎ (Bytes × Bytes) → MailboxError ⊎ EmailAddress
  unfolding in_domain
  at_address w (inl err) = inl invalid_address
  at_address w (inr (local_part, domain)) =
      in_domain w local_part (get_by_domain w (to_lower domain))

  unfoldable pub get_email_address_by_address : World → Bytes → MailboxError ⊎ EmailAddress
  unfolding at_address
  get_email_address_by_address w address = at_address w (parse_email_address address)

  unfoldable pub delete_email_address : World → ℕ → World × (MailboxError ⊎ ℕ)
  delete_email_address w id =
      if id == 0 then (w, inl id_required) else outcome delete_failed id (delete_address w id)
