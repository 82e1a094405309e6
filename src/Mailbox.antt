-- ===== src/Mailbox.antt =====
-- The mailboxes and the messages received in them: the types of domain/email/usecase.go and of the
-- repositories that it calls, which are parameters. Texts are ASCII; ids are numbers, 0 the nil UUID.
use mailvault.Base.{
  ℕ, ℤ, Bool, ◌&&◌, not, ◌⊎◌, List, [], ◌∷◌, true, false, Option, ◌==◌, Bytes, ltb, length, some,
  none, if◌then◌else◌,
}
pub mod Format
pub mod Addresses
pub mod Received
pub mod Ownership
pub mod Stored
pub mod Effects
mod Tests

-- entities.EmailAddress
pub record EmailAddress : Type 0 where
  pub id : ℕ
  pub domain_id : ℕ
  pub local_part : Bytes
  pub forward_addresses : List Bytes
  pub forwarding_enabled : Bool
  pub created_at : ℕ
  pub updated_at : ℕ

-- entities.ReceivedEmail, without its sequence number, which the database gives, and its statistics.
pub record ReceivedEmail : Type 0 where
  pub id : ℕ
  pub email_address_id : Option ℕ
  pub from_address : Bytes
  pub subject : Option Bytes
  pub encrypted_body : Bytes
  pub domain_name : Bytes
  pub email_address : Bytes
  pub received_at : ℕ

-- The checked fields of GetReceivedEmailsFilter; the others are handed on.
pub record ReceivedFilter : Type 0 where
  pub sort_by : Bytes
  pub sort_order : Bytes
  pub security_status : Bytes

-- What of entities.Domain the use case reads.
pub record OwnedDomain : Type 0 where
  pub id : ℕ
  pub user_id : ℕ
  pub domain : Bytes

-- The errors, by the text that the code gives them. `failed` ones come from a repository.
pub data MailboxError : Type 0 where
  id_required domain_id_required user_id_required local_part_required : MailboxError
  invalid_local_part invalid_forward_address invalid_data already_exists : MailboxError
  invalid_address no_associated_address access_denied : MailboxError
  from_required body_required : MailboxError
  invalid_sort_field invalid_sort_order invalid_security_status : MailboxError
  get_email_failed get_address_failed get_domain_failed : MailboxError
  create_failed update_failed delete_failed : MailboxError

-- The three repositories. A query gives none for an error, a row that is missing being one; a Boolean
-- is whether the call went well.
pub record Repositories : Type 1 where
  pub World : Type 0
  pub get_address : World → ℕ → Option EmailAddress
  pub get_by_local_part_and_domain : World → Bytes → ℕ → Option EmailAddress
  pub get_by_domain_id : World → ℕ → Option (List EmailAddress)
  pub create_address : World → EmailAddress → World × Bool
  pub update_address : World → EmailAddress → World × Bool
  pub delete_address : World → ℕ → World × Bool
  pub get_received : World → ℕ → Option ReceivedEmail
  pub get_by_email_address_id : World → ℕ → ℕ → ℤ → Option (List ReceivedEmail)
  pub get_by_user_id_with_filter :
      World → ℕ → ℕ → ℤ → ReceivedFilter → Option (List ReceivedEmail × ℕ)
  pub create_received : World → ReceivedEmail → World × Bool
  pub delete_received : World → ℕ → World × Bool
  pub get_domain : World → ℕ → Option OwnedDomain
  pub get_by_domain : World → Bytes → Option OwnedDomain

-- s == ""
unfoldable pub is_empty {ℓ} : {A : Type ℓ} → List A → Bool
is_empty [] = true
is_empty (x ∷ xs) = false

-- EmailAddress.IsValid
unfoldable pub is_valid_address : EmailAddress → Bool
unfolding is_empty
is_valid_address a = not (is_empty a.local_part) && not (a.domain_id == 0)

-- EmailAddress.HasForwarding
unfoldable pub has_forwarding : EmailAddress → Bool
has_forwarding a = a.forwarding_enabled && ltb 0 (length a.forward_addresses)

-- ReceivedEmail.IsValid
unfoldable pub is_valid_received : ReceivedEmail → Bool
unfolding is_empty
is_valid_received r = not (is_empty r.from_address) && not (is_empty r.encrypted_body)

-- A write of a repository, with the error for a failed one.
unfoldable pub outcome {ℓ} :
    {W : Type ℓ} {A : Type 0} → MailboxError → A → W × Bool → W × (MailboxError ⊎ A)
outcome err a (w, ok) = (w, if ok then ◌⊎◌.inr a else ◌⊎◌.inl err)
