-- ===== src/Session/Outcome.antt =====
-- What becomes of a message for one recipient in app/smtp/session.go.
use mailvault.Base.{
  ◌≡◌, refl, Bool, true, false, not, ◌⊎◌, inl, inr, Option, none, some, arith, if_rule, Bytes,
}
use mailvault.Address.{AddressError, parse_email_address}
use mailvault.Verifier.{Action}
use mailvault.Session.{
  MailDomain, EmailAddress, SessionError, invalid_recipient, domain_not_configured,
  domain_not_verified, address_not_found, address_not_created, not_encrypted, Backend,
  parse_email_headers, prepend_header, is_verified, filter_error, is_quarantine, Checked, answer_to,
  store_encrypted, store_message, store_created, find_address, filter_message, check_domain_of,
  process_parsed, process_email,
}

module _ (backend : Backend) (recipient body : Bytes) where
  open backend use {
    World, get_domain_by_name, verify_email, authentication_results, get_email_address_by_address,
    new_id, create_email_address, encrypt, process_incoming_email,
  }

  -- The action on the message, and the message with the header of the results.
  abbrev pub action : Action
  action = verify_email (parse_email_headers body).1 recipient body

  abbrev pub signed_body : Bytes
  signed_body =
      prepend_header body (authentication_results (parse_email_headers body).1 recipient body)

  -- The recipient is an address of a domain that is configured and verified.
  abbrev pub Served : World → Bytes → MailDomain → Type 0
  Served w local_part domain =
      ((name : Bytes) × (parse_email_address recipient ≡ inr (local_part, name))
        × (get_domain_by_name w name ≡ some domain))
      × (is_verified domain.verification_status ≡ true)

  -- Why a message is refused before anything is stored.
  pub data Refused (w : World) : SessionError → Type 0 where
    no_address :
        (err : AddressError) → parse_email_address recipient ≡ inl err → Refused w invalid_recipient
    no_domain :
        (local_part name : Bytes)
        → parse_email_address recipient ≡ inr (local_part, name)
        → get_domain_by_name w name ≡ none
        → Refused w domain_not_configured
    no_verified_domain :
        (local_part name : Bytes) (domain : MailDomain)
        → parse_email_address recipient ≡ inr (local_part, name)
        → get_domain_by_name w name ≡ some domain
        → is_verified domain.verification_status ≡ false
        → Refused w domain_not_verified
    filtered :
        (err : SessionError) (local_part : Bytes) (domain : MailDomain)
        → Served w local_part domain
        → filter_error action ≡ some err
        → Refused w err
    no_mailbox :
        (local_part : Bytes) (domain : MailDomain)
        → Served w local_part domain
        → filter_error action ≡ none
        → get_email_address_by_address w recipient ≡ none
        → domain.auto_create_address ≡ false
        → Refused w address_not_found

  abbrev pub new_address : World → Bytes → MailDomain → EmailAddress
  new_address w local_part domain = record {
    id = new_id w;
    domain_id = domain.id;
    local_part = local_part;
  }

  -- The mailbox of the message: one that there is, or one made for it in a domain that allows that.
  pub data Reached (w : World) (local_part : Bytes) (domain : MailDomain)
      : World → EmailAddress → Bool → Type 0 where
    known :
        (address : EmailAddress)
        → get_email_address_by_address w recipient ≡ some address
        → Reached w local_part domain w address false
    made :
        get_email_address_by_address w recipient ≡ none
        → domain.auto_create_address ≡ true
        → (create_email_address w (new_address w local_part domain)).1 ≡ true
        → Reached w local_part domain
            (create_email_address w (new_address w local_part domain)).0
            (new_address w local_part domain)
            true

  -- What becomes of the message for the recipient.
  pub data Handled (w : World) : World × Option SessionError → Type 0 where
    refused : (err : SessionError) → Refused w err → Handled w (w, some err)
    no_mailbox_made :
        (local_part : Bytes) (domain : MailDomain)
        → Served w local_part domain
        → filter_error action ≡ none
        → get_email_address_by_address w recipient ≡ none
        → domain.auto_create_address ≡ true
        → (create_email_address w (new_address w local_part domain)).1 ≡ false
        → Handled w
            ((create_email_address w (new_address w local_part domain)).0, some address_not_created)
    unencrypted :
        (local_part : Bytes) (domain : MailDomain) (w' : World) (address : EmailAddress)
        (auto : Bool)
        → Served w local_part domain
        → filter_error action ≡ none
        → Reached w local_part domain w' address auto
        → encrypt signed_body domain.public_key ≡ none
        → Handled w (w', some not_encrypted)
    handed_on :
        (local_part : Bytes) (domain : MailDomain) (w' : World) (address : EmailAddress)
        (auto : Bool) (secret : Bytes)
        → Served w local_part domain
        → filter_error action ≡ none
        → Reached w local_part domain w' address auto
        → encrypt signed_body domain.public_key ≡ some secret
        → Handled w (
            answer_to backend (
              process_incoming_email w' (record {
                email_address_id = address.id;
                from_address = (parse_email_headers body).1;
                subject = (parse_email_headers body).0;
                body = secret;
                domain_id = domain.id;
                is_quarantined = is_quarantine action;
                auto_created = auto;
              })))

  module _ (w : World) (local_part : Bytes) (domain : MailDomain)
      (served : Served w local_part domain) where
    checked : Checked
    checked = record {
      domain = domain;
      local_part = local_part;
      subject = (parse_email_headers body).0;
      from = (parse_email_headers body).1;
      body = signed_body;
      is_quarantined = is_quarantine action;
    }

    stored :
        (w' : World) (address : EmailAddress) (auto : Bool)
        → filter_error action ≡ none
        → Reached w local_part domain w' address auto
        → (o : Option Bytes) → encrypt signed_body domain.public_key ≡ o
        → Handled w (store_encrypted backend w' checked address auto o)
    unfolding store_encrypted checked
    stored w' address auto p r none e = unencrypted local_part domain w' address auto served p r e
    stored w' address auto p r (some secret) e =
        handed_on local_part domain w' address auto secret served p r e

    found :
        filter_error action ≡ none
        → (o : Option EmailAddress) → get_email_address_by_address w recipient ≡ o
        → Handled w (find_address backend w checked o)
    unfolding find_address store_created store_message checked
    found p (some address) e =
        stored w address false p (known address e) (encrypt signed_body domain.public_key) refl
    found p none e =
        if_rule (Handled w) (not domain.auto_create_address)
          (λ closed.
            refused address_not_found
              (no_mailbox local_part domain served p e (ground (arith, closed))))
          (λ open_domain.
            go (ground (arith, open_domain))
              (create_email_address w (new_address w local_part domain)).1 refl)
      where
        go :
            domain.auto_create_address ≡ true
            → (b : Bool) → (create_email_address w (new_address w local_part domain)).1 ≡ b
            → Handled w (
                store_created backend checked
                  (new_address w local_part domain)
                  ((create_email_address w (new_address w local_part domain)).0, b))
        go allowed false f = no_mailbox_made local_part domain served p e allowed f
        go allowed true f =
            stored _ (new_address w local_part domain) true p (made e allowed f)
              (encrypt signed_body domain.public_key) refl

    filtered_or_found :
        (o : Option SessionError)
        → filter_error action ≡ o
        → Handled w (filter_message backend w recipient checked o)
    unfolding filter_message
    filtered_or_found (some err) e = refused err (filtered err local_part domain served e)
    filtered_or_found none e = found e (get_email_address_by_address w recipient) refl

  domain_checked :
      (w : World) (local_part name : Bytes)
      → parse_email_address recipient ≡ inr (local_part, name)
      → (o : Option MailDomain) → get_domain_by_name w name ≡ o
      → Handled w (check_domain_of backend w recipient local_part body o)
  unfolding check_domain_of checked
  domain_checked w local_part name e none f =
      refused domain_not_configured (no_domain local_part name e f)
  domain_checked w local_part name e (some domain) f =
      if_rule (Handled w) (not (is_verified domain.verification_status))
        (λ u.
          refused domain_not_verified
            (no_verified_domain local_part name domain e f (ground (arith, u))))
        λ v.
          filtered_or_found w local_part domain ((name, e, f), ground (arith, v))
            (filter_error action) refl

  -- What becomes of a message for a recipient: it is handed to the use case only if the recipient parses,
  -- its domain is configured and verified, the verifier accepts or quarantines it, and there is a mailbox
  -- for it, found or made where the domain allows; and then encrypted under the key of the domain and
  -- marked as quarantined exactly if it is. Else the answer names what was missing, and the state is as
  -- before except for the call that makes a mailbox, which there is only where the domain allows it.
  pub process_email-Handled : (w : World) → Handled w (process_email backend w recipient body)
  unfolding process_email process_parsed
  process_email-Handled w = go (parse_email_address recipient) refl
    where
      go :
          (r : AddressError ⊎ (Bytes × Bytes))
          → parse_email_address recipient ≡ r
          → Handled w (process_parsed backend w recipient body r)
      go (inl err) e = refused invalid_recipient (no_address err e)
      go (inr (local_part, name)) e =
          domain_checked w local_part name e (get_domain_by_name w name) refl
