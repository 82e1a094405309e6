-- ===== src/Mailbox/Tests.antt =====
-- Repositories of one domain in memory, and the properties at concrete inputs.
use mailvault.Base.{
  ℕ, ◌≡◌, refl, ◌⊎◌, inl, inr, ◌↔◌, true, false, ◌&&◌, List, [], ◌∷◌, Option, none, some, arith,
  ◌==◌, if◌then◌else◌, Bytes, codes, same_text, same_text_refl, to_lower, ends_in, split, pos,
  negsuc, contains,
}
use mailvault.Address.{all_domain_bytes, starts_with}
use mailvault.Address.Domain.{IsDomain}
use mailvault.Mailbox.{
  EmailAddress, ReceivedEmail, OwnedDomain, MailboxError, invalid_forward_address, delete_failed,
  Repositories, is_empty, is_valid_address, has_forwarding, is_valid_received, outcome,
}
use mailvault.Mailbox.Format.{
  is_valid_local_part, is_valid_email, all_bytes, is_local_byte, is_alphanumeric, is_letter,
}
use mailvault.Mailbox.Addresses.{
  CreateEmailAddressInput, create_email_address_from_input, create_email_address, new_address,
  forwards_or_empty, forwards_valid, update_email_address, get_email_address_by_address,
}
use mailvault.Mailbox.Received.{
  forward, IncomingEmail, Hooks, process_incoming_email, get_received_email_by_id,
  delete_received_email, clamp_limit, new_received, notifications, forwardings, recipient,
  find_owned,
}
use mailvault.Mailbox.Ownership.{is_right, IsOwned, received_email_guarded}
use mailvault.Mailbox.Effects.{Processed, process_incoming_email-Processed}
use mailvault.Mailbox.Stored.{FindsCreated, created_is_found}

abbrev example : OwnedDomain
example = record { id = 7; user_id = 3; domain = codes "example.com" }

abbrev by_id : ℕ → List EmailAddress → Option EmailAddress
by_id id [] = none
by_id id (a ∷ rest) = if a.id == id then some a else by_id id rest

abbrev by_name : Bytes → ℕ → List EmailAddress → Option EmailAddress
by_name s domain_id [] = none
by_name s domain_id (a ∷ rest) =
    if same_text a.local_part s && a.domain_id == domain_id
    then some a
    else by_name s domain_id rest

abbrev received_by_id : ℕ → List ReceivedEmail → Option ReceivedEmail
received_by_id id [] = none
received_by_id id (r ∷ rest) = if r.id == id then some r else received_by_id id rest

abbrev without : ℕ → List ReceivedEmail → List ReceivedEmail
without id [] = []
without id (r ∷ rest) = if r.id == id then without id rest else r ∷ without id rest

abbrev memory : Repositories
memory = record {
  World = List EmailAddress × List ReceivedEmail;
  get_address = λ w id. by_id id w.0;
  get_by_local_part_and_domain = λ w s domain_id. by_name s domain_id w.0;
  get_by_domain_id = λ w id. some w.0;
  create_address = λ w a. ((a ∷ w.0, w.1), true);
  update_address = λ w a. ((a ∷ w.0, w.1), true);
  delete_address = λ w id. (w, false);
  get_received = λ w id. received_by_id id w.1;
  get_by_email_address_id = λ w id limit offset. some w.1;
  get_by_user_id_with_filter = λ w user limit offset filter. some (w.1, 0);
  create_received = λ w r. ((w.0, r ∷ w.1), true);
  delete_received = λ w id. ((w.0, without id w.1), true);
  get_domain = λ w id. if id == 7 then some example else none;
  get_by_domain = λ w name. if same_text name (codes "example.com") then some example else none;
}

memory-FindsCreated : FindsCreated memory
memory-FindsCreated = record {
  finds = λ w a h. ground (arith, same_text_refl a.local_part);
  keeps = λ w a name. refl;
}

abbrev request : CreateEmailAddressInput
request = record {
  domain_id = 7;
  local_part = codes "Info";
  forward_addresses = [] ∷ codes "me@other.org" ∷ [];
  forwarding_enabled = true;
}

abbrev info : EmailAddress
info = record {
  id = 1;
  domain_id = 7;
  local_part = codes "info";
  forward_addresses = [] ∷ codes "me@other.org" ∷ [];
  forwarding_enabled = true;
  created_at = 50;
  updated_at = 50;
}

creates : create_email_address_from_input memory ([], []) 1 50 request ≡ ((info ∷ [], []), inr info)
unfolding create_email_address_from_input create_email_address new_address forwards_or_empty
    is_valid_local_part is_valid_email all_bytes is_local_byte is_alphanumeric is_letter to_lower
    is_empty is_valid_address outcome ends_in split
creates = refl

-- An update with the same entries is refused for the empty one.
update_refuses :
    update_email_address memory
      (info ∷ [], [])
      60
      1
      (record {
        forward_addresses = some ([] ∷ codes "me@other.org" ∷ []);
        forwarding_enabled = none;
      })
    ≡ ((info ∷ [], []), inl invalid_forward_address)
unfolding update_email_address forwards_valid is_valid_email split
update_refuses = refl

example-IsDomain : IsDomain (codes "example.com")
unfolding all_domain_bytes starts_with ends_in contains to_lower
example-IsDomain = record { bytes = refl; dotted = refl; edges = refl; lower = refl }

created_is_found_example :
    get_email_address_by_address memory (info ∷ [], []) (codes "Info@example.com") ≡ inr info
created_is_found_example =
    created_is_found memory memory-FindsCreated ([], []) (info ∷ [], []) 1 50 request example info
      creates example-IsDomain refl refl

abbrev incoming : IncomingEmail
incoming = record {
  email_address_id = 1;
  from_address = codes "a@b.com";
  subject = codes "hello";
  body = codes "sealed";
  domain = some example;
  email_address = some info;
  auto_created = false;
}

abbrev hooks : Hooks
hooks = record { webhook_notifier = false; email_forwarder = true }

-- The forwarder gets the empty entry too.
forwards :
    (process_incoming_email memory (info ∷ [], []) hooks 9 60 incoming).2
    ≡ forward
        (codes "a@b.com")
        (codes "info@example.com")
        (codes "hello")
        ([] ∷ codes "me@other.org" ∷ [])
      ∷ []
unfolding process_incoming_email is_valid_received is_empty has_forwarding outcome new_received
    notifications forwardings recipient
forwards = refl

process_incoming_email-Processed_example :
    let r = process_incoming_email memory (info ∷ [], []) hooks 9 60 incoming in
    Processed memory (info ∷ [], []) hooks 9 60 incoming r.0 r.1 r.2
process_incoming_email-Processed_example =
    process_incoming_email-Processed memory (info ∷ [], []) hooks 9 60 incoming

abbrev message : ReceivedEmail
message = record {
  id = 9;
  email_address_id = some 1;
  from_address = codes "a@b.com";
  subject = none;
  encrypted_body = codes "sealed";
  domain_name = codes "example.com";
  email_address = codes "info@example.com";
  received_at = 60;
}

-- User 3 owns the domain, and user 4 does not.
deletes :
    (delete_received_email memory (info ∷ [], message ∷ []) 9 3 ≡ ((info ∷ [], []), inr 9))
    × (is_right (get_received_email_by_id memory (info ∷ [], message ∷ []) 9 4) ≡ false)
unfolding delete_received_email get_received_email_by_id outcome find_owned
deletes = (refl, refl)

received_email_guarded_example :
    ((is_right (get_received_email_by_id memory (info ∷ [], message ∷ []) 9 3) ≡ true)
      ↔ IsOwned memory (info ∷ [], message ∷ []) 9 3)
    × ((IsOwned memory (info ∷ [], message ∷ []) 9 3
          × (delete_received_email memory (info ∷ [], message ∷ []) 9 3
              ≡ outcome delete_failed 9 ((info ∷ [], []), true)))
        ⊎ (¬ IsOwned memory (info ∷ [], message ∷ []) 9 3
            × (err : MailboxError) × (delete_received_email memory (info ∷ [], message ∷ []) 9 3
                ≡ ((info ∷ [], message ∷ []), inl err))))
received_email_guarded_example = received_email_guarded memory (info ∷ [], message ∷ []) 9 3

limits : (clamp_limit (negsuc 0) ≡ 50) × (clamp_limit (pos 5000) ≡ 1000) × (clamp_limit (pos 7) ≡ 7)
unfolding clamp_limit
limits = (refl, refl, refl)
