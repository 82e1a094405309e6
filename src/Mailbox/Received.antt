-- ===== src/Mailbox/Received.antt =====
-- The operations on received messages of domain/email/usecase.go. Goroutines that an operation starts
-- are a list of tasks: what they go on to do does not change its result.
use mailvault.Base.{
  ℕ, Bool, true, false, ◌&&◌, ◌||◌, not, ◌⊎◌, inl, inr, List, [], ◌∷◌, ◌++◌, Option, none, some,
  ◌==◌, if◌then◌else◌, ltb, Bytes, codes, same_text, ℤ, pos, negsuc,
}
use mailvault.Mailbox.{
  EmailAddress, ReceivedEmail, ReceivedFilter, OwnedDomain, MailboxError, id_required,
  domain_id_required, user_id_required, from_required, body_required, invalid_data,
  no_associated_address, access_denied, invalid_sort_field, invalid_sort_order,
  invalid_security_status, get_email_failed, get_address_failed, get_domain_failed, create_failed,
  delete_failed, Repositories, is_empty, has_forwarding, is_valid_received, outcome,
}

-- What a goroutine that ProcessIncomingEmail starts hands to the notifier or to the forwarder.
pub data Task : Type 0 where
  notify : ReceivedEmail → OwnedDomain → EmailAddress → Bool → Task
  forward : (from recipient subject : Bytes) → (to : List Bytes) → Task

pub record IncomingEmail : Type 0 where
  pub email_address_id : ℕ
  pub from_address : Bytes
  pub subject : Bytes
  pub body : Bytes
  pub domain : Option OwnedDomain
  pub email_address : Option EmailAddress
  pub auto_created : Bool

-- Whether the use case has a notifier and a forwarder.
pub record Hooks : Type 0 where
  pub webhook_notifier : Bool
  pub email_forwarder : Bool

unfoldable pub domain_name_of : Option OwnedDomain → Bytes
domain_name_of none = []
domain_name_of (some d) = d.domain

unfoldable pub full_address : Option EmailAddress → Bytes → Bytes
full_address none domain = []
full_address (some a) domain = a.local_part ++ b'@' ∷ domain

unfoldable pub some_text : Bytes → Option Bytes
some_text s = if is_empty s then none else some s

unfoldable pub new_received : ℕ → ℕ → IncomingEmail → ReceivedEmail
unfolding full_address some_text
new_received id now req = record {
  id = id;
  email_address_id = some req.email_address_id;
  from_address = req.from_address;
  subject = some_text req.subject;
  encrypted_body = req.body;
  domain_name = domain_name_of req.domain;
  email_address = full_address req.email_address (domain_name_of req.domain);
  received_at = now;
}

unfoldable pub notifications :
    Bool → ReceivedEmail → Bool → Option OwnedDomain → Option EmailAddress → List Task
notifications false r auto_created domain address = []
notifications true r auto_created none address = []
notifications true r auto_created (some d) none = []
notifications true r auto_created (some d) (some a) = notify r d a auto_created ∷ []

unfoldable pub recipient : Option OwnedDomain → EmailAddress → Bytes
recipient none a = []
recipient (some d) a = a.local_part ++ b'@' ∷ d.domain

unfoldable pub forwardings : Bool → IncomingEmail → Option EmailAddress → List Task
forwardings false req address = []
forwardings true req none = []
forwardings true req (some a) =
    if has_forwarding a
    then forward req.from_address (recipient req.domain a) req.subject a.forward_addresses ∷ []
    else []

-- A limit of a page: 50 if it is not positive, and 1000 at most.
unfoldable pub clamp_limit : ℤ → ℕ
clamp_limit (negsuc n) = 50
clamp_limit (pos n) = if n == 0 then 50 else if ltb 1000 n then 1000 else n

unfoldable pub default_text : Bytes → Bytes → Bytes
default_text [] other = other
default_text (c ∷ s) other = c ∷ s

unfoldable pub one_of : List Bytes → Bytes → Bool
one_of [] s = false
one_of (t ∷ rest) s = same_text t s || one_of rest s

-- The checks of GetReceivedEmailsByUser: the filter with its defaults.
unfoldable pub check_filter : ReceivedFilter → MailboxError ⊎ ReceivedFilter
unfolding default_text one_of
check_filter filter =
    let by = default_text filter.sort_by (codes "received_at") in
    let order = default_text filter.sort_order (codes "desc") in
    if not (
      one_of
        (codes "received_at"
          ∷ codes "sequence_number"
          ∷ codes "from_address"
          ∷ codes "subject"
          ∷ [])
        by)
    then inl invalid_sort_field
    else if not (one_of (codes "asc" ∷ codes "desc" ∷ []) order)
    then inl invalid_sort_order
    else if not (is_empty filter.security_status)
        && not (
            one_of
              (codes "clean" ∷ codes "suspicious" ∷ codes "quarantined" ∷ codes "high_risk" ∷ [])
              filter.security_status)
    then inl invalid_security_status
    else inr (record filter { sort_by = by; sort_order = order })

module _ (repos : Repositories) where
  open repos use {
    World, get_address, get_received, get_by_email_address_id, create_received, delete_received,
    get_domain, get_by_user_id_with_filter,
  }

  unfoldable pub stored :
      Hooks
      → ReceivedEmail
      → IncomingEmail
      → World × (MailboxError ⊎ ReceivedEmail)
      → World × Option MailboxError × List Task
  stored hooks r req (w, inl err) = (w, some err, [])
  stored hooks r req (w, inr _) = (
    w,
    none,
    notifications hooks.webhook_notifier r req.auto_created req.domain req.email_address
        ++ forwardings hooks.email_forwarder req req.email_address,
  )

  -- ProcessIncomingEmail, with the id drawn and the time: its error and what it starts.
  unfoldable pub process_incoming_email :
      World → Hooks → ℕ → ℕ → IncomingEmail → World × Option MailboxError × List Task
  unfolding stored
  process_incoming_email w hooks id now req =
      if req.email_address_id == 0
      then (w, some id_required, [])
      else if is_empty req.from_address
      then (w, some from_required, [])
      else if is_empty req.body
      then (w, some body_required, [])
      else if not (is_valid_received (new_received id now req))
      then (w, some invalid_data, [])
      else stored hooks (new_received id now req) req (
          outcome create_failed (new_received id now req)
            (create_received w (new_received id now req)))

  unfoldable pub check_owner :
      ReceivedEmail
      → EmailAddress
      → ℕ
      → Option OwnedDomain
      → MailboxError ⊎ (ReceivedEmail × EmailAddress × OwnedDomain)
  check_owner r a user none = inl get_domain_failed
  check_owner r a user (some d) =
      if not (d.user_id == user) then inl access_denied else inr (r, a, d)

  unfoldable pub check_address :
      World
      → ReceivedEmail
      → ℕ
      → Option EmailAddress
      → MailboxError ⊎ (ReceivedEmail × EmailAddress × OwnedDomain)
  check_address w r user none = inl get_address_failed
  check_address w r user (some a) = check_owner r a user (get_domain w a.domain_id)

  unfoldable pub check_received :
      World → ℕ → Option ReceivedEmail → MailboxError ⊎ (ReceivedEmail × EmailAddress × OwnedDomain)
  check_received w user none = inl get_email_failed
  check_received w user (some r) = elim r.email_address_id [
    | none ↦ inl no_associated_address
    | some id ↦ check_address w r user (get_address w id)
  ]

  -- The steps that GetReceivedEmailByID and DeleteReceivedEmail begin with: from the message to its
  -- address, to the domain, to the user.
  unfoldable pub find_owned :
      World → ℕ → ℕ → MailboxError ⊎ (ReceivedEmail × EmailAddress × OwnedDomain)
  unfolding check_owner check_address check_received
  find_owned w id user =
      if id == 0
      then inl id_required
      else if user == 0
      then inl user_id_required
      else check_received w user (get_received w id)

  unfoldable pub shown :
      MailboxError ⊎ (ReceivedEmail × EmailAddress × OwnedDomain) → MailboxError ⊎ ReceivedEmail
  shown (inl err) = inl err
  shown (inr (r, a, d)) =
      inr (record r { domain_name = d.domain; email_address = a.local_part ++ b'@' ∷ d.domain })

  unfoldable pub get_received_email_by_id : World → ℕ → ℕ → MailboxError ⊎ ReceivedEmail
  unfolding shown
  get_received_email_by_id w id user = shown (find_owned w id user)

  unfoldable pub delete_found :
      World
      → ℕ
      → MailboxError ⊎ (ReceivedEmail × EmailAddress × OwnedDomain)
      → World × (MailboxError ⊎ ℕ)
  delete_found w id (inl err) = (w, inl err)
  delete_found w id (inr found) = outcome delete_failed id (delete_received w id)

  unfoldable pub delete_received_email : World → ℕ → ℕ → World × (MailboxError ⊎ ℕ)
  unfolding delete_found
  delete_received_email w id user = delete_found w id (find_owned w id user)

  of_query {ℓ} : {A : Type ℓ} → MailboxError → Option A → MailboxError ⊎ A
  of_query err none = inl err
  of_query err (some a) = inr a

  unfoldable pub get_received_emails : World → ℕ → ℤ → ℤ → MailboxError ⊎ List ReceivedEmail
  unfolding of_query
  get_received_emails w id limit offset =
      if id == 0
      then inl id_required
      else of_query get_email_failed (get_by_email_address_id w id (clamp_limit limit) offset)

  with_filter :
      World → ℕ → ℤ → ℤ → MailboxError ⊎ ReceivedFilter → MailboxError ⊎ (List ReceivedEmail × ℕ)
  unfolding of_query
  with_filter w user limit offset (inl err) = inl err
  with_filter w user limit offset (inr filter) =
      of_query get_email_failed
        (get_by_user_id_with_filter w user (clamp_limit limit) offset filter)

  unfoldable pub get_received_emails_by_user :
      World → ℕ → ℤ → ℤ → ReceivedFilter → MailboxError ⊎ (List ReceivedEmail × ℕ)
  unfolding with_filter
  get_received_emails_by_user w user limit offset filter =
      if user == 0
      then inl user_id_required
      else with_filter w user limit offset (check_filter filter)

  unfoldable pub get_domain_by_id : World → ℕ → MailboxError ⊎ OwnedDomain
  unfolding of_query
  get_domain_by_id w id =
      if id == 0 then inl domain_id_required else of_query get_domain_failed (get_domain w id)
