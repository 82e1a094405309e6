-- ===== src/Session.antt =====
-- The SMTP session of app/smtp/session.go, over a backend of use cases that is a parameter. The metrics,
-- the usage counter and the statistics, which no answer waits for, are left out.
use mailvault.Base.{
  ℕ, zero, suc, Bool, true, false, ◌&&◌, not, ◌⊎◌, inl, inr, List, [], ◌∷◌, ◌++◌, Option, none,
  some, ◌==◌, if◌then◌else◌, Bytes, codes, is_space, to_lower, has_prefix, trim, split, drop,
  is_nil,
}
use mailvault.Address.{AddressError, parse_email_address}
use mailvault.Validation.{VerificationStatus, status_verified}
use mailvault.Verifier.{Action, action_accept, action_quarantine, action_reject, action_temp_fail}
pub mod Outcome
pub mod Answer
mod Tests

pub record Session : Type 0 where
  pub from : Bytes
  pub to : List Bytes

-- The fields of entities.Domain and entities.EmailAddress that the session uses.
pub record MailDomain : Type 0 where
  pub id : ℕ
  pub verification_status : VerificationStatus
  pub auto_create_address : Bool
  pub public_key : Bytes

pub record EmailAddress : Type 0 where
  pub id : ℕ
  pub domain_id : ℕ
  pub local_part : Bytes

pub record ProcessIncomingEmailInput : Type 0 where
  pub email_address_id : ℕ
  pub from_address : Bytes
  pub subject : Bytes
  pub body : Bytes
  pub domain_id : ℕ
  pub is_quarantined : Bool
  pub auto_created : Bool

-- The answers of processEmail: an SMTP error with its code, or the error of the use case.
pub data SessionError : Type 0 where
  invalid_recipient domain_not_configured domain_not_verified rejected_by_filter : SessionError
  temporary_failure address_not_found address_not_created not_encrypted not_processed : SessionError

abbrev pub code_of : SessionError → Option ℕ
code_of temporary_failure = some 451
code_of address_not_created = some 451
code_of not_encrypted = some 451
code_of not_processed = none
code_of _ = some 550

-- What a message looks like to the verifier: its From text, its recipient and the message.
pub record Backend : Type 1 where
  pub World : Type 0
  pub get_domain_by_name : World → Bytes → Option MailDomain
  pub verify_email : Bytes → Bytes → Bytes → Action
  pub authentication_results : Bytes → Bytes → Bytes → Bytes
  pub get_email_address_by_address : World → Bytes → Option EmailAddress
  pub new_id : World → ℕ
  pub create_email_address : World → EmailAddress → World × Bool
  pub encrypt : Bytes → Bytes → Option Bytes
  pub process_incoming_email : World → ProcessIncomingEmailInput → World × Bool

unfoldable pub mail : Bytes → Session → Session
mail from s = record s { from = from }

unfoldable pub rcpt : Bytes → Session → Session
rcpt to s = record s { to = s.to ++ to ∷ [] }

unfoldable pub reset : Session → Session
reset s = record { from = []; to = [] }

-- One trimmed line of parseEmailHeaders, on the subject and the From text so far: none at the blank
-- line that ends the headers.
header_line : Bytes → Bytes × Bytes → Option (Bytes × Bytes)
header_line [] (subject, from) = none
header_line (c ∷ s) (subject, from) =
    if has_prefix (to_lower (c ∷ s)) (codes "subject:")
    then some (trim is_space (drop 8 (c ∷ s)), from)
    else if has_prefix (to_lower (c ∷ s)) (codes "from:")
    then some (subject, trim is_space (drop 5 (c ∷ s)))
    else some (subject, from)

unfoldable pub scan_headers : Bytes × Bytes → List Bytes → Bytes × Bytes
unfolding header_line
scan_headers found [] = found
scan_headers found (line ∷ lines) = elim (header_line (trim is_space line) found) [
  | none ↦ found
  | some more ↦ scan_headers more lines
]

or_text : Bytes → Bytes → Bytes
or_text [] other = other
or_text (c ∷ s) other = c ∷ s

-- The lines of a text, by strings.Split at the newline.
lines_of : Bytes → List Bytes
lines_of body = let (line, rest) = split body 10 in line ∷ rest

unfoldable pub parse_email_headers : Bytes → Bytes × Bytes
unfolding or_text lines_of
parse_email_headers body =
    let (subject, from) = scan_headers ([], []) (lines_of body) in
    (or_text subject (codes "(No Subject)"), or_text from (codes "(Unknown Sender)"))

-- The header goes before the message in each of the three cases of the code.
unfoldable pub prepend_header : Bytes → Bytes → Bytes
prepend_header body header_line =
    (if has_crlf header_line then header_line else header_line ++ 13 ∷ 10 ∷ []) ++ body
  where
    has_crlf : Bytes → Bool
    has_crlf [] = false
    has_crlf (c ∷ []) = false
    has_crlf (c ∷ d ∷ []) = (c == 13) && (d == 10)
    has_crlf (c ∷ d ∷ e ∷ s) = has_crlf (d ∷ e ∷ s)

abbrev pub is_verified : VerificationStatus → Bool
is_verified status_verified = true
is_verified _ = false

-- The error that an action of the verifier leads to; an accepted or quarantined message goes on.
unfoldable pub filter_error : Action → Option SessionError
filter_error action_reject = some rejected_by_filter
filter_error action_temp_fail = some temporary_failure
filter_error action_quarantine = none
filter_error action_accept = none

abbrev pub is_quarantine : Action → Bool
is_quarantine action_quarantine = true
is_quarantine _ = false

-- What is known of a message when the address of its recipient is looked up.
pub record Checked : Type 0 where
  pub domain : MailDomain
  pub local_part : Bytes
  pub subject : Bytes
  pub from : Bytes
  pub body : Bytes
  pub is_quarantined : Bool

module _ (backend : Backend) where
  open backend use {
    World, get_domain_by_name, verify_email, authentication_results, get_email_address_by_address,
    new_id, create_email_address, encrypt, process_incoming_email,
  }

  unfoldable pub answer_to : World × Bool → World × Option SessionError
  answer_to (w, true) = (w, none)
  answer_to (w, false) = (w, some not_processed)

  store_encrypted :
      World → Checked → EmailAddress → Bool → Option Bytes → World × Option SessionError
  store_encrypted w c address auto_created none = (w, some not_encrypted)
  store_encrypted w c address auto_created (some body) = answer_to (
      process_incoming_email w (record {
        email_address_id = address.id;
        from_address = c.from;
        subject = c.subject;
        body = body;
        domain_id = c.domain.id;
        is_quarantined = c.is_quarantined;
        auto_created = auto_created;
      }))

  store_message : World → Checked → EmailAddress → Bool → World × Option SessionError
  store_message w c address auto_created =
      store_encrypted w c address auto_created (encrypt c.body c.domain.public_key)

  store_created : Checked → EmailAddress → World × Bool → World × Option SessionError
  store_created c address (w, false) = (w, some address_not_created)
  store_created c address (w, true) = store_message w c address true

  find_address : World → Checked → Option EmailAddress → World × Option SessionError
  find_address w c (some address) = store_message w c address false
  find_address w c none =
      if not c.domain.auto_create_address
      then (w, some address_not_found)
      else (let address : EmailAddress = record {
        id = new_id w;
        domain_id = c.domain.id;
        local_part = c.local_part;
      } in
          store_created c address (create_email_address w address))

  filter_message : World → Bytes → Checked → Option SessionError → World × Option SessionError
  filter_message w recipient c (some err) = (w, some err)
  filter_message w recipient c none = find_address w c (get_email_address_by_address w recipient)

  check_domain_of : World → Bytes → Bytes → Bytes → Option MailDomain → World × Option SessionError
  check_domain_of w recipient local_part body none = (w, some domain_not_configured)
  check_domain_of w recipient local_part body (some domain) =
      if not (is_verified domain.verification_status)
      then (w, some domain_not_verified)
      else (let (subject, from) = parse_email_headers body in
          let action = verify_email from recipient body in
          filter_message w recipient
            (record {
              domain = domain;
              local_part = local_part;
              subject = subject;
              from = from;
              body = prepend_header body (authentication_results from recipient body);
              is_quarantined = is_quarantine action;
            })
            (filter_error action))

  process_parsed :
      World → Bytes → Bytes → AddressError ⊎ (Bytes × Bytes) → World × Option SessionError
  process_parsed w recipient body (inl err) = (w, some invalid_recipient)
  process_parsed w recipient body (inr (local_part, domain_name)) =
      check_domain_of w recipient local_part body (get_domain_by_name w domain_name)

  -- processEmail: the error is none for nil.
  unfoldable pub process_email : World → Bytes → Bytes → World × Option SessionError
  unfolding store_encrypted store_message store_created find_address filter_message check_domain_of
      process_parsed
  process_email w recipient body = process_parsed w recipient body (parse_email_address recipient)

  -- The loop of Data over the recipients, with the number of successes.
  unfoldable pub process_all : World → ℕ → List Bytes → Bytes → World × ℕ
  process_all w successes [] body = (w, successes)
  process_all w successes (recipient ∷ rest) body =
      let (w', err) = process_email w recipient body in
      process_all w' (if is_nil err then suc successes else successes) rest body

  -- Data on the message read, none if it cannot be read. The result is whether Data returns nil, and the
  -- number of successes, which goes to the metrics.
  unfoldable pub data_command : World → Session → Option Bytes → World × Bool × ℕ
  data_command w s none = (w, false, 0)
  data_command w s (some body) =
      let (w', successes) = process_all w 0 s.to body in (w', true, successes)
