-- ===== src/Session/Tests.antt =====
-- A backend of one domain, and the properties at concrete inputs.
use mailvault.Base.{
  ◌≡◌, refl, All, true, List, [], ◌∷◌, ◌++◌, none, some, if◌then◌else◌, Bytes, codes, same_text,
  to_lower, has_prefix, contains, cut, trim, trim_left, trim_right, ends_in, split,
}
use mailvault.Address.{
  parse_email_address, clean_email_address, clean_domain, check_domain, all_domain_bytes,
  starts_with,
}
use mailvault.Validation.{status_verified}
use mailvault.Verifier.{action_reject, action_quarantine}
use mailvault.Session.{
  Session, MailDomain, ProcessIncomingEmailInput, rejected_by_filter, domain_not_configured,
  Backend, process_email, data_command, parse_email_headers, scan_headers, filter_error,
}
use mailvault.Session.Outcome.{Handled, process_email-Handled, filtered, no_domain}
use mailvault.Session.Answer.{AllRefused, IsAnsweredError, refused_message_acknowledged}

abbrev served : MailDomain
served = record {
  id = 4;
  verification_status = status_verified;
  auto_create_address = true;
  public_key = codes "key";
}

-- The world is the messages handed on. Messages from x@bad.com are rejected.
abbrev memory : Backend
memory = record {
  World = List ProcessIncomingEmailInput;
  get_domain_by_name = λ w name. if same_text name (codes "a.com") then some served else none;
  verify_email = λ from recipient body.
      if same_text from (codes "x@bad.com") then action_reject else action_quarantine;
  authentication_results = λ from recipient body. codes "Authentication-Results: mailvault";
  get_email_address_by_address = λ w recipient. none;
  new_id = λ w. 7;
  create_email_address = λ w address. (w, true);
  encrypt = λ body key. some body;
  process_incoming_email = λ w input. (w ++ input ∷ [], true);
}

message : Bytes → Bytes
message from = codes "Subject: hi" ++ 10 ∷ codes "From: " ++ from ++ 10 ∷ 10 ∷ codes "Hello"

headers : parse_email_headers (message (codes "x@good.com")) ≡ (codes "hi", codes "x@good.com")
unfolding parse_email_headers scan_headers message split has_prefix to_lower trim trim_left
    trim_right
headers = refl

process_email-Handled_example :
    Handled memory
      (codes "bob@a.com")
      (message (codes "x@good.com"))
      []
      (process_email memory [] (codes "bob@a.com") (message (codes "x@good.com")))
process_email-Handled_example =
    process_email-Handled memory (codes "bob@a.com") (message (codes "x@good.com")) []

abbrev session : Session
session = record { from = codes "x@bad.com"; to = codes "bob@a.com" ∷ codes "eve@b.com" ∷ [] }

both_refused : AllRefused memory [] session.to (message (codes "x@bad.com"))
unfolding parse_email_address clean_email_address clean_domain check_domain all_domain_bytes
    starts_with contains cut trim trim_left trim_right ends_in split to_lower parse_email_headers
    scan_headers message has_prefix filter_error
both_refused = (
  (
    rejected_by_filter,
    filtered rejected_by_filter (codes "bob") served ((codes "a.com", refl, refl), refl) refl,
  ),
  ((domain_not_configured, no_domain (codes "eve") (codes "b.com") refl refl), tt),
)

refused_message_acknowledged_example :
    All (IsAnsweredError memory [] (message (codes "x@bad.com"))) session.to
    × (data_command memory [] session (some (message (codes "x@bad.com"))) ≡ ([], true, 0))
refused_message_acknowledged_example =
    refused_message_acknowledged memory [] (message (codes "x@bad.com")) session both_refused
