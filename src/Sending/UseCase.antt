-- ===== src/Sending/UseCase.antt =====
-- The use case of domain/email_sending/usecase.go over its Repository and its Sender, which are
-- interfaces: their operations are a parameter, on a state of their own.
use Prim.Native.String.{String}
use mailvault.Base.{
  ℕ, suc, ◌⊎◌, Bool, true, false, ◌&&◌, not, List, [], ◌∷◌, Option, none, some, ◌==◌, if◌then◌else◌,
  length, ℤ, pos, z_ltb, is_blank, is_nil,
}
use mailvault.Sending.Entity.{
  SentEmail, EmailSendStatus, pending, is_valid, can_retry, mark_as_failed, mark_as_sent,
}

pub record SendEmailRequest : Type 0 where
  pub domain_id : ℕ
  pub message_id : String
  pub from : String
  pub reply_to : String
  pub to_addresses : List String
  pub cc_addresses : List String
  pub bcc_addresses : List String
  pub subject : String
  pub text_body : Option String
  pub html_body : Option String
  pub max_retries : ℤ
  pub webhook_data : String

pub data RequestError : Type 0 where
  domain_id_required from_required recipient_required subject_required body_required : RequestError
  message_id_required max_retries_negative : RequestError

-- SendEmailRequest.Validate; none is nil.
unfoldable pub validate : SendEmailRequest → Option RequestError
validate r =
    if r.domain_id == 0
    then some domain_id_required
    else if is_blank r.from
    then some from_required
    else if length r.to_addresses == 0
    then some recipient_required
    else if is_blank r.subject
    then some subject_required
    else if is_nil r.text_body && is_nil r.html_body
    then some body_required
    else if is_blank r.message_id
    then some message_id_required
    else if z_ltb r.max_retries (pos 0)
    then some max_retries_negative
    else none

-- The row that SendEmail builds, with the id that it draws and its time of creation.
unfoldable pub new_sent_email : ℕ → ℕ → SendEmailRequest → SentEmail
new_sent_email id now r = record {
  id = id;
  domain_id = r.domain_id;
  from_address = r.from;
  to_addresses = r.to_addresses;
  cc_addresses = r.cc_addresses;
  bcc_addresses = r.bcc_addresses;
  subject = r.subject;
  text_body = r.text_body;
  html_body = r.html_body;
  message_id = r.message_id;
  status = pending;
  error_message = none;
  retry_count = 0;
  max_retries = r.max_retries;
  created_at = now;
  queued_at = none;
  sent_at = none;
  delivered_at = none;
  failed_at = none;
  next_retry_at = none;
  smtp_response = none;
  smtp_message_id = none;
  provider_id = none;
  provider_name = none;
  provider_attempt_count = 0;
  last_provider_error = none;
  webhook_data = r.webhook_data;
  webhook_delivered = false;
  webhook_attempts = 0;
}

pub record SendEmailResponse : Type 0 where
  pub id : ℕ
  pub message_id : String
  pub status : EmailSendStatus
  pub created_at : ℕ
  pub sent_at : Option ℕ

pub data SendError : Type 0 where
  invalid_request : RequestError → SendError
  invalid_entity create_failed get_failed not_retriable : SendError
  sender_failed : String → SendError

-- The calls of the repository and the sender that the use case makes. A Boolean is whether the call
-- went well; Send gives the message id or the text of its error.
pub record Outside : Type 1 where
  pub World : Type 0
  pub create : World → SentEmail → World × Bool
  pub update : World → SentEmail → World × Bool
  pub get : World → ℕ → Option SentEmail
  pub send : World → SentEmail → World × (String ⊎ String)
  pub for_retry : World → ℕ → Option (List SentEmail)

-- What the readings of the clock give during one call.
pub record Clock : Type 0 where
  pub created : ℕ
  pub marked : ℕ
  pub retried : ℕ

pub data Sent : Type 0 where
  answer : SendEmailResponse → Sent
  error : SendError → Sent

unfoldable pub response : SentEmail → SendEmailResponse
response e = record {
  id = e.id;
  message_id = e.message_id;
  status = e.status;
  created_at = e.created_at;
  sent_at = e.sent_at;
}

module _ (out : Outside) where
  open out use {World, create, update, get, send, for_retry}

  -- What SendEmail and ResendEmail both do with the sender's answer: the row is marked and updated,
  -- and an update that fails is only logged.
  unfoldable pub finish : Clock → SentEmail → World × (String ⊎ String) → World × Sent
  finish clock e (w, ◌⊎◌.inr message) = (
    (update w (mark_as_failed clock.marked clock.retried message e)).0,
    error (sender_failed message),
  )
  finish clock e (w, ◌⊎◌.inl message_id) =
      let id = if is_blank message_id then e.message_id else message_id in
      let done = mark_as_sent clock.marked (some id) (some "") e in
      ((update w done).0, answer (response done))

  unfoldable pub send_created : Clock → SentEmail → World × Bool → World × Sent
  send_created clock e (w, false) = (w, error create_failed)
  send_created clock e (w, true) = finish clock e (send w e)

  unfoldable pub send_checked : Clock → SentEmail → World → Option RequestError → World × Sent
  send_checked clock e w (some err) = (w, error (invalid_request err))
  send_checked clock e w none =
      if not (is_valid e) then (w, error invalid_entity) else send_created clock e (create w e)

  -- SendEmail, with the id drawn for the row.
  unfoldable pub send_email : World → ℕ → Clock → SendEmailRequest → World × Sent
  unfolding send_checked send_created
  send_email w id clock req =
      send_checked clock (new_sent_email id clock.created req) w (validate req)

  unfoldable pub resend_found : World → Clock → Option SentEmail → World × Sent
  resend_found w clock none = (w, error get_failed)
  resend_found w clock (some e) =
      if not (can_retry e)
      then (w, error not_retriable)
      else let e' = record e { status = pending } in finish clock e' (send w e')

  unfoldable pub resend_email : World → Clock → ℕ → World × Sent
  unfolding resend_found
  resend_email w clock email_id = resend_found w clock (get w email_id)

  -- The loop of ProcessRetryQueue: an error of a resend is only logged. Each resend has a clock.
  unfoldable pub retry_each : World → (ℕ → Clock) → List SentEmail → World
  retry_each w clock [] = w
  retry_each w clock (e ∷ es) = retry_each (resend_email w (clock 0) e.id).0 (λ n. clock (suc n)) es

  unfoldable pub process_rows : World → (ℕ → Clock) → Option (List SentEmail) → World × Bool
  process_rows w clock none = (w, false)
  process_rows w clock (some es) = (retry_each w clock es, true)

  -- ProcessRetryQueue; false is the error of the query.
  unfoldable pub process_retry_queue : World → (ℕ → Clock) → ℕ → World × Bool
  unfolding process_rows
  process_retry_queue w clock limit = process_rows w clock (for_retry w limit)
