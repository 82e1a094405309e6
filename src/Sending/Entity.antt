-- ===== src/Sending/Entity.antt =====
-- SentEmail and its status (domain/entities/sent_email.go). Times are numbers of nanoseconds, ids are
-- numbers with uuid.Nil as 0, and the webhook data is its JSON text.
use Prim.Native.String.{String}
use mailvault.Base.{
  ℕ, zero, suc, ◌+◌, ◌-◌, ◌*◌, Bool, true, false, ◌&&◌, not, List, ◌++◌, Option, none, some, ltb,
  ◌==◌, if◌then◌else◌, length, ℤ, pos, z_ltb, is_negative, mul64, word, is_blank, is_nil,
}
use mailvault.Backoff.{minute}

-- An EmailSendStatus is a string: a constant, or any other text.
pub data EmailSendStatus : Type 0 where
  pending queued sending sent delivered bounced failed cancelled : EmailSendStatus
  other_status : String → EmailSendStatus

unfoldable pub status_is_valid : EmailSendStatus → Bool
status_is_valid (other_status s) = false
status_is_valid _ = true

unfoldable pub status_is_final : EmailSendStatus → Bool
status_is_final delivered = true
status_is_final bounced = true
status_is_final failed = true
status_is_final cancelled = true
status_is_final _ = false

unfoldable pub status_is_error : EmailSendStatus → Bool
status_is_error bounced = true
status_is_error failed = true
status_is_error _ = false

unfoldable pub status_can_retry : EmailSendStatus → Bool
status_can_retry failed = true
status_can_retry _ = false

pub record SentEmail : Type 0 where
  pub id : ℕ
  pub domain_id : ℕ
  pub from_address : String
  pub to_addresses : List String
  pub cc_addresses : List String
  pub bcc_addresses : List String
  pub subject : String
  pub text_body : Option String
  pub html_body : Option String
  pub message_id : String
  pub status : EmailSendStatus
  pub error_message : Option String
  pub retry_count : ℕ
  pub max_retries : ℤ
  pub created_at : ℕ
  pub queued_at : Option ℕ
  pub sent_at : Option ℕ
  pub delivered_at : Option ℕ
  pub failed_at : Option ℕ
  pub next_retry_at : Option ℕ
  pub smtp_response : Option String
  pub smtp_message_id : Option String
  pub provider_id : Option ℕ
  pub provider_name : Option String
  pub provider_attempt_count : ℕ
  pub last_provider_error : Option String
  pub webhook_data : String
  pub webhook_delivered : Bool
  pub webhook_attempts : ℕ

unfoldable pub is_valid : SentEmail → Bool
unfolding status_is_valid
is_valid e =
    if e.domain_id == 0
    then false
    else if is_blank e.from_address
    then false
    else if length e.to_addresses == 0
    then false
    else if is_blank e.subject
    then false
    else if is_nil e.text_body && is_nil e.html_body
    then false
    else if is_blank e.message_id
    then false
    else if not (status_is_valid e.status)
    then false
    else true

unfoldable pub get_all_recipients : SentEmail → List String
get_all_recipients e = e.to_addresses ++ (e.cc_addresses ++ e.bcc_addresses)

unfoldable pub get_recipient_count : SentEmail → ℕ
get_recipient_count e = length e.to_addresses + length e.cc_addresses + length e.bcc_addresses

unfoldable pub mark_as_queued : ℕ → SentEmail → SentEmail
mark_as_queued now e = record e { status = queued; queued_at = some now }

unfoldable pub mark_as_sending : SentEmail → SentEmail
mark_as_sending e = record e { status = sending }

unfoldable pub mark_as_sent : ℕ → Option String → Option String → SentEmail → SentEmail
mark_as_sent now smtp_message_id smtp_response e = record e {
  status = sent;
  sent_at = some now;
  smtp_message_id = smtp_message_id;
  smtp_response = smtp_response;
  error_message = none;
  last_provider_error = none;
}

unfoldable pub mark_as_delivered : ℕ → SentEmail → SentEmail
mark_as_delivered now e = record e { status = delivered; delivered_at = some now }

unfoldable pub can_retry : SentEmail → Bool
unfolding status_can_retry
can_retry e = status_can_retry e.status && z_ltb (pos e.retry_count) e.max_retries

-- The loop `delay *= 3` over the retries so far, an int64.
unfoldable pub triple : ℕ → ℕ → ℕ
triple zero delay = delay
triple (suc i) delay = triple i (mul64 delay 3)

-- Time.Add of a duration, which is an int64.
abbrev pub add_duration : ℕ → ℕ → ℕ
add_duration time delay = if is_negative delay then time - (word - delay) else time + delay

unfoldable pub calculate_next_retry_time : ℕ → SentEmail → ℕ
calculate_next_retry_time now e = add_duration now (mul64 (triple e.retry_count 1) (5 * minute))

-- Both of the method's readings of the clock are arguments.
unfoldable pub mark_as_failed : ℕ → ℕ → String → SentEmail → SentEmail
mark_as_failed now later error_message e =
    let f = record e {
      status = failed;
      error_message = some error_message;
      failed_at = some now;
      retry_count = suc e.retry_count;
    } in
    if can_retry f then record f { next_retry_at = some (calculate_next_retry_time later f) } else f

unfoldable pub mark_as_bounced : ℕ → String → SentEmail → SentEmail
mark_as_bounced now reason e = record e {
  status = bounced;
  error_message = some reason;
  failed_at = some now;
  next_retry_at = none;
}

unfoldable pub mark_as_cancelled : SentEmail → SentEmail
mark_as_cancelled e = record e { status = cancelled; next_retry_at = none }

ready_after : Option ℕ → ℕ → Bool
ready_after none now = false
ready_after (some at) now = ltb at now

unfoldable pub is_ready_for_retry : ℕ → SentEmail → Bool
unfolding ready_after
is_ready_for_retry now e = if not (can_retry e) then false else ready_after e.next_retry_at now

unfoldable pub needs_webhook_delivery : SentEmail → Bool
needs_webhook_delivery e = not e.webhook_delivered && status_is_final e.status

unfoldable pub mark_webhook_delivered : SentEmail → SentEmail
mark_webhook_delivered e = record e { webhook_delivered = true }

unfoldable pub increment_webhook_attempts : SentEmail → SentEmail
increment_webhook_attempts e = record e { webhook_attempts = suc e.webhook_attempts }

unfoldable pub set_provider : ℕ → String → SentEmail → SentEmail
set_provider id name e = record e { provider_id = some id; provider_name = some name }

unfoldable pub clear_provider : SentEmail → SentEmail
clear_provider e = record e { provider_id = none; provider_name = none }

unfoldable pub increment_provider_attempts : SentEmail → SentEmail
increment_provider_attempts e = record e { provider_attempt_count = suc e.provider_attempt_count }

unfoldable pub set_provider_error : String → SentEmail → SentEmail
set_provider_error message e = record e { last_provider_error = some message }

unfoldable pub clear_provider_error : SentEmail → SentEmail
clear_provider_error e = record e { last_provider_error = none }

abbrev is_failed : EmailSendStatus → Bool
is_failed failed = true
is_failed _ = false

unfoldable pub can_try_next_provider : ℤ → SentEmail → Bool
can_try_next_provider max_providers e =
    z_ltb (pos e.provider_attempt_count) max_providers && is_failed e.status
