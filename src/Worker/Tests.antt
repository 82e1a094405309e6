-- ===== src/Worker/Tests.antt =====
-- A send job whose message is refused each time, over a table in memory.
use Prim.Native.String.{String}
use mailvault.Base.{
  ℕ, suc, ◌+◌, ◌-◌, ◌*◌, ◌≡◌, ◌≤◌, refl, inr, true, false, Bool, ◌||◌, if◌then◌else◌, arith, codes,
  same_text, same_text_refl, List, [], ◌∷◌, none, some, pos, length, slt, mul64, shl_one,
}
use mailvault.Backoff.{minute, email_backoff_delay, cap_at}
use mailvault.Queue.Email.{EmailSendingJob, send_job}
use mailvault.Sending.Entity.{SentEmail, mark_as_failed, is_valid, calculate_next_retry_time}
use mailvault.Sending.UseCase.{
  SendEmailRequest, Outside, validate, send_email, new_sent_email, finish, send_created,
  send_checked,
}
use mailvault.Worker.{
  EmailWorkerConfig, EmailWorkerStats, JobError, JobClock, new_stats, process_email_job, life,
  process_by_type, process_send_job, handle, handle_job_failure, error_of, after_attempt,
  count_started, update_average_time, schedule_retry,
}
use mailvault.Worker.Once.{Table}
use mailvault.Worker.Copies.{send_job_sent_once}

abbrev is_taken : List SentEmail → String → Bool
is_taken [] id = false
is_taken (e ∷ rows) id = same_text (codes e.message_id) (codes id) || is_taken rows id

-- The rows created, under message ids that are unique, and the number of sendings, by a sender that
-- refuses everything.
abbrev memory : Outside
memory = record {
  World = List SentEmail × ℕ;
  create = λ w e. if is_taken w.0 e.message_id then (w, false) else ((e ∷ w.0, w.1), true);
  update = λ w e. (w, true);
  get = λ w id. none;
  send = λ w e. ((w.0, suc w.1), inr "refused");
  for_retry = λ w limit. none;
}

abbrev added : Bool → List SentEmail × ℕ → SentEmail → (List SentEmail × ℕ) × Bool
added b w e = if b then (w, false) else ((e ∷ w.0, w.1), true)

lost_of :
    (b : Bool) (w : List SentEmail × ℕ) (e : SentEmail)
    → (added b w e).1 ≡ false
    → length (added b w e).0.0 ≡ length w.0
lost_of true w e h = refl
lost_of false w e h = absurd (ground (arith, h))

created_of :
    (b : Bool) (w : List SentEmail × ℕ) (e : SentEmail)
    → (added b w e).1 ≡ true
    → (length (added b w e).0.0 ≡ suc (length w.0))
      × (is_taken (added b w e).0.0 e.message_id ≡ true)
created_of true w e h = absurd (ground (arith, h))
created_of false w e h = (refl, ground (arith, same_text_refl (codes e.message_id)))

sends_of : (b : Bool) (w : List SentEmail × ℕ) (e : SentEmail) → (added b w e).0.1 ≡ w.1
sends_of true w e = refl
sends_of false w e = refl

keeps_of :
    (b : Bool) (w : List SentEmail × ℕ) (e : SentEmail) (id : String)
    → is_taken w.0 id ≡ true
    → is_taken (added b w e).0.0 id ≡ true
keeps_of true w e id h = h
keeps_of false w e id h = ground (arith, h)

unique_of : (b : Bool) (w : List SentEmail × ℕ) (e : SentEmail) → b ≡ true → (added b w e).1 ≡ false
unique_of true w e h = refl
unique_of false w e h = absurd (ground (arith, h))

abbrev table : Table memory
table = record {
  rows = λ w. length w.0;
  sends = λ w. w.1;
  taken = λ w. is_taken w.0;
  unique = λ w e. unique_of (is_taken w.0 e.message_id) w e;
  lost = λ w e. lost_of (is_taken w.0 e.message_id) w e;
  created = λ w e. created_of (is_taken w.0 e.message_id) w e;
  sends-create = λ w e. sends_of (is_taken w.0 e.message_id) w e;
  rows-update = λ w e. refl;
  sends-update = λ w e. refl;
  rows-send = λ w e. refl;
  sends-send = λ w e. refl;
  keeps = λ w e id h. (keeps_of (is_taken w.0 e.message_id) w e id h, h);
  keeps-update = λ w e id same h. h;
}

abbrev request : SendEmailRequest
request = record {
  domain_id = 7;
  message_id = "m1";
  from = "a@b.c";
  reply_to = "";
  to_addresses = "x@y.z" ∷ [];
  cc_addresses = [];
  bcc_addresses = [];
  subject = "hi";
  text_body = some "text";
  html_body = none;
  max_retries = pos 3;
  webhook_data = "";
}

abbrev job : EmailSendingJob
job = record {
  id = 1;
  type = send_job;
  sent_email_id = 0;
  email_request = some request;
  priority = pos 1;
  scheduled_at = 5;
  attempts = 0;
  max_attempts = pos 3;
  last_attempt_at = 0;
  last_error = "";
  created_at = 5;
}

abbrev clock : ℕ → JobClock
clock n = record {
  started = 10 + n;
  duration = 4 + n;
  scheduled = 20 + n;
  row_id = 30 + n;
  sending = record { created = 11; marked = 12; retried = 13 };
}

abbrev config : EmailWorkerConfig
config = record { retry_interval = 5 * minute }

abbrev text : JobError → String
text err = "failed"

abbrev ended : EmailWorkerStats
ended = (life memory config text 5 ([], 0) clock job new_stats).1

-- Three attempts, of which only the first makes a row and asks the sender: the id is taken then.
attempts :
    (length (life memory config text 5 ([], 0) clock job new_stats).0.0 ≡ 1)
    × ((life memory config text 5 ([], 0) clock job new_stats).0.1 ≡ 1)
    × (ended.emails_processed ≡ 3)
    × (ended.emails_retried ≡ 2)
    × (ended.emails_failed ≡ 1)
    × (ended.average_time ≡ 4)
unfolding life process_email_job process_by_type process_send_job send_email validate new_sent_email
    finish send_created send_checked is_valid handle handle_job_failure error_of after_attempt
    count_started update_average_time schedule_retry new_stats email_backoff_delay cap_at
    mark_as_failed calculate_next_retry_time slt mul64 shl_one
attempts = (refl, refl, refl, refl, refl, refl)

send_job_sent_once_example :
    let (w', s') = life memory config text 5 ([], 0) clock job new_stats in
    (w'.1 + 0 ≡ 0 + length w'.0)
    × (length w'.0 ≤ 0 + 1)
    × (s'.emails_processed ≤ new_stats.emails_processed + suc (3 - 1))
send_job_sent_once_example =
    send_job_sent_once memory table config text 5 3 request ([], 0) clock job new_stats
      (record { type = refl; given = refl; bound = refl }) refl
