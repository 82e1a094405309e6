-- ===== src/Sending/Tests.antt =====
-- A repository in memory with a scripted sender, and the properties at concrete inputs.
use Prim.Native.String.{String}
use mailvault.Base.{
  ℕ, ◌≡◌, refl, ◌≢◌, ◌⊎◌, inl, inr, Bool, true, false, List, [], ◌∷◌, Option, none, some, arith,
  ◌==◌, if◌then◌else◌, pos, ==_iff,
}
use mailvault.Sending.Entity.{SentEmail, failed, is_valid, can_retry, mark_as_failed, mark_as_sent}
use mailvault.Sending.UseCase.{
  SendEmailRequest, validate, new_sent_email, finish, Outside, Clock, send_email, resend_email,
  process_retry_queue,
}
use mailvault.Sending.Outcomes.{
  IsOutside, Ending, Resent, Bounded, send_email-Ending, resend_email-Resent,
  process_retry_queue-Bounded,
}

-- Rows by id; the answers that the sender will give; and whether updates go well.
record Memory : Type 0 where
  rows : ℕ → Option SentEmail
  answers : List (String ⊎ String)
  healthy : Bool
  due : List SentEmail

store : (ℕ → Option SentEmail) → SentEmail → ℕ → Option SentEmail
store rows e id = if id == e.id then some e else rows id

next_answer : List (String ⊎ String) → String ⊎ String
next_answer [] = inr "no route"
next_answer (a ∷ rest) = a

later_answers : List (String ⊎ String) → List (String ⊎ String)
later_answers [] = []
later_answers (a ∷ rest) = rest

write : Memory → SentEmail → Memory × Bool
write m e = (if m.healthy then record m { rows = store m.rows e } else m, m.healthy)

abbrev memory : Outside
memory = record {
  World = Memory;
  create = write;
  update = write;
  get = λ m id. m.rows id;
  send = λ m e. (record m { answers = later_answers m.answers }, next_answer m.answers);
  for_retry = λ m limit. some m.due;
}

memory_update :
    (w : Memory) (e : SentEmail) → (write w e).1 ≡ true → (write w e).0.rows e.id ≡ some e
unfolding write store
memory_update w e h = ground (arith, ==_iff e.id e.id)

memory_other : (w : Memory) (e : SentEmail) (id : ℕ) → id ≢ e.id → (write w e).0.rows id ≡ w.rows id
unfolding write store
memory_other w e id h = ground arith

memory_failed :
    (w : Memory) (e : SentEmail) (id : ℕ)
    → (write w e).1 ≡ false
    → (write w e).0.rows id ≡ w.rows id
unfolding write
memory_failed w e id h = ground arith

memory-IsOutside : IsOutside memory
memory-IsOutside = record {
  get-update = memory_update;
  get-update_ne = memory_other;
  get-update_failed = memory_failed;
  get-send = λ w e id. refl;
}

abbrev request : SendEmailRequest
request = record {
  domain_id = 7;
  message_id = "m1";
  from = "a@b.c";
  reply_to = "";
  to_addresses = "x@y.z" ∷ [];
  cc_addresses = [];
  bcc_addresses = [];
  subject = "hi";
  text_body = some "text";
  html_body = none;
  max_retries = pos 3;
  webhook_data = "";
}

abbrev clock : Clock
clock = record { created = 10; marked = 20; retried = 30 }

abbrev empty : Memory
empty = record {
  rows = λ id. none;
  answers = inr "refused" ∷ inl "" ∷ [];
  healthy = true;
  due = [];
}

send_email-Ending_example :
    Ending memory empty
      (new_sent_email 5 10 request)
      request
      (send_email memory empty 5 clock request)
send_email-Ending_example = send_email-Ending memory memory-IsOutside empty 5 clock request

-- The first answer of the sender is a refusal, the second an empty message id.
failed_then_sent :
    let w = (send_email memory empty 5 clock request).0 in
    let v = (resend_email memory w clock 5).0 in
    (w.rows 5 ≡ some (mark_as_failed 20 30 "refused" (new_sent_email 5 10 request)))
    × ((resend_email memory v clock 5).0 ≡ v)
unfolding send_email resend_email write store validate new_sent_email is_valid can_retry finish
    next_answer later_answers mark_as_failed mark_as_sent
failed_then_sent = (refl, refl)

resend_email-Resent_example : Resent memory empty 5 (resend_email memory empty clock 5)
resend_email-Resent_example = resend_email-Resent memory memory-IsOutside empty clock 5

-- A row that has failed once, due for a retry.
abbrev failed_once : SentEmail
failed_once = record (new_sent_email 5 10 request) {
  status = failed;
  retry_count = 1;
  max_retries = pos 3;
}

abbrev waiting : Memory
waiting = record {
  rows = λ id. if id == 5 then some (record failed_once { id = 5 }) else none;
  answers = inr "refused" ∷ [];
  healthy = true;
  due = record failed_once { id = 5 } ∷ [];
}

waiting-Bounded : Bounded memory waiting
waiting-Bounded id e q = ground arith

process_retry_queue-Bounded_example :
    Bounded memory (process_retry_queue memory waiting (λ n. clock) 10).0
process_retry_queue-Bounded_example =
    process_retry_queue-Bounded memory memory-IsOutside waiting (λ n. clock) 10 waiting-Bounded
