-- ===== src/Worker.antt =====
-- The workers of app/worker that send messages: EmailSenderWorker of email_sender_worker.go over the
-- use case of domain/email_sending/usecase.go. Durations are numbers of nanoseconds, below 2 ^ 63.
use Prim.Native.String.{String}
use mailvault.Base.{
  ℕ, zero, suc, ◌+◌, ◌-◌, ◌*◌, ◌/◌, Bool, Option, none, some, ◌==◌, if◌then◌else◌, ℤ, pos, z_ltb,
  ◌⊎◌, inl, inr, List, [], ◌∷◌,
}
use mailvault.Backoff.{email_backoff_delay}
use mailvault.Queue.Email.{EmailSendingJob, EmailJobType, send_job, retry_job, other_job}
use mailvault.Sending.Entity.{add_duration}
use mailvault.Sending.UseCase.{
  SendEmailRequest, SendError, Outside, Clock, Sent, answer, error, send_email, resend_email,
}
pub mod Counts
pub mod Once
pub mod Copies
pub mod Validation
mod Tests

pub record EmailWorkerConfig : Type 0 where
  pub retry_interval : ℕ

-- The counters of EmailWorkerStats.
pub record EmailWorkerStats : Type 0 where
  pub emails_processed : ℕ
  pub emails_successful : ℕ
  pub emails_failed : ℕ
  pub emails_retried : ℕ
  pub average_time : ℕ
  pub last_job_time : ℕ

pub data JobError : Type 0 where
  request_missing id_missing unknown_type : JobError
  not_sent not_resent : SendError → JobError

-- The readings of the clock in the processing of a job, and the id drawn for a new row.
pub record JobClock : Type 0 where
  pub started : ℕ
  pub duration : ℕ
  pub scheduled : ℕ
  pub row_id : ℕ
  pub sending : Clock

unfoldable pub new_stats : EmailWorkerStats
new_stats = record {
  emails_processed = 0;
  emails_successful = 0;
  emails_failed = 0;
  emails_retried = 0;
  average_time = 0;
  last_job_time = 0;
}

-- EmailsProcessed has counted the job.
unfoldable pub update_average_time : ℕ → EmailWorkerStats → EmailWorkerStats
update_average_time duration s = record s {
  average_time =
      if s.emails_processed == 1
      then duration
      else (s.average_time * (s.emails_processed - 1) + duration) / s.emails_processed;
}

unfoldable pub count_started : ℕ → EmailWorkerStats → EmailWorkerStats
count_started started s = record s {
  emails_processed = suc s.emails_processed;
  last_job_time = started;
}

unfoldable pub handle_job_success : ℕ → EmailWorkerStats → EmailWorkerStats
handle_job_success duration s =
    update_average_time duration (record s { emails_successful = suc s.emails_successful })

-- scheduleRetry: the job that its goroutine pushes once the delay is over.
unfoldable pub schedule_retry : EmailWorkerConfig → ℕ → EmailSendingJob → EmailSendingJob
schedule_retry config now job = record job {
  scheduled_at = add_duration now (email_backoff_delay config.retry_interval job.attempts);
}

-- What the processing of a job leaves beside the world: the counters, and the job that is pushed
-- again later, if there is one.
pub record Processed : Type 0 where
  pub stats : EmailWorkerStats
  pub again : Option EmailSendingJob

unfoldable pub handle_job_failure :
    EmailWorkerConfig → JobClock → EmailSendingJob → EmailWorkerStats → Processed
handle_job_failure config clock job s =
    if z_ltb (pos job.attempts) job.max_attempts
    then record {
      stats =
          update_average_time clock.duration (record s { emails_retried = suc s.emails_retried });
      again = some (schedule_retry config clock.scheduled job);
    }
    else record {
      stats = update_average_time clock.duration (record s { emails_failed = suc s.emails_failed });
      again = none;
    }

unfoldable pub error_of : (SendError → JobError) → Sent → Option JobError
error_of kind (answer response) = none
error_of kind (error err) = some (kind err)

unfoldable pub after_attempt : ℕ → EmailSendingJob → EmailSendingJob
after_attempt started job = record job { attempts = suc job.attempts; last_attempt_at = started }

-- `text` is the message of an error.
module _ (out : Outside) (config : EmailWorkerConfig) (text : JobError → String) where
  open out use {World}

  unfoldable pub process_send_job :
      World → JobClock → Option SendEmailRequest → World × Option JobError
  process_send_job w clock none = (w, some request_missing)
  process_send_job w clock (some req) =
      let (w', sent) = send_email out w clock.row_id clock.sending req in
      (w', error_of not_sent sent)

  unfoldable pub process_retry_job : World → JobClock → ℕ → World × Option JobError
  process_retry_job w clock id =
      if id == 0
      then (w, some id_missing)
      else (let (w', sent) = resend_email out w clock.sending id in (w', error_of not_resent sent))

  unfoldable pub process_by_type :
      World → JobClock → EmailSendingJob → EmailJobType → World × Option JobError
  process_by_type w clock job send_job = process_send_job w clock job.email_request
  process_by_type w clock job retry_job = process_retry_job w clock job.sent_email_id
  process_by_type w clock job (other_job name) = (w, some unknown_type)

  unfoldable pub handle :
      JobClock → EmailSendingJob → EmailWorkerStats → Option JobError → Processed
  handle clock job s none = record { stats = handle_job_success clock.duration s; again = none }
  handle clock job s (some err) =
      handle_job_failure config clock (record job { last_error = text err }) s

  unfoldable pub process_email_job :
      World → JobClock → EmailSendingJob → EmailWorkerStats → World × Processed
  process_email_job w clock job s =
      let (w', err) = process_by_type w clock job job.type in
      (w', handle clock (after_attempt clock.started job) (count_started clock.started s) err)

  -- A worker on the jobs that it takes, each with the readings of the clock.
  unfoldable pub work :
      World → List (JobClock × EmailSendingJob) → EmailWorkerStats → World × EmailWorkerStats
  work w [] s = (w, s)
  work w ((clock, job) ∷ rest) s =
      let (w', p) = process_email_job w clock job s in work w' rest p.stats

  -- A job from its first processing to its last, the queue and the workers handing it on each time.
  -- Each round has a clock; `fuel` bounds the rounds.
  unfoldable pub life :
      ℕ → World → (ℕ → JobClock) → EmailSendingJob → EmailWorkerStats → World × EmailWorkerStats
  life zero w clock job s = (w, s)
  life (suc fuel) w clock job s =
      let (w', p) = process_email_job w (clock 0) job s in
      elim p.again [
        | none ↦ (w', p.stats)
        | some next ↦ life fuel w' (λ n. clock (suc n)) next p.stats
      ]
