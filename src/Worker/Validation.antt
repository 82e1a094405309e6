-- ===== src/Worker/Validation.antt =====
-- ValidationWorker of app/worker/validation_worker.go: a turn of its loop over the job queue and the
-- use case of domain/validation/usecase.go.
pub mod Outcome
mod Tests
use Prim.Native.String.{String}
use mailvault.Base.{
  ℕ, suc, ◌≡◌, refl, ◌⊎◌, inl, inr, Bool, true, false, List, [], ◌∷◌, Option, none, some, arith,
  if◌then◌else◌, if_rule, Bool-cases, Option-cases, pos, z_ltb,
}
use mailvault.Queue.{
  ValidationType, mx_record, txt_record, ownership, full_validation, other_type, ValidationJob,
  QueueError, queue_closed, queue_full, queue_empty, JobQueue, Popping, sleeps, cancelled, fails,
  pops,
}
use mailvault.Queue.Priority.{pop}
use mailvault.Queue.Priority.Laws.{
  IsValid, Taken, Passed, job_taken, shut_down, timed_out, waiting, pop_correct,
}
use mailvault.Validation.{
  status_failed, Message, max_retries_reached, Domain, FullValidationResult, ValidationConfig,
  Store, Clock, Validated, not_found, no_token, not_created, dns_error, validated,
  update_validation_status, validate_domain,
}
use mailvault.Validation.Checks.{CheckResult, CheckError, validate_mx_records, validate_txt_record}

-- What the use case's call gives the worker: nil, or an error of one of the two kinds, or the error of
-- an unknown type.
pub data JobError : Type 0 where
  check_error : CheckError → JobError
  validation_error : Validated → JobError
  unknown_type : String → JobError

-- The answers of the DNS service to the three kinds of question.
pub record Answers : Type 0 where
  pub mx : Domain → String ⊎ CheckResult
  pub txt : Domain → String ⊎ CheckResult
  pub full : Domain → String ⊎ FullValidationResult

unfoldable pub error_of_validation : Validated → Option JobError
error_of_validation (validated result) = none
error_of_validation not_found = some (validation_error not_found)
error_of_validation no_token = some (validation_error no_token)
error_of_validation not_created = some (validation_error not_created)
error_of_validation (dns_error err) = some (validation_error (dns_error err))

unfoldable pub error_of_check : Option CheckError → Option JobError
error_of_check none = none
error_of_check (some err) = some (check_error err)

-- How a turn of the loop ends: the worker returns, sleeps in Pop, pauses, or has done a job.
pub data Turn : Type 0 where
  returned asleep paused : Turn
  done_with : ValidationJob → Turn

-- `text` is the message of an error.
module _ (store : Store) (config : ValidationConfig) (text : JobError → String) where
  open store use {World}

  unfoldable pub call_use_case :
      World → Clock → Answers → ℕ → ValidationType → World × Option JobError
  call_use_case w clock dns id mx_record =
      let (w', err) = validate_mx_records store config w clock dns.mx id in (w', error_of_check err)
  call_use_case w clock dns id txt_record =
      let (w', err) = validate_txt_record store config w clock dns.txt id in
      (w', error_of_check err)
  call_use_case w clock dns id full_validation =
      let (w', res) = validate_domain store config w clock dns.full id in
      (w', error_of_validation res)
  call_use_case w clock dns id ownership =
      let (w', err) = validate_txt_record store config w clock dns.txt id in
      (w', error_of_check err)
  call_use_case w clock dns id (other_type name) = (w, some (unknown_type name))

  -- handleJobRetry: a job with attempts left is only written to the log.
  unfoldable pub handle_job_retry : World → ℕ → ValidationJob → World
  handle_job_retry w now job =
      if z_ltb (pos job.attempts) config.max_retries
      then w
      else (update_validation_status store config w now job.domain_id status_failed
          (some (max_retries_reached job.attempts job.last_error))).0

  unfoldable pub after_call : ℕ → ValidationJob → World × Option JobError → World
  after_call now job (w, none) = w
  after_call now job (w, some err) =
      handle_job_retry w now (record job { last_error = text err; attempts = suc job.attempts })

  unfoldable pub process_job : World → Clock → ℕ → Answers → ValidationJob → World
  process_job w clock now dns job =
      after_call now job (call_use_case w clock dns job.domain_id job.type)

  unfoldable pub after_pop :
      World
      → Clock
      → ℕ
      → Answers
      → JobQueue ValidationJob
      → Popping ValidationJob
      → World × JobQueue ValidationJob × Turn
  after_pop w clock now dns q sleeps = (w, q, asleep)
  after_pop w clock now dns q cancelled = (w, q, returned)
  after_pop w clock now dns q (fails queue_closed) = (w, q, returned)
  after_pop w clock now dns q (fails queue_full) = (w, q, paused)
  after_pop w clock now dns q (fails queue_empty) = (w, q, paused)
  after_pop w clock now dns q (pops job r) = (process_job w clock now dns job, r, done_with job)

  -- A turn looks first whether the worker was stopped or the context is over; `done` is whether the
  -- context is done by the time that Pop looks.
  unfoldable pub turn :
      World
      → Clock
      → ℕ
      → Answers
      → JobQueue ValidationJob
      → (stopped over done : Bool) → World × JobQueue ValidationJob × Turn
  turn w clock now dns q stopped over done =
      if stopped
      then (w, q, returned)
      else if over
      then (w, q, returned)
      else after_pop w clock now dns q (pop q done)
