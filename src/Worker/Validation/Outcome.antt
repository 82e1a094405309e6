-- ===== src/Worker/Validation/Outcome.antt =====
-- How a turn of ValidationWorker (app/worker/validation_worker.go) ends.
use Prim.Native.String.{String}
use mailvault.Base.{
  ℕ, suc, ◌≡◌, refl, Bool, true, false, [], Option, none, some, if_rule, pos, z_ltb,
}
use mailvault.Queue.{ValidationJob, JobQueue, Popping}
use mailvault.Queue.Priority.{pop}
use mailvault.Queue.Priority.Laws.{
  IsValid, Taken, Passed, job_taken, shut_down, timed_out, waiting, pop_correct,
}
use mailvault.Validation.{
  status_failed, max_retries_reached, ValidationConfig, Store, Clock, update_validation_status,
}
use mailvault.Worker.Validation.{
  JobError, Answers, call_use_case, handle_job_retry, after_call, process_job, Turn, returned,
  asleep, done_with, after_pop, turn,
}

module _ (store : Store) (config : ValidationConfig) (text : JobError → String) (clock : Clock)
    (now : ℕ) (dns : Answers) where
  open store use {World}

  -- What the processing of a job leaves: what the use case left, unless the job failed for the last time.
  pub data JobDone (w : World) (job : ValidationJob) : World → Type 0 where
    went_well :
        (w' : World)
        → call_use_case store config text w clock dns job.domain_id job.type ≡ (w', none)
        → JobDone w job w'
    given_up :
        (err : JobError) (w' : World)
        → call_use_case store config text w clock dns job.domain_id job.type ≡ (w', some err)
        → z_ltb (pos (suc job.attempts)) config.max_retries ≡ true
        → JobDone w job w'
    marked_failed :
        (err : JobError) (w' : World)
        → call_use_case store config text w clock dns job.domain_id job.type ≡ (w', some err)
        → z_ltb (pos (suc job.attempts)) config.max_retries ≡ false
        → JobDone w job
            (update_validation_status store config w' now job.domain_id status_failed
              (some (max_retries_reached (suc job.attempts) (text err)))).0

  -- How a turn ends. What it does with the queue, it does only if neither the stop nor the end of the
  -- context was seen before.
  pub data Turned (w : World) (q : JobQueue ValidationJob) (stopped over done : Bool)
      : World → JobQueue ValidationJob → Turn → Type 0 where
    left_stopped : stopped ≡ true → Turned w q stopped over done w q returned
    left_over : over ≡ true → Turned w q stopped over done w q returned
    processed :
        (job : ValidationJob) (r : JobQueue ValidationJob) (w' : World)
        → Taken q job r
        → stopped ≡ false
        → over ≡ false
        → JobDone w job w'
        → Turned w q stopped over done w' r (done_with job)
    ended_closed :
        stopped ≡ false
        → over ≡ false
        → q.jobs ≡ []
        → q.closed ≡ true
        → Turned w q stopped over done w q returned
    ended_done :
        stopped ≡ false
        → over ≡ false
        → q.jobs ≡ []
        → q.closed ≡ false
        → done ≡ true
        → Turned w q stopped over done w q returned
    waits :
        stopped ≡ false
        → over ≡ false
        → q.jobs ≡ []
        → q.closed ≡ false
        → done ≡ false
        → Turned w q stopped over done w q asleep

  process_job-JobDone :
      (w : World) (job : ValidationJob)
      → JobDone w job (process_job store config text w clock now dns job)
  unfolding process_job after_call handle_job_retry
  process_job-JobDone w job =
      go (call_use_case store config text w clock dns job.domain_id job.type) refl
    where
      go :
          (r : World × Option JobError)
          → call_use_case store config text w clock dns job.domain_id job.type ≡ r
          → JobDone w job (after_call store config text now job r)
      go (w', none) e = went_well w' e
      go (w', some err) e =
          if_rule (JobDone w job) (z_ltb (pos (suc job.attempts)) config.max_retries)
            (given_up err w' e) (marked_failed err w' e)

  -- A worker that was stopped, or whose context is done, before a turn returns from it with the queue and
  -- the store as they are. Else a turn on a queue in a good state takes one job if there is one and
  -- processes it: the queue has then exactly the other jobs, also if the job failed with attempts left,
  -- which leaves the domain as the use case did; the domain of a job that failed for the last time is
  -- marked as failed. Without a job the worker returns if the queue is closed or the context is done by
  -- then, and else sleeps.
  pub turn-Turned :
      (w : World) (q : JobQueue ValidationJob) (stopped over done : Bool)
      → IsValid q
      → let t = turn store config text w clock now dns q stopped over done in
        Turned w q stopped over done t.0 t.1 t.2
  unfolding turn after_pop
  turn-Turned w q true over done v = left_stopped refl
  turn-Turned w q false true done v = left_over refl
  turn-Turned w q false false done v = popped (pop q done) (pop_correct q done v)
    where
      popped :
          (p : Popping ValidationJob)
          → Passed q done p
          → (let t = after_pop store config text w clock now dns q p in
              Turned w q false false done t.0 t.1 t.2)
      popped p (job_taken job r t) = processed job r _ t refl refl (process_job-JobDone w job)
      popped p (shut_down e c) = ended_closed refl refl e c
      popped p (timed_out e c d) = ended_done refl refl e c d
      popped p (waiting e c d) = waits refl refl e c d
