-- ===== src/Worker/Copies.antt =====
-- How often one send job of app/worker/email_sender_worker.go is processed, and the rows that it makes
-- through domain/email_sending/usecase.go.
use Prim.Native.String.{String}
use mailvault.Base.{
  ℕ, zero, suc, ◌+◌, ◌-◌, ◌≡◌, ◌≤◌, ◌<◌, refl, ◌∙◌, Bool, true, false, if◌then◌else◌, Option, none,
  some, arith, if_rule, z_ltb, pos,
}
use mailvault.Queue.Email.{EmailSendingJob, send_job}
use mailvault.Sending.UseCase.{SendEmailRequest, Outside}
use mailvault.Worker.{
  EmailWorkerConfig, EmailWorkerStats, JobError, JobClock, count_started, handle_job_success,
  update_average_time, Processed, handle_job_failure, handle, after_attempt, process_send_job,
  process_by_type, process_email_job, schedule_retry, life,
}
use mailvault.Worker.Once.{Table, Once, nothing_new, sent_once, send_email-Once}

module _ (out : Outside) (table : Table out) where
  open out use {World}
  open table use {rows, sends, taken}

  module _ (config : EmailWorkerConfig) (text : JobError → String) where
    -- A job to send a request, at most `m` times.
    pub record IsSendJob (m : ℕ) (request : SendEmailRequest) (job : EmailSendingJob) : Type 0 where
      pub type : job.type ≡ send_job
      pub given : job.email_request ≡ some request
      pub bound : job.max_attempts ≡ pos m

    process_email_job-Once :
        (m : ℕ) (req : SendEmailRequest) (w : World) (clock : JobClock) (job : EmailSendingJob)
        (s : EmailWorkerStats)
        → IsSendJob m req job
        → Once out table req.message_id w (process_email_job out config text w clock job s).0
    unfolding process_email_job process_by_type process_send_job
    process_email_job-Once m req w clock job s j =
        rw (j.type, j.given) (send_email-Once out table w clock.row_id clock.sending req)

    -- The job that is pushed again has attempts left, and one fewer.
    abbrev Again : ℕ → SendEmailRequest → EmailSendingJob → Option EmailSendingJob → Type 0
    Again m req job none = Unit
    Again m req job (some next) =
        IsSendJob m req next × (next.attempts ≡ suc job.attempts) × (next.attempts < m)

    abbrev Next : ℕ → SendEmailRequest → EmailSendingJob → EmailWorkerStats → Processed → Type 0
    Next m req job s p =
        (p.stats.emails_processed ≡ suc s.emails_processed) × Again m req job p.again

    handle-Next :
        (m : ℕ) (req : SendEmailRequest) (clock : JobClock) (job : EmailSendingJob)
        (s : EmailWorkerStats) (err : Option JobError)
        → IsSendJob m req job
        → Next m req job s (
            handle out config text clock
              (after_attempt clock.started job)
              (count_started clock.started s)
              err)
    unfolding handle after_attempt count_started handle_job_success handle_job_failure
        update_average_time schedule_retry
    handle-Next m req clock job s none j = (refl, tt)
    handle-Next m req clock job s (some err) j =
        if_rule (Next m req job s) (z_ltb (pos (suc job.attempts)) job.max_attempts)
          (λ left. (
            refl,
            (
              record { type = j.type; given = j.given; bound = j.bound },
              refl,
              ground (arith, j.bound, left),
            ),
          ))
          λ _. (refl, tt)

    process_email_job-Next :
        (m : ℕ) (req : SendEmailRequest) (w : World) (clock : JobClock) (job : EmailSendingJob)
        (s : EmailWorkerStats)
        → IsSendJob m req job
        → Next m req job s (process_email_job out config text w clock job s).1
    unfolding process_email_job
    process_email_job-Next m req w clock job s j = handle-Next m req clock job s _ j

    -- What a life of a job adds: a row at most, and none if its message id is taken, a sending for each
    -- row, and no more attempts than are left.
    record HasLived (m a : ℕ) (id : String) (w : World) (s : EmailWorkerStats) (w' : World)
        (s' : EmailWorkerStats) : Type 0 where
      paired : sends w' + rows w ≡ sends w + rows w'
      single : rows w' ≤ suc (rows w)
      barred : taken w id ≡ true → rows w' ≡ rows w
      bounded : s'.emails_processed ≤ s.emails_processed + suc (m - suc a)

    abbrev Lived : ℕ → ℕ → String → World → EmailWorkerStats → World × EmailWorkerStats → Type 0
    Lived m a id w s (w', s') = HasLived m a id w s w' s'

    -- One attempt before a life.
    attempt_before :
        (m a n : ℕ) (id : String) (w v w' : World) (s t s' : EmailWorkerStats)
        → Once out table id w v
        → t.emails_processed ≡ suc s.emails_processed
        → n ≡ suc a
        → n < m
        → HasLived m n id v t w' s'
        → HasLived m a id w s w' s'
    attempt_before m a n id w v w' s t s' (nothing_new r q k) c e l h = record {
      paired = omega (arith, r, q, h.paired);
      single = omega (arith, r, h.single);
      barred = λ taken_before. h.barred (k taken_before) ∙ r;
      bounded = omega (arith, c, e, l, h.bounded);
    }
    attempt_before m a n id w v w' s t s' (sent_once free now r q) c e l h = record {
      paired = omega (arith, r, q, h.paired);
      single = omega (arith, r, h.barred now);
      barred = λ taken_before. absurd (ground (arith, free, taken_before));
      bounded = omega (arith, c, e, l, h.bounded);
    }

    last_attempt :
        (m a : ℕ) (id : String) (w v : World) (s t : EmailWorkerStats)
        → Once out table id w v
        → t.emails_processed ≡ suc s.emails_processed
        → HasLived m a id w s v t
    last_attempt m a id w v s t (nothing_new r q k) c = record {
      paired = omega (arith, r, q);
      single = omega (arith, r);
      barred = λ _. r;
      bounded = omega (arith, c);
    }
    last_attempt m a id w v s t (sent_once free now r q) c = record {
      paired = omega (arith, r, q);
      single = omega (arith, r);
      barred = λ taken_before. absurd (ground (arith, free, taken_before));
      bounded = omega (arith, c);
    }

    life-Lived :
        (fuel m : ℕ) (req : SendEmailRequest) (w : World) (clock : ℕ → JobClock)
        (job : EmailSendingJob) (s : EmailWorkerStats)
        → IsSendJob m req job
        → Lived m job.attempts req.message_id w s (life out config text fuel w clock job s)
    unfolding life
    life-Lived zero m req w clock job s j = record {
      paired = refl;
      single = omega arith;
      barred = λ _. refl;
      bounded = omega arith;
    }
    life-Lived (suc fuel) m req w clock job s j =
        let (v, p) = process_email_job out config text w (clock 0) job s in
        let (count, again) = process_email_job-Next m req w (clock 0) job s j in
        go v p.stats p.again (process_email_job-Once m req w (clock 0) job s j) count again
          (life-Lived fuel m req v (λ n. clock (suc n)))
      where
        go :
            (v : World) (t : EmailWorkerStats) (o : Option EmailSendingJob)
            → Once out table req.message_id w v
            → t.emails_processed ≡ suc s.emails_processed
            → Again m req job o
            → ((next : EmailSendingJob) (t' : EmailWorkerStats)
                → IsSendJob m req next
                → Lived m next.attempts req.message_id v t'
                    (life out config text fuel v (λ n. clock (suc n)) next t'))
            → Lived m job.attempts req.message_id w s (elim o [
              | none ↦ (v, t)
              | some next ↦ life out config text fuel v (λ n. clock (suc n)) next t
            ])
        go v t none once c a rest = last_attempt m job.attempts req.message_id w v s t once c
        go v t (some next) once c (j', e, l) rest =
            attempt_before m job.attempts next.attempts req.message_id w v _ s t _ once c e l
              (rest next t j')

    rows_bound :
        (b : Bool) (n n' : ℕ) → n' ≤ suc n → (b ≡ true → n' ≡ n) → n' ≤ n + (if b then 0 else 1)
    rows_bound true n n' single barred = omega (arith, barred refl)
    rows_bound false n n' single barred = omega (arith, single)

    -- However the sender and the store answer: a new send job that is processed again and again, as long
    -- as it fails and has attempts left, makes one row at most and is sent exactly as often as it makes
    -- one, and never if a row has its message id before. It is processed at most as often as its maximum
    -- of attempts, and at most once if that is 0.
    pub send_job_sent_once :
        (fuel m : ℕ) (req : SendEmailRequest) (w : World) (clock : ℕ → JobClock)
        (job : EmailSendingJob) (s : EmailWorkerStats)
        → IsSendJob m req job
        → job.attempts ≡ 0
        → let (w', s') = life out config text fuel w clock job s in
          (sends w' + rows w ≡ sends w + rows w')
          × (rows w' ≤ rows w + (if taken w req.message_id then 0 else 1))
          × (s'.emails_processed ≤ s.emails_processed + suc (m - 1))
    send_job_sent_once fuel m req w clock job s j new =
        let h = life-Lived fuel m req w clock job s j in
        (
          h.paired,
          rows_bound (taken w req.message_id) (rows w) _ h.single h.barred,
          omega (arith, h.bounded, new),
        )
