-- ===== src/Worker/Counts.antt =====
-- What the counters of EmailSenderWorker (app/worker/email_sender_worker.go) say.
use Prim.Native.String.{String}
use native.Mathlib.Nat.{div-le_of_le-mul, mul-le-mul_right}
use mailvault.Base.{
  ℕ, suc, ◌+◌, ◌-◌, ◌*◌, ◌/◌, ◌≡◌, ◌≤◌, refl, List, [], ◌∷◌, Option, none, some, arith, ◌==◌,
  if_rule, All, z_ltb, pos,
}
use mailvault.Queue.Email.{EmailSendingJob}
use mailvault.Sending.UseCase.{Outside}
use mailvault.Worker.{
  EmailWorkerConfig, EmailWorkerStats, JobError, JobClock, new_stats, update_average_time,
  count_started, handle_job_success, Processed, handle_job_failure, handle, process_email_job, work,
}

average_le :
    (m n average duration : ℕ) → average ≤ m → duration ≤ m → (average * n + duration) / suc n ≤ m
average_le m n average duration a d =
    let times : average * n ≤ m * n = mul-le-mul_right n a in
    let product : suc n * m ≡ m * n + m = grind arith in
    div-le_of_le-mul (suc n) (omega (arith, times, product))

-- Each job processed was successful, failed or is retried, and the average is within the bound.
abbrev Counted : ℕ → EmailWorkerStats → Type 0
Counted m s =
    (s.emails_processed ≡ s.emails_successful + s.emails_failed + s.emails_retried)
    × (s.average_time ≤ m)

update_average_time-le :
    (m n duration : ℕ) (s : EmailWorkerStats)
    → s.emails_processed ≡ suc n
    → s.average_time ≤ m
    → duration ≤ m
    → (update_average_time duration s).average_time ≤ m
unfolding update_average_time
update_average_time-le m n duration s e a d =
    let same : suc n - 1 ≡ n = omega arith in
    let later : (s.average_time * (suc n - 1) + duration) / suc n ≤ m =
      rw same (average_le m n s.average_time duration a d) in
    rw e (if_rule (λ x. x ≤ m) (suc n == 1) (λ _. d) (λ _. later))

module _ (out : Outside) (config : EmailWorkerConfig) (text : JobError → String) where
  open out use {World}

  handle-Counted :
      (m : ℕ) (clock : JobClock) (job : EmailSendingJob) (s : EmailWorkerStats)
      (err : Option JobError)
      → clock.duration ≤ m
      → Counted m s
      → Counted m (handle out config text clock job (count_started clock.started s) err).stats
  unfolding handle count_started handle_job_success handle_job_failure update_average_time
  handle-Counted m clock job s none d h = (
    omega arith,
    update_average_time-le m s.emails_processed clock.duration (count_started clock.started s) refl
        h.1 d,
  )
  handle-Counted m clock job s (some err) d h =
      if_rule (λ (p : Processed). Counted m p.stats) (z_ltb (pos job.attempts) job.max_attempts)
        (λ _. (
          omega arith,
          update_average_time-le m s.emails_processed clock.duration (count_started clock.started s)
              refl h.1 d,
        ))
        λ _. (
          omega arith,
          update_average_time-le m s.emails_processed clock.duration (count_started clock.started s)
              refl h.1 d,
        )

  work-Counted :
      (m : ℕ) (jobs : List (JobClock × EmailSendingJob)) (w : World) (s : EmailWorkerStats)
      → All (λ (j : JobClock × EmailSendingJob). j.0.duration ≤ m) jobs
      → Counted m s
      → Counted m (work out config text w jobs s).1
  unfolding work process_email_job
  work-Counted m [] w s d h = h
  work-Counted m ((clock, job) ∷ rest) w s d h =
      work-Counted m rest _ _ d.1 (handle-Counted m clock _ s _ d.0 h)

  -- After any jobs, whatever becomes of them, each job that a worker processed counts as successful,
  -- as failed or as retried, and the average of the times is at most the longest of them.
  pub counts_add_up :
      (m : ℕ) (jobs : List (JobClock × EmailSendingJob)) (w : World)
      → All (λ (j : JobClock × EmailSendingJob). j.0.duration ≤ m) jobs
      → let s = (work out config text w jobs new_stats).1 in
        (s.emails_processed ≡ s.emails_successful + s.emails_failed + s.emails_retried)
        × (s.average_time ≤ m)
  unfolding new_stats
  counts_add_up m jobs w d = work-Counted m jobs w new_stats d (omega arith)
