-- ===== src/Queue/Scheduler/Map.antt =====
-- The map of scheduled jobs of app/worker/queue.go, and what ScheduleJob does to it.
use mailvault.Base.{
  ℕ, ◌≡◌, refl, ◌≢◌, List, [], ◌∷◌, Option, none, some, arith, subst, ◌==◌, if◌then◌else◌, if_rule,
  All, ==_iff, ℤ,
}
use mailvault.Queue.{ValidationJob}
use mailvault.Queue.Scheduler.{ScheduledJob, put, schedule_job}

-- The entries of a map: no two have the id of their job in common.
abbrev pub Keyed : List ScheduledJob → Type 0
Keyed [] = Unit
Keyed (e ∷ es) = All (λ f. f.job.id ≢ e.job.id) es × Keyed es

put-ne :
    (id : ℕ) (e : ScheduledJob) (es : List ScheduledJob)
    → e.job.id ≢ id
    → All (λ f. f.job.id ≢ id) es
    → All (λ f. f.job.id ≢ id) (put e es)
unfolding put
put-ne id e [] n a = (n, tt)
put-ne id e (f ∷ rest) n a =
    if_rule (All (λ f. f.job.id ≢ id)) (f.job.id == e.job.id) (λ _. (n, a.1))
      λ _. (a.0, put-ne id e rest n a.1)

put-Keyed : (e : ScheduledJob) (es : List ScheduledJob) → Keyed es → Keyed (put e es)
unfolding put
put-Keyed e [] k = (tt, tt)
put-Keyed e (f ∷ rest) k =
    if_rule Keyed (f.job.id == e.job.id)
      (λ y. (subst (λ id. All (λ f. f.job.id ≢ id) rest) ((==_iff _ _).0 y) k.0, k.1))
      λ n. (put-ne f.job.id e rest (λ e. absurd (ground (arith, n, e))) k.0, put-Keyed e rest k.1)

-- The entry that a map has for an id.
abbrev pub lookup : ℕ → List ScheduledJob → Option ScheduledJob
lookup id [] = none
lookup id (e ∷ rest) = if e.job.id == id then some e else lookup id rest

-- Scheduling a job keeps the keys of the map apart; from then on the map has for the id of the job
-- the new entry, which counts the attempts the job has had, in place of any before, and for every
-- other id what it had.
pub schedule_job_correct :
    (es : List ScheduledJob) (job : ValidationJob) (time : ℕ) (max_retries : ℤ)
    → Keyed es
    → let es' = schedule_job es job time max_retries in
      Keyed es'
      × ((id : ℕ)
          → lookup id es' ≡ (
              if job.id == id
              then some (record {
                job = job;
                scheduled_at = time;
                retry_count = job.attempts;
                max_retries = max_retries;
              })
              else lookup id es))
unfolding schedule_job put
schedule_job_correct es job time m k = (put-Keyed _ es k, λ id. put-lookup id _ es)
  where
    put-lookup :
        (id : ℕ) (e : ScheduledJob) (es : List ScheduledJob)
        → lookup id (put e es) ≡ (if e.job.id == id then some e else lookup id es)
    put-lookup id e [] = refl
    put-lookup id e (f ∷ rest) = ground (arith, put-lookup id e rest)
