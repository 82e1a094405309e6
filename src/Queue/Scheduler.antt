-- ===== src/Queue/Scheduler.antt =====
-- JobScheduler of app/worker/queue.go over the interface Queue, as far as the scheduler calls it.
pub mod Map
pub mod Laws
use mailvault.Base.{
  ℕ, zero, suc, ◌≡◌, ◌⊎◌, Bool, true, false, ◌||◌, not, List, [], ◌∷◌, ◌++◌, map, Option, none,
  some, ltb, ◌==◌, if◌then◌else◌, ℤ, length,
}
use mathlib.Core.List.{Perm}
use mailvault.Queue.{ValidationJob, QueueError}

pub record ScheduledJob : Type 0 where
  pub job : ValidationJob
  pub scheduled_at : ℕ
  pub retry_count : ℕ
  pub max_retries : ℤ

-- A queue as the scheduler uses it: a push adds exactly the job, or fails and adds nothing.
pub record Queue : Type 1 where
  pub State : Type 0
  pub Good : State → Type 0
  pub contents : State → List ValidationJob
  pub push : State → ValidationJob → State × Option QueueError
  pub push-Good : (s : State) (j : ValidationJob) → Good s → Good (push s j).0
  pub push_added :
      (s : State) (j : ValidationJob)
      → Good s
      → (push s j).1 ≡ none
      → Perm (contents (push s j).0) (j ∷ contents s)
  pub push_refused :
      (s : State) (j : ValidationJob) (e : QueueError)
      → Good s
      → (push s j).1 ≡ some e
      → contents (push s j).0 ≡ contents s

-- js.scheduled[job.ID] = entry, in a map kept as a list in some order of iteration.
unfoldable pub put : ScheduledJob → List ScheduledJob → List ScheduledJob
put e [] = e ∷ []
put e (f ∷ rest) = if f.job.id == e.job.id then e ∷ rest else f ∷ put e rest

unfoldable pub schedule_job : List ScheduledJob → ValidationJob → ℕ → ℤ → List ScheduledJob
schedule_job scheduled job time max_retries =
    put
      (record {
        job = job;
        scheduled_at = time;
        retry_count = job.attempts;
        max_retries = max_retries;
      })
      scheduled

-- now.After(at) || now.Equal(at)
abbrev pub is_due : ℕ → ScheduledJob → Bool
is_due now e = ltb e.scheduled_at now || now == e.scheduled_at

-- delete(js.scheduled, id)
unfoldable pub remove : ℕ → List ScheduledJob → List ScheduledJob
remove id [] = []
remove id (e ∷ rest) = if e.job.id == id then rest else e ∷ remove id rest

unfoldable pub remove_all : List ℕ → List ScheduledJob → List ScheduledJob
remove_all [] scheduled = scheduled
remove_all (id ∷ ids) scheduled = remove_all ids (remove id scheduled)

module _ (q : Queue) where
  open q use {State, push}

  note : ScheduledJob → List ℕ → State × Option QueueError → State × List ℕ
  note e to_remove (s, none) = (s, to_remove ++ e.job.id ∷ [])
  note e to_remove (s, some err) = (s, to_remove)

  -- One round of the loop over the map.
  unfoldable pub visit : ℕ → State → List ℕ → ScheduledJob → State × List ℕ
  unfolding note
  visit now s to_remove e = if is_due now e then note e to_remove (push s e.job) else (s, to_remove)

  unfoldable pub visit_all : ℕ → State → List ℕ → List ScheduledJob → State × List ℕ
  visit_all now s to_remove [] = (s, to_remove)
  visit_all now s to_remove (e ∷ es) =
      let (s', more) = visit now s to_remove e in visit_all now s' more es

  -- checkScheduledJobs at the time `now`, over the entries in the order of iteration.
  unfoldable pub check_scheduled_jobs : ℕ → State → List ScheduledJob → State × List ScheduledJob
  check_scheduled_jobs now s scheduled =
      let (s', to_remove) = visit_all now s [] scheduled in (s', remove_all to_remove scheduled)
