-- ===== src/Queue/Interface.antt =====
-- The two queues of app/worker/queue.go as queues that the scheduler can use.
use mathlib.Core.List.{Perm}
use mailvault.Base.{◌≡◌, refl, List, ◌∷◌, Option, none, some, arith, if_rule, length, snoc-perm}
use mailvault.Queue.{ValidationJob, QueueError, queue_closed, queue_full, JobQueue, is_full}
use mailvault.Queue.Priority.{push}
use mailvault.Queue.Priority.Laws.{
  IsValid, Pushed, push_correct, refused_closed, refused_full, added,
}
use mailvault.Queue.Memory.{memory_push}
use mailvault.Queue.Scheduler.{Queue}

-- What the two cases of a result say of the jobs queued.
abbrev pub Told :
    List ValidationJob → ValidationJob → JobQueue ValidationJob × Option QueueError → Type 0
Told js job r =
    (r.1 ≡ none → Perm r.0.jobs (job ∷ js)) × ((e : QueueError) → r.1 ≡ some e → r.0.jobs ≡ js)

pub Pushed-Told :
    (q : JobQueue ValidationJob) (job : ValidationJob)
    (r : JobQueue ValidationJob × Option QueueError)
    → Pushed q job r
    → Told q.jobs job r
Pushed-Told q job _ (refused_closed shut) = (λ e. absurd (ground (arith, e)), λ err e. refl)
Pushed-Told q job _ (refused_full opened full) = (λ e. absurd (ground (arith, e)), λ err e. refl)
Pushed-Told q job _ (added r opened room p) = (λ e. p, λ err e. absurd (ground (arith, e)))

pub memory_push-Told :
    (q : JobQueue ValidationJob) (job : ValidationJob) → Told q.jobs job (memory_push q job)
unfolding memory_push
memory_push-Told q job =
    if_rule (Told q.jobs job) q.closed (λ _. refused queue_closed)
      λ _.
        if_rule (Told q.jobs job) (is_full q.max_size (length q.jobs)) (λ _. refused queue_full)
          λ _. (λ e. snoc-perm q.jobs job, λ err e. absurd (ground (arith, e)))
  where
    refused : (err : QueueError) → Told q.jobs job (q, some err)
    refused err = (λ e. absurd (ground (arith, e)), λ err e. refl)

abbrev pub priority_queue : Queue
priority_queue = record {
  State = JobQueue ValidationJob;
  Good = IsValid;
  contents = λ q. q.jobs;
  push = push;
  push-Good = λ q job v. (push_correct q job v).1;
  push_added = λ q job v. (Pushed-Told q job (push q job) (push_correct q job v).0).0;
  push_refused = λ q job e v. (Pushed-Told q job (push q job) (push_correct q job v).0).1 e;
}

abbrev pub in_memory_queue : Queue
in_memory_queue = record {
  State = JobQueue ValidationJob;
  Good = λ q. Unit;
  contents = λ q. q.jobs;
  push = memory_push;
  push-Good = λ q job v. tt;
  push_added = λ q job v. (memory_push-Told q job).0;
  push_refused = λ q job e v. (memory_push-Told q job).1 e;
}
