-- ===== src/Queue/Priority.antt =====
-- PriorityQueue of app/worker/queue.go.
pub mod Laws
pub mod History
use mailvault.Base.{
  ℕ, Bool, true, false, ◌&&◌, not, List, [], ◌∷◌, Option, none, some, ltb, ◌==◌, if◌then◌else◌,
  length, ℤ, pos, z_ltb, z_eqb,
}
use mailvault.Heap.{heap_push, heap_pop}
use mailvault.Queue.{
  ValidationJob, QueueError, queue_closed, queue_full, JobQueue, is_full, Popping, sleeps,
  cancelled, fails, pops,
}

-- jobQueue.Less on the two entries: a higher priority first, then the older job.
unfoldable pub job_less : ValidationJob → ValidationJob → Bool
job_less a b =
    if not (z_eqb a.priority b.priority)
    then z_ltb b.priority a.priority
    else ltb a.created_at b.created_at

-- NewPriorityQueue: the first of the optional sizes, or 0.
unfoldable pub new_priority_queue : List ℤ → JobQueue ValidationJob
new_priority_queue [] = record { jobs = []; closed = false; max_size = pos 0 }
new_priority_queue (m ∷ rest) = record { jobs = []; closed = false; max_size = m }

unfoldable pub push :
    JobQueue ValidationJob → ValidationJob → JobQueue ValidationJob × Option QueueError
push q job =
    if q.closed
    then (q, some queue_closed)
    else if is_full q.max_size (length q.jobs)
    then (q, some queue_full)
    else (record q { jobs = heap_push job_less q.jobs job }, none)

-- Enqueue drops the error.
unfoldable pub enqueue : JobQueue ValidationJob → ValidationJob → JobQueue ValidationJob
enqueue q job = (push q job).0

dequeue_from :
    JobQueue ValidationJob → List ValidationJob → JobQueue ValidationJob × Option ValidationJob
dequeue_from q [] = (q, none)
dequeue_from q (x ∷ xs) =
    let (job, rest) = heap_pop job_less x xs in (record q { jobs = rest }, some job)

unfoldable pub dequeue : JobQueue ValidationJob → JobQueue ValidationJob × Option ValidationJob
unfolding dequeue_from
dequeue q = dequeue_from q q.jobs

unfoldable pub pop_from : JobQueue ValidationJob → List ValidationJob → Bool → Popping ValidationJob
pop_from q [] done = if q.closed then fails queue_closed else if done then cancelled else sleeps
pop_from q (x ∷ xs) done =
    let (job, rest) = heap_pop job_less x xs in pops job (record q { jobs = rest })

-- One pass of Pop under the lock; `done` says whether the context is done by then.
unfoldable pub pop : JobQueue ValidationJob → Bool → Popping ValidationJob
unfolding pop_from
pop q done = pop_from q q.jobs done
