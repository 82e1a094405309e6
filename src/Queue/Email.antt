-- ===== src/Queue/Email.antt =====
-- EmailPriorityQueue of app/worker/email_queue.go and the jobs of app/worker/email_sender_worker.go.
pub mod Laws
use Prim.Native.String.{String}
use mailvault.Base.{
  ℕ, Bool, true, false, ◌&&◌, not, List, [], ◌∷◌, Option, none, some, ltb, ◌==◌, if◌then◌else◌,
  length, ℤ, pos, z_ltb, z_eqb,
}
use mailvault.Heap.{heap_push, heap_pop}
use mailvault.Sending.UseCase.{SendEmailRequest}
use mailvault.Queue.{
  QueueError, queue_closed, queue_full, queue_empty, JobQueue, is_full, Popping, sleeps, cancelled,
  fails, pops,
}

-- An EmailJobType is a string: one of the two constants, or any other text.
pub data EmailJobType : Type 0 where
  send_job retry_job : EmailJobType
  other_job : String → EmailJobType

pub record EmailSendingJob : Type 0 where
  pub id : ℕ
  pub type : EmailJobType
  pub sent_email_id : ℕ
  pub email_request : Option SendEmailRequest
  pub priority : ℤ
  pub scheduled_at : ℕ
  pub attempts : ℕ
  pub max_attempts : ℤ
  pub last_attempt_at : ℕ
  pub last_error : String
  pub created_at : ℕ

-- emailJobQueue.Less on the two entries: a higher priority first, then the earlier schedule.
unfoldable pub email_less : EmailSendingJob → EmailSendingJob → Bool
email_less a b =
    if not (z_eqb a.priority b.priority)
    then z_ltb b.priority a.priority
    else ltb a.scheduled_at b.scheduled_at

unfoldable pub new_email_queue : ℤ → JobQueue EmailSendingJob
new_email_queue m = record { jobs = []; closed = false; max_size = m }

unfoldable pub email_push :
    JobQueue EmailSendingJob → EmailSendingJob → JobQueue EmailSendingJob × Option QueueError
email_push q job =
    if q.closed
    then (q, some queue_closed)
    else if is_full q.max_size (length q.jobs)
    then (q, some queue_full)
    else (record q { jobs = heap_push email_less q.jobs job }, none)

-- Past the loop: a closed queue first, then an empty one.
unfoldable pub email_pop_open :
    JobQueue EmailSendingJob → List EmailSendingJob → Popping EmailSendingJob
email_pop_open q [] = fails queue_empty
email_pop_open q (x ∷ xs) =
    let (job, rest) = heap_pop email_less x xs in pops job (record q { jobs = rest })

-- One pass of Pop under the lock; PopWithTimeout is Pop with a context of its own.
unfoldable pub email_pop : JobQueue EmailSendingJob → Bool → Popping EmailSendingJob
unfolding email_pop_open
email_pop q done =
    if length q.jobs == 0 && not q.closed
    then (if done then cancelled else sleeps)
    else if q.closed
    then fails queue_closed
    else email_pop_open q q.jobs
