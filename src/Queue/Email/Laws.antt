-- ===== src/Queue/Email/Laws.antt =====
-- What the operations of EmailPriorityQueue do to the jobs that it holds.
use mathlib.Core.List.{Perm}
use mailvault.Base.{
  ◌≡◌, ◌≢◌, refl, ◌⊎◌, inl, inr, Bool, true, false, ◌&&◌, not, List, [], ◌∷◌, Option, none, arith,
  ◌==◌, if_rule, length, All, ap,
}
use mailvault.Heap.Order.{IsOrder}
use mailvault.Heap.Laws.{IsHeapOf, heap_push_correct, heap_pop_correct}
use mailvault.Queue.{
  QueueError, queue_closed, JobQueue, is_full, Popping, sleeps, cancelled, fails, pops,
}
use mailvault.Queue.Email.{EmailSendingJob, email_less, email_push, email_pop, email_pop_open}

pub email_less-IsOrder : IsOrder email_less
unfolding email_less
email_less-IsOrder = record { asym = λ x y h. ground arith; through = λ x y z h k. ground arith }

-- How one pass of Pop ends on an email queue.
pub data EmailPassed (q : JobQueue EmailSendingJob) (done : Bool)
    : Popping EmailSendingJob → Type 0 where
  email_taken :
      (job : EmailSendingJob) (rest : List EmailSendingJob)
      → q.closed ≡ false
      → Perm (job ∷ rest) q.jobs
      → All (λ other. email_less other job ≡ false) q.jobs
      → IsHeapOf email_less rest
      → EmailPassed q done (pops job (record q { jobs = rest }))
  email_shut : q.closed ≡ true → EmailPassed q done (fails queue_closed)
  email_timed_out : q.jobs ≡ [] → q.closed ≡ false → done ≡ true → EmailPassed q done cancelled
  email_waiting : q.jobs ≡ [] → q.closed ≡ false → done ≡ false → EmailPassed q done sleeps

nil_of_length : (l : List EmailSendingJob) → length l ≡ 0 → l ≡ []
nil_of_length [] h = refl
nil_of_length (x ∷ l) h = absurd (omega arith)

-- A pass of Pop on a closed email queue fails, whatever it holds: unlike the validation queue it does
-- not hand out the jobs left. On an open one it takes the first job, or else minds the context, and
-- else sleeps; it never answers ErrEmailQueueEmpty.
pub email_pop_correct :
    (q : JobQueue EmailSendingJob) (done : Bool)
    → IsHeapOf email_less q.jobs
    → EmailPassed q done (email_pop q done)
unfolding email_pop
email_pop_correct q done h =
    if_rule (EmailPassed q done) (length q.jobs == 0 && not q.closed)
      (λ e.
        let none_left : q.jobs ≡ [] = nil_of_length q.jobs (ground arith) in
        let opened : q.closed ≡ false = ground arith in
        if_rule (EmailPassed q done) done (email_timed_out none_left opened)
          (email_waiting none_left opened))
      (λ e. if_rule (EmailPassed q done) q.closed email_shut (λ opened. go q.jobs refl e opened))
  where
    go :
        (js : List EmailSendingJob)
        → q.jobs ≡ js
        → (length q.jobs == 0 && not q.closed) ≡ false
        → q.closed ≡ false
        → EmailPassed q done (email_pop_open q js)
    go [] e f opened = absurd (ground (arith, ap length e))
    go (x ∷ xs) e f opened =
        let p = heap_pop_correct email_less email_less-IsOrder x xs (rw e at h) in
        email_taken _ _ opened (rw e p.same) (rw e p.first) p.heap

-- A push keeps the heap; it adds exactly the job, or fails and changes nothing.
pub email_push_correct :
    (q : JobQueue EmailSendingJob) (job : EmailSendingJob)
    → IsHeapOf email_less q.jobs
    → IsHeapOf email_less (email_push q job).0.jobs
      × ((((email_push q job).1 ≡ none)
            × (q.closed ≡ false)
            × Perm (email_push q job).0.jobs (job ∷ q.jobs))
          ⊎ (((email_push q job).1 ≢ none) × ((email_push q job).0 ≡ q)))
unfolding email_push
email_push_correct q job h =
    if_rule P q.closed (λ _. (h, inr ((λ e. cc), refl)))
      λ opened.
        if_rule P (is_full q.max_size (length q.jobs)) (λ _. (h, inr ((λ e. cc), refl)))
          λ _.
            let (heap, perm) = heap_push_correct email_less email_less-IsOrder q.jobs job h in
            (heap, inl (refl, opened, perm))
  where
    P : JobQueue EmailSendingJob × Option QueueError → Type 0
    P r =
        IsHeapOf email_less r.0.jobs
        × (((r.1 ≡ none) × (q.closed ≡ false) × Perm r.0.jobs (job ∷ q.jobs))
            ⊎ ((r.1 ≢ none) × (r.0 ≡ q)))
