-- ===== src/Queue/Priority/Laws.antt =====
-- What the operations of PriorityQueue do to the jobs that it holds.
use mathlib.Core.List.{Perm}
use mailvault.Base.{
  ℕ, suc, ◌≤◌, ◌≡◌, refl, ◌⊎◌, inl, inr, Bool, true, false, List, [], ◌∷◌, Option, none, some,
  arith, length, length-perm, All, ℤ, pos, if_rule, ap,
}
use mailvault.Heap.{heap_push, heap_pop}
use mailvault.Heap.Order.{IsOrder}
use mailvault.Heap.Laws.{IsHeapOf, heap_push_correct, heap_pop_correct}
use mailvault.Queue.{
  ValidationJob, QueueError, queue_closed, queue_full, JobQueue, is_full, Popping, sleeps,
  cancelled, fails, pops,
}
use mailvault.Queue.Priority.{new_priority_queue, job_less, push, dequeue, pop, pop_from}

-- Less orders the jobs: by priority, and by age among equal ones.
pub job_less-IsOrder : IsOrder job_less
unfolding job_less
job_less-IsOrder = record { asym = λ x y h. ground arith; through = λ x y z h k. ground arith }

-- The jobs form a heap, and a bound on their number that is positive is kept.
pub record IsValid (q : JobQueue ValidationJob) : Type 0 where
  pub heap : IsHeapOf job_less q.jobs
  pub bounded : (m : ℕ) → q.max_size ≡ pos (suc m) → length q.jobs ≤ suc m

pub new_priority_queue-IsValid : (sizes : List ℤ) → IsValid (new_priority_queue sizes)
unfolding new_priority_queue
new_priority_queue-IsValid [] = record {
  heap = λ d c p q. absurd (omega arith);
  bounded = λ m e. omega arith;
}
new_priority_queue-IsValid (m ∷ rest) = record {
  heap = λ d c p q. absurd (omega arith);
  bounded = λ m e. omega arith;
}

-- What a push does, whichever branch it takes.
pub data Pushed (q : JobQueue ValidationJob) (job : ValidationJob)
    : JobQueue ValidationJob × Option QueueError → Type 0 where
  refused_closed : q.closed ≡ true → Pushed q job (q, some queue_closed)
  refused_full :
      q.closed ≡ false
      → is_full q.max_size (length q.jobs) ≡ true
      → Pushed q job (q, some queue_full)
  added :
      (r : List ValidationJob)
      → q.closed ≡ false
      → is_full q.max_size (length q.jobs) ≡ false
      → Perm r (job ∷ q.jobs)
      → Pushed q job (record q { jobs = r }, none)

-- A push on a valid queue fails and changes nothing when the queue is closed or, failing that, full;
-- else it adds exactly the job. In every case the queue stays valid.
pub push_correct :
    (q : JobQueue ValidationJob) (job : ValidationJob)
    → IsValid q
    → Pushed q job (push q job) × IsValid (push q job).0
unfolding push
push_correct q job v =
    if_rule P q.closed (λ shut. (refused_closed shut, v))
      λ opened.
        if_rule P (is_full q.max_size (length q.jobs)) (λ full. (refused_full opened full, v))
          λ room.
            let (heap, perm) = heap_push_correct job_less job_less-IsOrder q.jobs job v.heap in
            (
              added (heap_push job_less q.jobs job) opened room perm,
              record { heap = heap; bounded = λ m e. ground (arith, length-perm perm) },
            )
  where
    P : JobQueue ValidationJob × Option QueueError → Type 0
    P r = Pushed q job r × IsValid r.0

-- The queue that a pop leaves: the job popped and the jobs left are the jobs before, no job before
-- comes ahead of the one popped, and nothing else changes.
pub record Taken (q : JobQueue ValidationJob) (job : ValidationJob) (r : JobQueue ValidationJob)
    : Type 0 where
  pub same : Perm (job ∷ r.jobs) q.jobs
  pub first : All (λ other. job_less other job ≡ false) q.jobs
  pub still : (r.closed ≡ q.closed) × (r.max_size ≡ q.max_size)
  pub valid : IsValid r

taken :
    (q : JobQueue ValidationJob) (x : ValidationJob) (xs : List ValidationJob)
    → q.jobs ≡ x ∷ xs
    → IsValid q
    → Taken q (heap_pop job_less x xs).0 (record q { jobs = (heap_pop job_less x xs).1 })
taken q x xs e v =
    let p = heap_pop_correct job_less job_less-IsOrder x xs (rw e at v.heap) in
    record {
      same = rw e p.same;
      first = rw e p.first;
      still = (refl, refl);
      valid = record {
        heap = p.heap;
        bounded = λ m b. omega (arith, ap length e, length-perm p.same, v.bounded m b);
      };
    }

-- A Dequeue from a valid queue gives nothing exactly when there is no job, and then changes nothing;
-- else it gives the job that no other comes before, and keeps the others.
pub dequeue_correct :
    (q : JobQueue ValidationJob)
    → IsValid q
    → ((q.jobs ≡ []) × (dequeue q ≡ (q, none)))
      ⊎ ((job : ValidationJob) × (r : JobQueue ValidationJob) × (dequeue q ≡ (r, some job))
          × Taken q job r)
unfolding dequeue
dequeue_correct q v = go q.jobs refl
  where
    go :
        (js : List ValidationJob)
        → q.jobs ≡ js
        → ((q.jobs ≡ []) × (dequeue q ≡ (q, none)))
          ⊎ ((job : ValidationJob) × (r : JobQueue ValidationJob) × (dequeue q ≡ (r, some job))
              × Taken q job r)
    go [] e = inl (e, rw (e, dequeue))
    go (x ∷ xs) e = inr (_, _, rw (e, dequeue), taken q x xs e v)

-- How one pass of Pop ends.
pub data Passed (q : JobQueue ValidationJob) (done : Bool) : Popping ValidationJob → Type 0 where
  job_taken :
      (job : ValidationJob) (r : JobQueue ValidationJob)
      → Taken q job r
      → Passed q done (pops job r)
  shut_down : q.jobs ≡ [] → q.closed ≡ true → Passed q done (fails queue_closed)
  timed_out : q.jobs ≡ [] → q.closed ≡ false → done ≡ true → Passed q done cancelled
  waiting : q.jobs ≡ [] → q.closed ≡ false → done ≡ false → Passed q done sleeps

-- A pass of Pop takes the first job if there is one, also from a closed queue and when the context
-- is done; without a job it reports the closed queue, then the context, and else it sleeps.
pub pop_correct :
    (q : JobQueue ValidationJob) (done : Bool) → IsValid q → Passed q done (pop q done)
unfolding pop
pop_correct q done v = go q.jobs refl
  where
    go : (js : List ValidationJob) → q.jobs ≡ js → Passed q done (pop_from q js done)
    go [] e =
        if_rule (Passed q done) q.closed (shut_down e)
          λ opened. if_rule (Passed q done) done (timed_out e opened) (waiting e opened)
    go (x ∷ xs) e = job_taken _ _ (taken q x xs e v)
