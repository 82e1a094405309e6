-- ===== src/Queue/Memory.antt =====
-- InMemoryQueue of app/worker/queue.go, and that it serves in the order of arrival.
use mathlib.Core.List.{append_assoc}
use mailvault.Base.{
  ◌≡◌, refl, sym, ◌∙◌, ap, Bool, false, List, [], ◌∷◌, ◌++◌, Option, none, some, if◌then◌else◌,
  if_rule, length, ℤ,
}
use mailvault.Queue.{
  ValidationJob, QueueError, queue_closed, queue_full, JobQueue, is_full, Popping, sleeps,
  cancelled, fails, pops, close,
}

unfoldable pub new_in_memory_queue : ℤ → JobQueue ValidationJob
new_in_memory_queue m = record { jobs = []; closed = false; max_size = m }

unfoldable pub memory_push :
    JobQueue ValidationJob → ValidationJob → JobQueue ValidationJob × Option QueueError
memory_push q job =
    if q.closed
    then (q, some queue_closed)
    else if is_full q.max_size (length q.jobs)
    then (q, some queue_full)
    else (record q { jobs = q.jobs ++ job ∷ [] }, none)

memory_pop_from : JobQueue ValidationJob → List ValidationJob → Bool → Popping ValidationJob
memory_pop_from q [] done =
    if q.closed then fails queue_closed else if done then cancelled else sleeps
memory_pop_from q (job ∷ rest) done = pops job (record q { jobs = rest })

-- One pass of Pop under the lock.
unfoldable pub memory_pop : JobQueue ValidationJob → Bool → Popping ValidationJob
unfolding memory_pop_from
memory_pop q done = memory_pop_from q q.jobs done

pub data MemoryCall : Type 0 where
  memory_pushes : ValidationJob → MemoryCall
  memory_pops : Bool → MemoryCall
  memory_closes : MemoryCall

-- The queue, the jobs accepted and the jobs served, in their order.
pub record MemoryTrace : Type 0 where
  pub queue : JobQueue ValidationJob
  pub accepted : List ValidationJob
  pub served : List ValidationJob

accept : MemoryTrace → ValidationJob → JobQueue ValidationJob × Option QueueError → MemoryTrace
accept t job (q, none) = record t { queue = q; accepted = t.accepted ++ job ∷ [] }
accept t job (q, some e) = record t { queue = q }

serve : MemoryTrace → Popping ValidationJob → MemoryTrace
serve t (pops job q) = record t { queue = q; served = t.served ++ job ∷ [] }
serve t _ = t

memory_step : MemoryTrace → MemoryCall → MemoryTrace
unfolding accept serve
memory_step t (memory_pushes job) = accept t job (memory_push t.queue job)
memory_step t (memory_pops done) = serve t (memory_pop t.queue done)
memory_step t memory_closes = record t { queue = close t.queue }

pub memory_run : MemoryTrace → List MemoryCall → MemoryTrace
memory_run t [] = t
memory_run t (c ∷ cs) = memory_run (memory_step t c) cs

pub memory_start : ℤ → MemoryTrace
memory_start m = record { queue = new_in_memory_queue m; accepted = []; served = [] }

abbrev InOrder : MemoryTrace → Type 0
InOrder t = t.served ++ t.queue.jobs ≡ t.accepted

accept-InOrder :
    (t : MemoryTrace) (job : ValidationJob)
    → InOrder t
    → InOrder (accept t job (memory_push t.queue job))
unfolding accept memory_push
accept-InOrder t job o =
    if_rule (λ r. InOrder (accept t job r)) t.queue.closed (λ _. o)
      λ _.
        if_rule (λ r. InOrder (accept t job r)) (is_full t.queue.max_size (length t.queue.jobs))
          (λ _. o)
          (λ _. sym (append_assoc t.served t.queue.jobs (job ∷ [])) ∙ ap (λ l. l ++ job ∷ []) o)

serve-InOrder :
    (t : MemoryTrace) (done : Bool)
    → InOrder t
    → (js : List ValidationJob) → t.queue.jobs ≡ js
    → InOrder (serve t (memory_pop_from t.queue js done))
unfolding serve memory_pop_from
serve-InOrder t done o [] e =
    if_rule (λ r. InOrder (serve t r)) t.queue.closed (λ _. o)
      λ _. if_rule (λ r. InOrder (serve t r)) done (λ _. o) (λ _. o)
serve-InOrder t done o (job ∷ rest) e = append_assoc t.served (job ∷ []) rest ∙ (rw (← e) o)

step-InOrder : (t : MemoryTrace) (c : MemoryCall) → InOrder t → InOrder (memory_step t c)
unfolding memory_step memory_pop close
step-InOrder t (memory_pushes job) o = accept-InOrder t job o
step-InOrder t (memory_pops done) o = serve-InOrder t done o t.queue.jobs refl
step-InOrder t memory_closes o =
    if_rule (λ (q : JobQueue ValidationJob). t.served ++ q.jobs ≡ t.accepted) t.queue.closed
      (λ _. o) (λ _. o)

run-InOrder : (t : MemoryTrace) (cs : List MemoryCall) → InOrder t → InOrder (memory_run t cs)
unfolding memory_run
run-InOrder t [] o = o
run-InOrder t (c ∷ cs) o = run-InOrder (memory_step t c) cs (step-InOrder t c o)

-- After any pushes, pops and closings of a new queue, the jobs served followed by those queued are
-- the jobs accepted, in the order in which they came.
pub memory_first_in_first_out :
    (m : ℤ) (cs : List MemoryCall)
    → let t = memory_run (memory_start m) cs in t.served ++ t.queue.jobs ≡ t.accepted
unfolding memory_start new_in_memory_queue
memory_first_in_first_out m cs = run-InOrder _ cs refl
