-- ===== src/Queue/Priority/History.antt =====
-- Any sequence of calls on a PriorityQueue: it stays valid, and no job is lost or served twice.
use mathlib.Core.List.{Perm, perm_middle}
use mathlib.Core.List.Perm
use mailvault.Base.{◌≡◌, inl, inr, if_rule, Bool, List, [], ◌∷◌, ◌++◌, Option, none, some, arith, ℤ}
use mailvault.Queue.{ValidationJob, QueueError, JobQueue, Popping, pops, clear, close}
use mailvault.Queue.Priority.{push, dequeue, pop, new_priority_queue}
use mailvault.Queue.Priority.Laws.{
  IsValid, Pushed, refused_closed, refused_full, added, push_correct, new_priority_queue-IsValid,
  Taken, dequeue_correct, Passed, job_taken, shut_down, timed_out, waiting, pop_correct,
}

pub data Call : Type 0 where
  call_push : ValidationJob → Call
  call_dequeue : Call
  call_pop : Bool → Call
  call_clear : Call
  call_close : Call

-- The queue, the jobs that pushes accepted, and the jobs that left it, latest first.
pub record Trace : Type 0 where
  pub queue : JobQueue ValidationJob
  pub accepted : List ValidationJob
  pub gone : List ValidationJob

accept : Trace → ValidationJob → JobQueue ValidationJob × Option QueueError → Trace
accept t job (q, none) = record t { queue = q; accepted = job ∷ t.accepted }
accept t job (q, some e) = record t { queue = q }

serve : Trace → JobQueue ValidationJob × Option ValidationJob → Trace
serve t (q, none) = record t { queue = q }
serve t (q, some job) = record t { queue = q; gone = job ∷ t.gone }

serve_pop : Trace → Popping ValidationJob → Trace
serve_pop t (pops job q) = record t { queue = q; gone = job ∷ t.gone }
serve_pop t _ = t

pub step : Trace → Call → Trace
unfolding accept serve serve_pop
step t (call_push job) = accept t job (push t.queue job)
step t call_dequeue = serve t (dequeue t.queue)
step t (call_pop done) = serve_pop t (pop t.queue done)
step t call_clear = record t { queue = clear t.queue; gone = t.queue.jobs ++ t.gone }
step t call_close = record t { queue = close t.queue }

pub run : Trace → List Call → Trace
run t [] = t
run t (c ∷ cs) = run (step t c) cs

-- The queue is valid, and the jobs accepted are those in it and those that left it.
pub record Balanced (t : Trace) : Type 0 where
  pub valid : IsValid t.queue
  pub balance : Perm (t.queue.jobs ++ t.gone) t.accepted

accept-Balanced :
    (t : Trace) (job : ValidationJob)
    → Balanced t
    → (r : JobQueue ValidationJob × Option QueueError) → Pushed t.queue job r
    → IsValid r.0
    → Balanced (accept t job r)
unfolding accept
accept-Balanced t job b _ (refused_closed shut) v = record { valid = v; balance = b.balance }
accept-Balanced t job b _ (refused_full opened full) v = record { valid = v; balance = b.balance }
accept-Balanced t job b _ (added r opened room perm) v = record {
  valid = v;
  balance = Perm.trans (Perm.append perm (Perm.refl t.gone)) (Perm.cons job b.balance);
}

-- The job taken moves from the queue to those that left it.
moved :
    {t : Trace} {job : ValidationJob} {r : JobQueue ValidationJob}
    → Balanced t
    → Taken t.queue job r
    → Perm (r.jobs ++ job ∷ t.gone) t.accepted
moved {t} {job} {r} b k =
    Perm.trans (perm_middle r.jobs t.gone)
      (Perm.trans (Perm.append k.same (Perm.refl t.gone)) b.balance)

serve-Balanced : (t : Trace) → Balanced t → Balanced (serve t (dequeue t.queue))
unfolding serve
serve-Balanced t b = elim (dequeue_correct t.queue b.valid) [
  | inl (none_left, e) ↦ rw e b
  | inr (job, r, e, k) ↦ rw e (record { valid = k.valid; balance = moved b k })
]

serve_pop-Balanced :
    (t : Trace) (done : Bool)
    → Balanced t
    → (r : Popping ValidationJob) → Passed t.queue done r
    → Balanced (serve_pop t r)
unfolding serve_pop
serve_pop-Balanced t done b _ (job_taken job r k) = record { valid = k.valid; balance = moved b k }
serve_pop-Balanced t done b _ (shut_down e f) = b
serve_pop-Balanced t done b _ (timed_out e f g) = b
serve_pop-Balanced t done b _ (waiting e f g) = b

pub close-IsValid : (q : JobQueue ValidationJob) → IsValid q → IsValid (close q)
unfolding close
close-IsValid q v =
    if_rule IsValid q.closed (λ _. v) (λ _. record { heap = v.heap; bounded = v.bounded })

close_jobs : (q : JobQueue ValidationJob) → (close q).jobs ≡ q.jobs
unfolding close
close_jobs q = ground arith

step-Balanced : (t : Trace) (c : Call) → Balanced t → Balanced (step t c)
unfolding step clear
step-Balanced t (call_push job) b =
    let (p, v) = push_correct t.queue job b.valid in accept-Balanced t job b (push t.queue job) p v
step-Balanced t call_dequeue b = serve-Balanced t b
step-Balanced t (call_pop done) b =
    serve_pop-Balanced t done b (pop t.queue done) (pop_correct t.queue done b.valid)
step-Balanced t call_clear b = record {
  valid = record { heap = λ d c p q. absurd (omega arith); bounded = λ m e. omega arith };
  balance = b.balance;
}
step-Balanced t call_close b = record {
  valid = close-IsValid t.queue b.valid;
  balance = rw close_jobs b.balance;
}

run-Balanced : (t : Trace) (cs : List Call) → Balanced t → Balanced (run t cs)
unfolding run
run-Balanced t [] b = b
run-Balanced t (c ∷ cs) b = run-Balanced (step t c) cs (step-Balanced t c b)

pub start : List ℤ → Trace
start sizes = record { queue = new_priority_queue sizes; accepted = []; gone = [] }

-- After any calls on a new queue, in any order, the jobs form a heap within the bound, and the jobs
-- that pushes accepted are those still queued and those that left, each as often.
pub history_Balanced : (sizes : List ℤ) (cs : List Call) → Balanced (run (start sizes) cs)
unfolding start new_priority_queue
history_Balanced sizes cs =
    run-Balanced _ cs
      (record { valid = new_priority_queue-IsValid sizes; balance = new_balance sizes })
  where
    new_balance : (sizes : List ℤ) → Perm ((new_priority_queue sizes).jobs ++ []) []
    new_balance [] = Perm.refl []
    new_balance (m ∷ rest) = Perm.refl []
