-- ===== src/Queue/Tests.antt =====
-- Runs of the queues and the scheduler, and the properties at concrete inputs.
use mathlib.Core.List.{Perm}
use mailvault.Base.{
  ℕ, zero, suc, ◌≡◌, refl, Bool, false, List, [], ◌∷◌, ◌++◌, map, none, arith, pos, ◌≤◌, length,
  ◌+◌,
}
use mailvault.Heap.{heap_push, up}
use mailvault.Heap.Laws.{IsHeapOf}
use mailvault.Queue.{mx_record, ValidationJob, JobQueue}
use mailvault.Queue.Priority.{job_less, new_priority_queue, push, pop, pop_from}
use mailvault.Queue.Priority.Laws.{IsValid}
use mailvault.Queue.Priority.History.{
  call_push, call_pop, call_close, run, start, Balanced, history_Balanced,
}
use mailvault.Queue.Memory.{
  memory_run, memory_start, memory_pushes, memory_pops, memory_closes, memory_first_in_first_out,
}
use mailvault.Queue.Email.{EmailSendingJob, retry_job}
use mailvault.Queue.Waiters.{
  Waiters, Reachable, at_start, after, pushing, entering, no_lost_wake_up, push_and_signal, pass,
  signal, signal_from, after_push, after_pass,
}
use mailvault.Queue.Scheduler.{ScheduledJob, check_scheduled_jobs}
use mailvault.Queue.Scheduler.Map.{Keyed}
use mailvault.Queue.Scheduler.Laws.{Sifted, check_scheduled_jobs_correct}
use mailvault.Queue.Interface.{priority_queue}

abbrev job_of : ℕ → ℕ → ℕ → ValidationJob
job_of id priority created_at = record {
  id = id;
  domain_id = 4;
  domain_name = "example.com";
  type = mx_record;
  priority = pos priority;
  created_at = created_at;
  attempts = 0;
  last_error = "";
}

abbrev two_jobs : JobQueue ValidationJob
two_jobs = record { jobs = job_of 1 9 20 ∷ job_of 2 9 30 ∷ []; closed = false; max_size = pos 3 }

two_jobs-IsValid : IsValid two_jobs
unfolding job_less
two_jobs-IsValid = record { heap = heap; bounded = λ m e. ground (arith, e) }
  where
    heap : IsHeapOf job_less two_jobs.jobs
    heap d zero p q = absurd (omega arith)
    heap d (suc zero) p q = refl
    heap d (suc (suc c)) p q = absurd (omega arith)

history_Balanced_example : Balanced (
    run
      (start (pos 1 ∷ []))
      (call_push (job_of 1 9 20) ∷ call_push (job_of 2 9 30) ∷ call_close ∷ call_pop false ∷ []))
history_Balanced_example =
    history_Balanced (pos 1 ∷ [])
      (call_push (job_of 1 9 20) ∷ call_push (job_of 2 9 30) ∷ call_close ∷ call_pop false ∷ [])

memory_first_in_first_out_example :
    let t = memory_run (memory_start (pos 2)) (
      memory_pushes (job_of 1 1 5)
      ∷ memory_pushes (job_of 2 9 6)
      ∷ memory_pops false
      ∷ memory_closes
      ∷ []) in
    t.served ++ t.queue.jobs ≡ t.accepted
memory_first_in_first_out_example = memory_first_in_first_out (pos 2) (
    memory_pushes (job_of 1 1 5)
    ∷ memory_pushes (job_of 2 9 6)
    ∷ memory_pops false
    ∷ memory_closes
    ∷ [])

abbrev email_job : ℕ → ℕ → EmailSendingJob
email_job id scheduled_at = record {
  id = id;
  type = retry_job;
  sent_email_id = 100 + id;
  email_request = none;
  priority = pos 1;
  scheduled_at = scheduled_at;
  attempts = 0;
  max_attempts = pos 3;
  last_attempt_at = 0;
  last_error = "";
  created_at = 0;
}

abbrev email_queue : Bool → JobQueue EmailSendingJob
email_queue closed = record { jobs = email_job 1 20 ∷ []; closed = closed; max_size = pos 10 }

-- Goroutines 7 and 8 fall asleep in Pop, and a push wakes 7.
abbrev one_woken : Waiters
one_woken = record {
  queue = record { jobs = job_of 1 9 20 ∷ []; closed = false; max_size = pos 3 };
  sleepers = 8 ∷ [];
  woken = 7 ∷ [];
}

abbrev empty_queue : Waiters
empty_queue = record {
  queue = record { jobs = []; closed = false; max_size = pos 3 };
  sleepers = [];
  woken = [];
}

abbrev two_asleep : Waiters
two_asleep = record empty_queue { sleepers = 7 ∷ 8 ∷ [] }

two_asleep_reached : Reachable (pos 3 ∷ []) two_asleep
unfolding pass pop pop_from after_pass new_priority_queue
two_asleep_reached = after (after at_start (entering 7 false)) (entering 8 false)

one_woken_reached : Reachable (pos 3 ∷ []) one_woken
unfolding push_and_signal push after_push signal signal_from heap_push up
one_woken_reached = after two_asleep_reached (pushing (job_of 1 9 20))

no_lost_wake_up_example :
    (one_woken.queue.closed ≡ false) × (length one_woken.queue.jobs ≤ length one_woken.woken)
no_lost_wake_up_example = no_lost_wake_up (pos 3 ∷ []) one_woken 8 [] one_woken_reached refl

abbrev scheduled : List ScheduledJob
scheduled =
    record { job = job_of 5 1 0; scheduled_at = 100; retry_count = 0; max_retries = pos 3 }
    ∷ record { job = job_of 6 2 0; scheduled_at = 200; retry_count = 1; max_retries = pos 3 }
    ∷ record { job = job_of 7 3 0; scheduled_at = 50; retry_count = 1; max_retries = pos 3 }
    ∷ []

scheduled-Keyed : Keyed scheduled
scheduled-Keyed = (
  ((λ e. omega (arith, e)), ((λ e. omega (arith, e)), tt)),
  (((λ e. omega (arith, e)), tt), (tt, tt)),
)

-- The bound of three leaves room for one of the two jobs that are due.
check_scheduled_jobs_correct_example :
    let (s', es') = check_scheduled_jobs priority_queue 150 two_jobs scheduled in
    IsValid s'
    × Keyed es'
    × Sifted 150 scheduled es'
    × Perm (s'.jobs ++ map (λ e. e.job) es') (two_jobs.jobs ++ map (λ e. e.job) scheduled)
check_scheduled_jobs_correct_example =
    check_scheduled_jobs_correct priority_queue 150 two_jobs scheduled two_jobs-IsValid
      scheduled-Keyed
