-- ===== src/Queue/Waiters.antt =====
-- The goroutines that wait in Pop of PriorityQueue (app/worker/queue.go): the condition variable
-- pq.cond, whose sleepers Push signals and Close wakes.
use mathlib.Core.List.{append_assoc, append-nil}
use mailvault.Base.{
  ℕ, suc, ◌≤◌, ◌≡◌, refl, sym, ◌∙◌, ap, ◌⊎◌, inl, inr, Bool, true, false, List, [], ◌∷◌, ◌++◌,
  Option, none, some, arith, if◌then◌else◌, if_rule, length, length-append, length-perm, ℤ,
}
use mailvault.Queue.{
  ValidationJob, QueueError, JobQueue, Popping, sleeps, cancelled, fails, pops, clear, close,
}
use mailvault.Queue.Priority.{push, dequeue, pop, new_priority_queue}
use mailvault.Queue.Priority.Laws.{
  IsValid, Pushed, refused_closed, refused_full, added, push_correct, new_priority_queue-IsValid,
  dequeue_correct, Passed, job_taken, shut_down, timed_out, waiting, pop_correct,
}
use mailvault.Queue.Priority.History.{close-IsValid}

-- The queue, the goroutines asleep in cond.Wait, the longest asleep first, and those that were woken
-- and wait for the lock.
pub record Waiters : Type 0 where
  pub queue : JobQueue ValidationJob
  pub sleepers : List ℕ
  pub woken : List ℕ

-- cond.Signal
unfoldable pub signal_from : Waiters → List ℕ → Waiters
signal_from w [] = w
signal_from w (g ∷ gs) = record w { sleepers = gs; woken = w.woken ++ g ∷ [] }

unfoldable pub signal : Waiters → Waiters
unfolding signal_from
signal w = signal_from w w.sleepers

-- cond.Broadcast
unfoldable pub broadcast : Waiters → Waiters
broadcast w = record w { sleepers = []; woken = w.woken ++ w.sleepers }

unfoldable pub after_push : Waiters → JobQueue ValidationJob × Option QueueError → Waiters
after_push w (q, none) = signal (record w { queue = q })
after_push w (q, some e) = record w { queue = q }

unfoldable pub push_and_signal : Waiters → ValidationJob → Waiters
unfolding after_push
push_and_signal w job = after_push w (push w.queue job)

unfoldable pub close_and_broadcast : Waiters → Waiters
close_and_broadcast w = if w.queue.closed then w else broadcast (record w { queue = close w.queue })

unfoldable pub after_pass : Waiters → ℕ → Popping ValidationJob → Waiters
after_pass w g sleeps = record w { sleepers = w.sleepers ++ g ∷ [] }
after_pass w g (pops job q) = record w { queue = q }
after_pass w g (fails e) = w
after_pass w g cancelled = w

-- The goroutine g has the lock in Pop and runs the loop up to its next Wait or its return.
unfoldable pub pass : Waiters → ℕ → Bool → Waiters
unfolding after_pass
pass w g done = after_pass w g (pop w.queue done)

-- What can happen next: the calls, and a woken goroutine that gets the lock back. `is_call` tells
-- the two that wake goroutines apart, `true`, from the others.
pub data Step (w : Waiters) : Bool → Waiters → Type 0 where
  pushing : (job : ValidationJob) → Step w true (push_and_signal w job)
  closing : Step w true (close_and_broadcast w)
  entering : (g : ℕ) (done : Bool) → Step w false (pass w g done)
  resuming :
      (before : List ℕ) (g : ℕ) (later : List ℕ) (done : Bool)
      → w.woken ≡ before ++ g ∷ later
      → Step w false (pass (record w { woken = before ++ later }) g done)
  dequeuing : Step w false (record w { queue = (dequeue w.queue).0 })
  clearing : Step w false (record w { queue = clear w.queue })

pub data Reachable (max_size : List ℤ) : Waiters → Type 0 where
  at_start :
      Reachable max_size (record { queue = new_priority_queue max_size; sleepers = []; woken = [] })
  after : {w w' : Waiters} {b : Bool} → Reachable max_size w → Step w b w' → Reachable max_size w'

-- While a goroutine sleeps the queue is open and each job has a woken goroutine that comes for it.
abbrev Attended : Waiters → Type 0
Attended w = (w.sleepers ≡ []) ⊎ ((w.queue.closed ≡ false) × (length w.queue.jobs ≤ length w.woken))

abbrev Sound : Waiters → Type 0
Sound w = IsValid w.queue × Attended w

signal-Sound :
    (w : Waiters) (q : JobQueue ValidationJob) (gs : List ℕ)
    → w.sleepers ≡ gs
    → IsValid q
    → q.closed ≡ false
    → (w.sleepers ≡ []) ⊎ (length q.jobs ≤ suc (length w.woken))
    → Sound (signal_from (record w { queue = q }) gs)
unfolding signal_from
signal-Sound w q [] e v o a = (v, inl e)
signal-Sound w q (g ∷ gs) e v o (inl none_asleep) =
    absurd (ground (arith, ap length e, ap length none_asleep))
signal-Sound w q (g ∷ gs) e v o (inr l) =
    (v, inr (o, omega (arith, l, length-append w.woken (g ∷ []))))

push-Sound : (w : Waiters) (job : ValidationJob) → Sound w → Sound (push_and_signal w job)
unfolding push_and_signal signal
push-Sound w job (v, a) = let (p, v') = push_correct w.queue job v in go (push w.queue job) p v'
  where
    go :
        (r : JobQueue ValidationJob × Option QueueError)
        → Pushed w.queue job r
        → IsValid r.0
        → Sound (after_push w r)
    go _ (refused_closed shut) v' = (v', a)
    go _ (refused_full opened full) v' = (v', a)
    go _ (added js opened room perm) v' =
        signal-Sound w (record w.queue { jobs = js }) w.sleepers refl v' opened
          (elim a [ inl e ↦ inl e | inr (o, l) ↦ inr (omega (arith, l, length-perm perm)) ])

close-Sound : (w : Waiters) → Sound w → Sound (close_and_broadcast w)
unfolding close_and_broadcast broadcast
close-Sound w (v, a) =
    if_rule Sound w.queue.closed (λ _. (v, a)) (λ _. (close-IsValid w.queue v, inl refl))

-- A pass keeps the invariant, also when it lets go of one woken goroutine: there may be one job more
-- than woken goroutines.
pass-Sound :
    (w : Waiters) (g : ℕ) (done : Bool)
    → IsValid w.queue
    → (w.sleepers ≡ []) ⊎ ((w.queue.closed ≡ false) × (length w.queue.jobs ≤ suc (length w.woken)))
    → Sound (pass w g done)
unfolding pass
pass-Sound w g done v a = go (pop w.queue done) (pop_correct w.queue done v)
  where
    go : (r : Popping ValidationJob) → Passed w.queue done r → Sound (after_pass w g r)
    go _ (job_taken job r k) = (
      k.valid,
      elim a [
        | inl e ↦ inl e
        | inr (o, l) ↦ inr (k.still.0 ∙ o, omega (arith, l, length-perm k.same))
      ],
    )
    go _ (shut_down e shut) =
        (v, elim a [ inl e ↦ inl e | inr (o, l) ↦ absurd (ground (arith, o, shut)) ])
    go _ (timed_out e opened d) = (v, inr (opened, omega (arith, ap length e)))
    go _ (waiting e opened d) = (v, inr (opened, omega (arith, ap length e)))

dequeue-Sound : (w : Waiters) → Sound w → Sound (record w { queue = (dequeue w.queue).0 })
dequeue-Sound w (v, a) = elim (dequeue_correct w.queue v) [
  | inl (none_left, e) ↦ rw e (v, a)
  | inr (job, r, e, k) ↦ rw e (
    k.valid,
    elim a [
      | inl n ↦ inl n
      | inr (o, l) ↦ inr (k.still.0 ∙ o, omega (arith, l, length-perm k.same))
    ],
  )
]

Step-Sound : {w w' : Waiters} {b : Bool} → Sound w → Step w b w' → Sound w'
unfolding clear
Step-Sound {w} s (pushing job) = push-Sound w job s
Step-Sound {w} s closing = close-Sound w s
Step-Sound {w} (v, a) (entering g done) =
    pass-Sound w g done v (elim a [ inl e ↦ inl e | inr (o, l) ↦ inr (o, omega (arith, l)) ])
Step-Sound {w} (v, a) (resuming before g later done e) =
    pass-Sound (record w { woken = before ++ later }) g done v
      (elim a [
        | inl n ↦ inl n
        | inr (o, l) ↦ inr (
          o,
          omega
              (arith, l, ap length e, length-append before (g ∷ later), length-append before later),
        )
      ])
Step-Sound {w} s dequeuing = dequeue-Sound w s
Step-Sound {w} (v, a) clearing = (
  record { heap = λ d c p q. absurd (omega arith); bounded = λ m e. omega arith },
  elim a [ inl e ↦ inl e | inr (o, l) ↦ inr (o, omega arith) ],
)

-- No wake-up is lost: in any state that calls and wake-ups reach from a new queue, if a goroutine
-- sleeps in Pop then the queue is open, and there are at most as many jobs as goroutines that have
-- been woken and are about to look for one.
pub no_lost_wake_up :
    (sizes : List ℤ) (w : Waiters) (g : ℕ) (gs : List ℕ)
    → Reachable sizes w
    → w.sleepers ≡ g ∷ gs
    → (w.queue.closed ≡ false) × (length w.queue.jobs ≤ length w.woken)
no_lost_wake_up sizes w g gs r e = elim (reachable-Sound r).1 [
  | inl n ↦ absurd (ground (arith, ap length e, ap length n))
  | inr a ↦ a
]
  where
    reachable-Sound : {w : Waiters} → Reachable sizes w → Sound w
    reachable-Sound at_start = (new_priority_queue-IsValid sizes, inl refl)
    reachable-Sound (after r s) = Step-Sound (reachable-Sound r) s

-- Steps that are neither a push nor a closing.
pub data Quiet : Waiters → Waiters → Type 0 where
  stop : (w : Waiters) → Quiet w w
  then_step : {w w' w'' : Waiters} → Quiet w w' → Step w' false w'' → Quiet w w''

after_pass-sleepers :
    (w : Waiters) (g : ℕ) (r : Popping ValidationJob)
    → (more : List ℕ) × ((after_pass w g r).sleepers ≡ w.sleepers ++ more)
unfolding after_pass
after_pass-sleepers w g sleeps = (g ∷ [], refl)
after_pass-sleepers w g (pops job q) = ([], sym (append-nil w.sleepers))
after_pass-sleepers w g (fails e) = ([], sym (append-nil w.sleepers))
after_pass-sleepers w g cancelled = ([], sym (append-nil w.sleepers))

Step-sleepers :
    {w w' : Waiters} → Step w false w' → (more : List ℕ) × (w'.sleepers ≡ w.sleepers ++ more)
unfolding pass
Step-sleepers {w} (entering g done) = after_pass-sleepers w g (pop w.queue done)
Step-sleepers {w} (resuming before g later done e) =
    after_pass-sleepers (record w { woken = before ++ later }) g (pop w.queue done)
Step-sleepers {w} dequeuing = ([], sym (append-nil w.sleepers))
Step-sleepers {w} clearing = ([], sym (append-nil w.sleepers))

-- However long the queue runs with neither a push nor a closing, every goroutine that sleeps in Pop
-- goes on sleeping: no context that is done, and no timeout, is among what wakes it.
pub context_wakes_nobody :
    (w w' : Waiters) → Quiet w w' → (more : List ℕ) × (w'.sleepers ≡ w.sleepers ++ more)
context_wakes_nobody w _ (stop _) = ([], sym (append-nil w.sleepers))
context_wakes_nobody w _ (then_step {w' = v} r s) =
    let (m, e) = context_wakes_nobody w v r in
    let (n, f) = Step-sleepers s in (m ++ n, f ∙ ap (λ l. l ++ n) e ∙ append_assoc w.sleepers m n)
