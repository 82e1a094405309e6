-- ===== src/Webhook/Async/Limits.antt =====
-- The bounds that internal/webhook/async_worker.go keeps: the room of its channels, its workers, and
-- the attempts of a job.
use mailvault.Base.{
  ap, ltb→lt, ◌<◌, ℕ, suc, ◌+◌, ◌-◌, ◌≡◌, ◌≤◌, refl, ◌⊎◌, inl, inr, Bool, true, false, ◌&&◌, List,
  [], ◌∷◌, Option, none, some, arith, ltb, if_rule, length, length-append, pos, z_ltb, All, subst,
}
use mailvault.Webhook.Async.{
  WebhookJob, AsyncWorkerConfig, Update, AsyncWorker, Event, new_async_webhook_worker,
}
use mailvault.Webhook.Async.Handlers.{
  enqueue_webhook, begin_attempt, take_from_queue, take_from_retries, has_free_worker,
  count_processed, abandon_webhook_job, schedule_retry, settle, collect, start_round, visit,
  count_update, Move, offer, take_webhook, take_retry, answer, decide, receive_retry, tick, look,
  lock_stats, step, run, pick, is_due,
}
use mailvault.Webhook.Async.Lists.{PickedFrom, pick-PickedFrom, All-snoc, AllPicked, pick-All}

-- A job that waits can be tried again: it is new or has attempts left.
abbrev pub MayTry : WebhookJob → Type 0
MayTry job = (job.attempts ≡ 0) ⊎ (z_ltb (pos job.attempts) job.max_retries ≡ true)

-- An attempt under way was allowed: it is the first, or the attempts before it left one.
abbrev pub Allowed : WebhookJob → Type 0
Allowed job =
    (job.attempts ≡ 1) ⊎ ((n : ℕ) × (job.attempts ≡ suc n) × (z_ltb (pos n) job.max_retries ≡ true))

begin_attempt-Allowed : (now : ℕ) (job : WebhookJob) → MayTry job → Allowed (begin_attempt now job)
unfolding begin_attempt
begin_attempt-Allowed now job (inl e) = inl (omega arith)
begin_attempt-Allowed now job (inr h) = inr (job.attempts, refl, h)

first : (a b : Bool) → (a && b) ≡ true → a ≡ true
first a b h = ground arith

second : (a b : Bool) → (a && b) ≡ true → b ≡ true
second a b h = ground arith

module _ (c : AsyncWorkerConfig) where
  -- The bounds on the channels and on the workers.
  abbrev InRoom : AsyncWorker → Type 0
  InRoom w =
      (length w.webhook_queue ≤ c.buffer_size)
      × (length w.retry_queue ≤ c.buffer_size)
      × (length w.sending + length w.sent ≤ c.worker_count)

  -- The jobs that wait may be tried, and those under way were.
  abbrev Tried : AsyncWorker → Type 0
  Tried w =
      All MayTry w.webhook_queue
      × All MayTry w.retry_queue
      × All MayTry w.retry_jobs
      × All MayTry w.visiting
      × All Allowed w.sending

  abbrev After : AsyncWorker × Event → Type 0
  After (w, e) = InRoom w × Tried w

  module _ (w : AsyncWorker) (r : InRoom w) (t : Tried w) where
    enqueue_webhook-Limited : (id now : ℕ) → After (enqueue_webhook c w id now)
    unfolding enqueue_webhook
    enqueue_webhook-Limited id now =
        if_rule After (ltb (length w.webhook_queue) c.buffer_size)
          (λ room. (
            omega (arith, ltb→lt _ _ room, length-append w.webhook_queue (_ ∷ [])),
            (All-snoc MayTry w.webhook_queue _ t.0 (inl refl), t.1, t.2, t.3, t.4),
          ))
          λ _. (r, t)

    take_from_queue-Limited :
        (now : ℕ) (q : List WebhookJob)
        → w.webhook_queue ≡ q
        → length w.sending + length w.sent < c.worker_count
        → After (take_from_queue w now q)
    unfolding take_from_queue
    take_from_queue-Limited now [] e f = (r, t)
    take_from_queue-Limited now (job ∷ rest) e f =
        let (may, others) = subst (All MayTry) e t.0 in
        (
          omega (arith, ap length e),
          (others, t.1, t.2, t.3, (begin_attempt-Allowed now job may, t.4)),
        )

    take_from_retries-Limited :
        (now : ℕ) (q : List WebhookJob)
        → w.retry_queue ≡ q
        → length w.sending + length w.sent < c.worker_count
        → After (take_from_retries w now q)
    unfolding take_from_retries
    take_from_retries-Limited now [] e f = (r, t)
    take_from_retries-Limited now (job ∷ rest) e f =
        let (may, others) = subst (All MayTry) e t.1 in
        (
          omega (arith, ap length e),
          (t.0, others, t.2, t.3, (begin_attempt-Allowed now job may, t.4)),
        )

    count_processed-Limited :
        (success : Bool) (o : Option (WebhookJob × List WebhookJob))
        → PickedFrom w.sending o
        → AllPicked Allowed o
        → After (count_processed w success o)
    unfolding count_processed
    count_processed-Limited success none p a = (r, t)
    count_processed-Limited success (some (job, others)) p a =
        (omega (arith, p.sizes), (t.0, t.1, t.2, t.3, a.1))

    collect-Limited : (q : List WebhookJob) → w.retry_queue ≡ q → After (collect w q)
    unfolding collect
    collect-Limited [] e = (r, t)
    collect-Limited (job ∷ rest) e =
        let (may, others) = subst (All MayTry) e t.1 in
        (
          omega (arith, ap length e),
          (t.0, others, All-snoc MayTry w.retry_jobs job t.2 may, t.3, t.4),
        )

    start_round-Limited : (now : ℕ) (q : List WebhookJob) → After (start_round w now q)
    unfolding start_round
    start_round-Limited now [] = (r, (t.0, t.1, tt, t.2, t.4))
    start_round-Limited now (job ∷ rest) = (r, t)

    visit-Limited : (q : List WebhookJob) → w.visiting ≡ q → After (visit c w q)
    unfolding visit
    visit-Limited [] e = (r, t)
    visit-Limited (job ∷ rest) e =
        let (may, others) = subst (All MayTry) e t.3 in
        if_rule After
          (is_due w.round job.next_retry_at && ltb (length w.webhook_queue) c.buffer_size)
          (λ room. (
            omega (
              arith,
              ltb→lt _ _ (second (is_due w.round job.next_retry_at) _ room),
              length-append w.webhook_queue (job ∷ []),
            ),
            (All-snoc MayTry w.webhook_queue job t.0 may, t.1, t.2, others, t.4),
          ))
          λ _. (r, (t.0, t.1, All-snoc MayTry w.retry_jobs job t.2 may, others, t.4))

    count_update-Limited : (o : Option (Update × List Update)) → After (count_update w o)
    unfolding count_update
    count_update-Limited none = (r, t)
    count_update-Limited (some (u, others)) = (r, t)

    settle-Limited :
        (now : ℕ) (o : Option ((WebhookJob × Bool) × List (WebhookJob × Bool)))
        → PickedFrom w.sent o
        → After (settle c w now o)
    unfolding settle schedule_retry abandon_webhook_job
    settle-Limited now none p = (r, t)
    settle-Limited now (some ((job, true), others)) p = (omega (arith, p.sizes), t)
    settle-Limited now (some ((job, false), others)) p =
        if_rule After
          (z_ltb (pos job.attempts) job.max_retries && ltb (now - job.created_at) c.max_retry_age)
          (λ again.
            if_rule After (ltb (length w.retry_queue) c.buffer_size)
              (λ room. (
                omega (arith, p.sizes, ltb→lt _ _ room, length-append w.retry_queue (_ ∷ [])),
                (t.0, All-snoc MayTry w.retry_queue _ t.1 (inr (first _ _ again)), t.2, t.3, t.4),
              ))
              λ _. (omega (arith, p.sizes), t))
          λ _. (omega (arith, p.sizes), t)

    step-Limited : (m : Move) → After (step c w m)
    unfolding step has_free_worker
    step-Limited (offer id now) = enqueue_webhook-Limited id now
    step-Limited (take_webhook now) =
        if_rule After (has_free_worker c w)
          (λ f. take_from_queue-Limited now w.webhook_queue refl (ltb→lt _ _ f)) (λ _. (r, t))
    step-Limited (take_retry now) =
        if_rule After (has_free_worker c w)
          (λ f. take_from_retries-Limited now w.retry_queue refl (ltb→lt _ _ f)) (λ _. (r, t))
    step-Limited (answer i success) =
        count_processed-Limited success _ (pick-PickedFrom i w.sending)
          (pick-All Allowed i w.sending t.4)
    step-Limited (decide i now) = settle-Limited now _ (pick-PickedFrom i w.sent)
    step-Limited receive_retry =
        if_rule After (ltb 0 (length w.visiting)) (λ _. (r, t))
          (λ _. collect-Limited w.retry_queue refl)
    step-Limited (tick now) = start_round-Limited now w.visiting
    step-Limited look = visit-Limited w.visiting refl
    step-Limited (lock_stats i) = count_update-Limited (pick i w.updates)

  run-Limited :
      (ms : List Move) (w : AsyncWorker)
      → InRoom w
      → Tried w
      → let w' = (run c w ms).0 in InRoom w' × Tried w'
  unfolding run
  run-Limited [] w r t = (r, t)
  run-Limited (m ∷ ms) w r t =
      let (r', t') = step-Limited w r t m in run-Limited ms (step c w m).0 r' t'

  -- However the goroutines interleave, from a new worker on: each channel holds at most the buffer
  -- size, at most as many jobs are under way as there are workers, and each attempt under way was the
  -- first of its job or came when the attempts before it were fewer than the maximum of retries.
  pub attempts-Allowed :
      (ms : List Move)
      → let w = (run c new_async_webhook_worker ms).0 in
        (length w.webhook_queue ≤ c.buffer_size)
        × (length w.retry_queue ≤ c.buffer_size)
        × (length w.sending + length w.sent ≤ c.worker_count)
        × All Allowed w.sending
  unfolding new_async_webhook_worker
  attempts-Allowed ms =
      let (r, t) = run-Limited ms new_async_webhook_worker (omega arith) (tt, tt, tt, tt, tt) in
      (r.0, r.1, r.2, t.4)
