-- ===== src/Webhook/Async/Jobs.antt =====
-- No job is lost or doubled between the goroutines of internal/webhook/async_worker.go.
use mailvault.Base.{
  ap, ℕ, ◌+◌, ◌-◌, ◌≡◌, refl, Bool, true, false, ◌&&◌, List, [], ◌∷◌, Option, none, some, arith,
  ltb, ◌==◌, if◌then◌else◌, if_rule, length, pos, z_ltb,
}
use mailvault.Webhook.Async.{
  WebhookJob, AsyncWorkerConfig, Update, AsyncWorker, Event, accepted, completed, abandoned, idle,
  new_async_webhook_worker,
}
use mailvault.Webhook.Async.Handlers.{
  enqueue_webhook, begin_attempt, take_from_queue, take_from_retries, has_free_worker,
  count_processed, abandon_webhook_job, schedule_retry, settle, collect, visit, count_update, Move,
  offer, take_webhook, take_retry, answer, decide, receive_retry, tick, look, lock_stats, step, run,
  pick, is_due, start_round,
}
use mailvault.Webhook.Async.Lists.{tally, tally-snoc, PickedFrom, pick-PickedFrom}

abbrev pub one_if : Bool → ℕ
one_if b = if b then 1 else 0

module _ (a : ℕ) where
  abbrev has_id : WebhookJob → ℕ
  has_id job = one_if (job.id == a)

  abbrev has_sent_id : WebhookJob × Bool → ℕ
  has_sent_id (job, success) = has_id job

  -- How often a job for the event `a` is in the worker.
  pub held : AsyncWorker → ℕ
  held w =
      tally has_id w.webhook_queue
      + tally has_id w.retry_queue
      + tally has_id w.retry_jobs
      + tally has_id w.visiting
      + tally has_id w.sending
      + tally has_sent_id w.sent

  -- How often it was accepted, and how often it was completed or abandoned.
  pub came_in : Event → ℕ
  came_in (accepted id) = one_if (id == a)
  came_in _ = 0

  pub went_out : Event → ℕ
  went_out (completed id) = one_if (id == a)
  went_out (abandoned id) = one_if (id == a)
  went_out _ = 0

module _ (c : AsyncWorkerConfig) (a : ℕ) where
  abbrev Balanced : AsyncWorker → AsyncWorker × Event → Type 0
  Balanced w (w', e) = came_in a e + held a w ≡ held a w' + went_out a e

  stays : (w : AsyncWorker) → Balanced w (w, idle)
  unfolding came_in went_out
  stays w = omega arith

  enqueue_webhook-Balanced :
      (w : AsyncWorker) (id now : ℕ) → Balanced w (enqueue_webhook c w id now)
  unfolding enqueue_webhook held came_in went_out
  enqueue_webhook-Balanced w id now =
      if_rule (Balanced w) (ltb (length w.webhook_queue) c.buffer_size)
        (λ _. omega (arith, tally-snoc (has_id a) w.webhook_queue _)) (λ _. omega arith)

  module _ (w : AsyncWorker) where
    -- The count of a list that is known.
    counted : (xs ys : List WebhookJob) → xs ≡ ys → tally (has_id a) xs ≡ tally (has_id a) ys
    counted xs ys e = ap (tally (has_id a)) e

    take_from_queue-Balanced :
        (now : ℕ) (q : List WebhookJob) → w.webhook_queue ≡ q → Balanced w (take_from_queue w now q)
    unfolding take_from_queue held came_in went_out tally begin_attempt
    take_from_queue-Balanced now [] e = omega arith
    take_from_queue-Balanced now (job ∷ rest) e =
        omega (arith, counted w.webhook_queue (job ∷ rest) e)

    take_from_retries-Balanced :
        (now : ℕ) (q : List WebhookJob) → w.retry_queue ≡ q → Balanced w (take_from_retries w now q)
    unfolding take_from_retries held came_in went_out tally begin_attempt
    take_from_retries-Balanced now [] e = omega arith
    take_from_retries-Balanced now (job ∷ rest) e =
        omega (arith, counted w.retry_queue (job ∷ rest) e)

    count_processed-Balanced :
        (success : Bool) (o : Option (WebhookJob × List WebhookJob))
        → PickedFrom w.sending o
        → Balanced w (count_processed w success o)
    unfolding count_processed held came_in went_out tally
    count_processed-Balanced success none p = omega arith
    count_processed-Balanced success (some (job, others)) p = omega (arith, p.sums (has_id a))

    schedule_retry-Balanced :
        (now : ℕ) (job : WebhookJob)
        → came_in a (schedule_retry c w now job).1 + held a w + has_id a job
          ≡ held a (schedule_retry c w now job).0 + went_out a (schedule_retry c w now job).1
    unfolding schedule_retry abandon_webhook_job held came_in went_out
    schedule_retry-Balanced now job =
        if_rule
          (λ (r : AsyncWorker × Event).
            came_in a r.1 + held a w + has_id a job ≡ held a r.0 + went_out a r.1)
          (ltb (length w.retry_queue) c.buffer_size)
          (λ _. omega (arith, tally-snoc (has_id a) w.retry_queue _)) (λ _. omega arith)

    collect-Balanced : (q : List WebhookJob) → w.retry_queue ≡ q → Balanced w (collect w q)
    unfolding collect held came_in went_out tally
    collect-Balanced [] e = omega arith
    collect-Balanced (job ∷ rest) e =
        omega (arith, counted w.retry_queue (job ∷ rest) e, tally-snoc (has_id a) w.retry_jobs job)

    start_round-Balanced :
        (now : ℕ) (q : List WebhookJob) → w.visiting ≡ q → Balanced w (start_round w now q)
    unfolding start_round held came_in went_out tally
    start_round-Balanced now [] e = omega (arith, counted w.visiting [] e)
    start_round-Balanced now (job ∷ rest) e = omega arith

    visit-Balanced : (q : List WebhookJob) → w.visiting ≡ q → Balanced w (visit c w q)
    unfolding visit held came_in went_out tally
    visit-Balanced [] e = omega arith
    visit-Balanced (job ∷ rest) e =
        if_rule (Balanced w)
          (is_due w.round job.next_retry_at && ltb (length w.webhook_queue) c.buffer_size)
          (λ _.
            omega
              (arith, counted w.visiting (job ∷ rest) e, tally-snoc (has_id a) w.webhook_queue job))
          λ _.
            omega (arith, counted w.visiting (job ∷ rest) e, tally-snoc (has_id a) w.retry_jobs job)

    count_update-Balanced : (o : Option (Update × List Update)) → Balanced w (count_update w o)
    unfolding count_update held came_in went_out
    count_update-Balanced none = omega arith
    count_update-Balanced (some (u, others)) = omega arith

  settle-Balanced :
      (w : AsyncWorker) (now : ℕ) (o : Option ((WebhookJob × Bool) × List (WebhookJob × Bool)))
      → PickedFrom w.sent o
      → Balanced w (settle c w now o)
  unfolding settle abandon_webhook_job held came_in went_out
  settle-Balanced w now none p = omega arith
  settle-Balanced w now (some ((job, true), others)) p = omega (arith, p.sums (has_sent_id a))
  settle-Balanced w now (some ((job, false), others)) p =
      if_rule (Balanced w)
        (z_ltb (pos job.attempts) job.max_retries && ltb (now - job.created_at) c.max_retry_age)
        (λ _. omega (
          arith,
          p.sums (has_sent_id a),
          schedule_retry-Balanced (record w { sent = others }) now job,
        ))
        λ _. omega (arith, p.sums (has_sent_id a))

  step-Balanced : (w : AsyncWorker) (m : Move) → Balanced w (step c w m)
  unfolding step
  step-Balanced w (offer id now) = enqueue_webhook-Balanced w id now
  step-Balanced w (take_webhook now) =
      if_rule (Balanced w) (has_free_worker c w)
        (λ _. take_from_queue-Balanced w now w.webhook_queue refl) (λ _. stays w)
  step-Balanced w (take_retry now) =
      if_rule (Balanced w) (has_free_worker c w)
        (λ _. take_from_retries-Balanced w now w.retry_queue refl) (λ _. stays w)
  step-Balanced w (answer i success) =
      count_processed-Balanced w success _ (pick-PickedFrom i w.sending)
  step-Balanced w (decide i now) = settle-Balanced w now _ (pick-PickedFrom i w.sent)
  step-Balanced w receive_retry =
      if_rule (Balanced w) (ltb 0 (length w.visiting)) (λ _. stays w)
        (λ _. collect-Balanced w w.retry_queue refl)
  step-Balanced w (tick now) = start_round-Balanced w now w.visiting refl
  step-Balanced w look = visit-Balanced w w.visiting refl
  step-Balanced w (lock_stats i) = count_update-Balanced w (pick i w.updates)

  held_new : held a new_async_webhook_worker ≡ 0
  unfolding held new_async_webhook_worker tally
  held_new = refl

  run-Balanced :
      (w : AsyncWorker) (ms : List Move)
      → let r = run c w ms in tally (came_in a) r.1 + held a w ≡ held a r.0 + tally (went_out a) r.1
  unfolding run tally
  run-Balanced w [] = omega arith
  run-Balanced w (m ∷ ms) = omega (arith, step-Balanced w m, run-Balanced (step c w m).0 ms)

  -- However the goroutines interleave, from a new worker on, each job accepted for an event is in the
  -- worker, or was completed, or was abandoned: none is lost and none is doubled.
  pub no_job_lost :
      (ms : List Move)
      → let r = run c new_async_webhook_worker ms in
        tally (came_in a) r.1 ≡ held a r.0 + tally (went_out a) r.1
  no_job_lost ms = omega (arith, run-Balanced new_async_webhook_worker ms, held_new)
