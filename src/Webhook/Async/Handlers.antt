-- ===== src/Webhook/Async/Handlers.antt =====
-- What the goroutines of internal/webhook/async_worker.go do, move by move.
use mailvault.Base.{
  ℕ, zero, suc, ◌+◌, ◌-◌, Bool, true, false, ◌&&◌, List, [], ◌∷◌, ◌++◌, Option, none, some, ltb,
  leb, if◌then◌else◌, length, pos, z_ltb, decrement,
}
use mailvault.Backoff.{async_retry_delay}
use mailvault.Sending.Entity.{add_duration}
use mailvault.Webhook.Async.{
  WebhookJob, AsyncWorkerConfig, Update, queued, retried, requeued, dropped, AsyncWorker, Event,
  accepted, queue_full, completed, scheduled, abandoned, taken, taken_directly, other, idle,
  apply_update,
}

-- The i-th entry and the others.
unfoldable pub pick {ℓ} : {A : Type ℓ} → ℕ → List A → Option (A × List A)
pick i [] = none
pick zero (x ∷ xs) = some (x, xs)
pick (suc i) (x ∷ xs) = elim (pick i xs) [ none ↦ none | some (y, ys) ↦ some (y, x ∷ ys) ]

-- The select of EnqueueWebhook when the context goes on.
unfoldable pub enqueue_webhook : AsyncWorkerConfig → AsyncWorker → ℕ → ℕ → AsyncWorker × Event
enqueue_webhook c w id now =
    if ltb (length w.webhook_queue) c.buffer_size
    then (
      record w {
        webhook_queue =
            w.webhook_queue
            ++ record {
              id = id;
              created_at = now;
              last_attempt_at = none;
              attempts = 0;
              max_retries = c.max_retries;
              next_retry_at = none;
            }
              ∷ [];
        updates = queued ∷ w.updates;
      },
      accepted id,
    )
    else (w, queue_full id)

unfoldable pub begin_attempt : ℕ → WebhookJob → WebhookJob
begin_attempt now job = record job { attempts = suc job.attempts; last_attempt_at = some now }

-- A worker receives from a channel: from webhookQueue, or directly from retryQueue.
unfoldable pub take_from_queue : AsyncWorker → ℕ → List WebhookJob → AsyncWorker × Event
take_from_queue w now [] = (w, idle)
take_from_queue w now (job ∷ rest) =
    (record w { webhook_queue = rest; sending = begin_attempt now job ∷ w.sending }, taken)

unfoldable pub take_from_retries : AsyncWorker → ℕ → List WebhookJob → AsyncWorker × Event
take_from_retries w now [] = (w, idle)
take_from_retries w now (job ∷ rest) =
    (record w { retry_queue = rest; sending = begin_attempt now job ∷ w.sending }, taken_directly)

unfoldable pub has_free_worker : AsyncWorkerConfig → AsyncWorker → Bool
has_free_worker c w = ltb (length w.sending + length w.sent) c.worker_count

-- SendWebhook returns, and the worker counts the job as processed.
unfoldable pub count_processed :
    AsyncWorker → Bool → Option (WebhookJob × List WebhookJob) → AsyncWorker × Event
count_processed w success none = (w, idle)
count_processed w success (some (job, others)) = (
  record w {
    sending = others;
    sent = (job, success) ∷ w.sent;
    stats = record w.stats {
      queue_size = decrement w.stats.queue_size;
      total_processed = suc w.stats.total_processed;
    };
  },
  other,
)

unfoldable pub abandon_webhook_job : AsyncWorker → WebhookJob → AsyncWorker × Event
abandon_webhook_job w job = (record w { updates = dropped ∷ w.updates }, abandoned job.id)

unfoldable pub schedule_retry :
    AsyncWorkerConfig → AsyncWorker → ℕ → WebhookJob → AsyncWorker × Event
schedule_retry c w now job =
    if ltb (length w.retry_queue) c.buffer_size
    then (
      record w {
        retry_queue =
            w.retry_queue
            ++ record job {
              next_retry_at = some (add_duration now (async_retry_delay job.attempts));
            }
              ∷ [];
        updates = retried ∷ w.updates;
      },
      scheduled job.id,
    )
    else abandon_webhook_job w job

-- The rest of processWebhookJob: a failure is retried or given up.
unfoldable pub settle :
    AsyncWorkerConfig
    → AsyncWorker
    → ℕ
    → Option ((WebhookJob × Bool) × List (WebhookJob × Bool))
    → AsyncWorker × Event
settle c w now none = (w, idle)
settle c w now (some ((job, true), others)) = (record w { sent = others }, completed job.id)
settle c w now (some ((job, false), others)) =
    if z_ltb (pos job.attempts) job.max_retries && ltb (now - job.created_at) c.max_retry_age
    then schedule_retry c (record w { sent = others }) now job
    else abandon_webhook_job (record w { sent = others }) job

-- The retry processor receives a job.
unfoldable pub collect : AsyncWorker → List WebhookJob → AsyncWorker × Event
collect w [] = (w, idle)
collect w (job ∷ rest) =
    (record w { retry_queue = rest; retry_jobs = w.retry_jobs ++ job ∷ [] }, other)

-- The timer fires between two rounds.
unfoldable pub start_round : AsyncWorker → ℕ → List WebhookJob → AsyncWorker × Event
start_round w now [] = (record w { visiting = w.retry_jobs; round = now; retry_jobs = [] }, other)
start_round w now (job ∷ rest) = (w, idle)

unfoldable pub is_due : ℕ → Option ℕ → Bool
is_due now none = true
is_due now (some at) = leb at now

-- One job of the timer's round: put in the queue if it is due and there is room, and else kept.
unfoldable pub visit : AsyncWorkerConfig → AsyncWorker → List WebhookJob → AsyncWorker × Event
visit c w [] = (w, idle)
visit c w (job ∷ rest) =
    if is_due w.round job.next_retry_at && ltb (length w.webhook_queue) c.buffer_size
    then (
      record w {
        visiting = rest;
        webhook_queue = w.webhook_queue ++ job ∷ [];
        updates = requeued ∷ w.updates;
      },
      other,
    )
    else (record w { visiting = rest; retry_jobs = w.retry_jobs ++ job ∷ [] }, other)

unfoldable pub count_update : AsyncWorker → Option (Update × List Update) → AsyncWorker × Event
count_update w none = (w, idle)
count_update w (some (u, others)) =
    (record w { updates = others; stats = apply_update u w.stats }, other)

-- The moves, with the readings of the clock, the job or update that the scheduler picks and the
-- answer of the network.
pub data Move : Type 0 where
  offer : (id now : ℕ) → Move
  take_webhook take_retry : (now : ℕ) → Move
  answer : (i : ℕ) → (success : Bool) → Move
  decide : (i now : ℕ) → Move
  receive_retry look : Move
  tick : (now : ℕ) → Move
  lock_stats : (i : ℕ) → Move

unfoldable pub step : AsyncWorkerConfig → AsyncWorker → Move → AsyncWorker × Event
step c w (offer id now) = enqueue_webhook c w id now
step c w (take_webhook now) =
    if has_free_worker c w then take_from_queue w now w.webhook_queue else (w, idle)
step c w (take_retry now) =
    if has_free_worker c w then take_from_retries w now w.retry_queue else (w, idle)
step c w (answer i success) = count_processed w success (pick i w.sending)
step c w (decide i now) = settle c w now (pick i w.sent)
-- Between two rounds of the timer.
step c w receive_retry = if ltb 0 (length w.visiting) then (w, idle) else collect w w.retry_queue
step c w (tick now) = start_round w now w.visiting
step c w look = visit c w w.visiting
step c w (lock_stats i) = count_update w (pick i w.updates)

-- What a sequence of moves leaves, and what it reports.
unfoldable pub run : AsyncWorkerConfig → AsyncWorker → List Move → AsyncWorker × List Event
run c w [] = (w, [])
run c w (m ∷ ms) = let (w', e) = step c w m in let (w'', es) = run c w' ms in (w'', e ∷ es)
