-- ===== src/Webhook/Async.antt =====
-- The asynchronous delivery of internal/webhook/async_worker.go: its two channels, the workers, the
-- retry processor and the counters. A move is what one goroutine does between two of its waits, on a
-- channel, on the network or on the lock of the counters; any sequence of moves is an interleaving.
use mailvault.Base.{ℕ, suc, Bool, List, [], Option, ℤ, pos, increment, decrement}
pub mod Handlers
pub mod Lists
pub mod Jobs
pub mod Counters
pub mod Limits
mod Tests

-- A WebhookJob by the id of its event; the request and the event are handed on.
pub record WebhookJob : Type 0 where
  pub id : ℕ
  pub created_at : ℕ
  pub last_attempt_at : Option ℕ
  pub attempts : ℕ
  pub max_retries : ℤ
  pub next_retry_at : Option ℕ

pub record WorkerStats : Type 0 where
  pub queue_size : ℤ
  pub pending_retries : ℤ
  pub total_processed : ℕ
  pub total_retries : ℕ
  pub total_abandoned : ℕ

-- `max_retries` is that of the HTTP client.
pub record AsyncWorkerConfig : Type 0 where
  pub buffer_size : ℕ
  pub worker_count : ℕ
  pub max_retry_age : ℕ
  pub max_retries : ℤ

-- A call of updateStats whose goroutine has yet to get the lock.
pub data Update : Type 0 where
  queued retried requeued dropped : Update

-- `sending` are the jobs whose request is under way, `sent` those with an answer, a success or not.
pub record AsyncWorker : Type 0 where
  pub webhook_queue : List WebhookJob
  pub retry_queue : List WebhookJob
  pub retry_jobs : List WebhookJob
  -- The jobs that the timer's round has still to look at, and the time of its begin.
  pub visiting : List WebhookJob
  pub round : ℕ
  pub sending : List WebhookJob
  pub sent : List (WebhookJob × Bool)
  pub updates : List Update
  pub stats : WorkerStats

-- What a move reports: an answer of EnqueueWebhook or a line of the log.
pub data Event : Type 0 where
  accepted queue_full completed scheduled abandoned : ℕ → Event
  taken taken_directly other idle : Event

unfoldable pub new_async_webhook_worker : AsyncWorker
new_async_webhook_worker = record {
  webhook_queue = [];
  retry_queue = [];
  retry_jobs = [];
  visiting = [];
  round = 0;
  sending = [];
  sent = [];
  updates = [];
  stats = record {
    queue_size = pos 0;
    pending_retries = pos 0;
    total_processed = 0;
    total_retries = 0;
    total_abandoned = 0;
  };
}

unfoldable pub apply_update : Update → WorkerStats → WorkerStats
apply_update queued s = record s { queue_size = increment s.queue_size }
apply_update retried s = record s {
  pending_retries = increment s.pending_retries;
  total_retries = suc s.total_retries;
}
apply_update requeued s = record s {
  pending_retries = decrement s.pending_retries;
  queue_size = increment s.queue_size;
}
apply_update dropped s = record s { total_abandoned = suc s.total_abandoned }
