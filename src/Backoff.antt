-- ===== src/Backoff.antt =====
-- The exponential backoffs of the repository: app/worker/queue.go, domain/entities/validation.go,
-- domain/validation/entities.go, internal/webhook/client.go, internal/webhook/async_worker.go and
-- app/worker/email_sender_worker.go. A time.Duration is an int64 of nanoseconds, a bit pattern.
pub mod Bounds
pub mod Overflow
mod Tests
use mailvault.Base.{
  ℕ, ◌+◌, ◌-◌, ◌*◌, ◌%◌, Bool, ◌||◌, ◌==◌, if◌then◌else◌, is_negative, slt, mul64, shl_one, word,
}

abbrev pub second : ℕ
second = 1_000_000_000

abbrev pub minute : ℕ
minute = 60 * second

abbrev pub hour : ℕ
hour = 60 * minute

-- attempt <= 0
abbrev pub is_not_positive : ℕ → Bool
is_not_positive attempt = attempt == 0 || is_negative attempt

-- if delay > limit { delay = limit }
unfoldable pub cap_at : ℕ → ℕ → ℕ
cap_at limit delay = if slt limit delay then limit else delay

-- The worker's CalculateRetryDelay.
unfoldable pub worker_retry_delay : ℕ → ℕ → ℕ
worker_retry_delay attempt base_delay =
    if is_not_positive attempt
    then base_delay
    else cap_at (24 * hour) (mul64 base_delay (shl_one (attempt - 1)))

-- CalculateRetryDelay of the entities.
unfoldable pub entity_retry_delay : ℕ → ℕ → ℕ
entity_retry_delay attempt base_delay =
    if is_not_positive attempt
    then base_delay
    else let delay = mul64 (shl_one (attempt - 1)) base_delay in
      if slt (24 * hour) delay then 24 * hour else delay

-- HTTPClient.calculateDelay; the callers count attempts from 1.
unfoldable pub webhook_delay : ℕ → ℕ → ℕ
webhook_delay base_delay attempt = cap_at (30 * second) (mul64 base_delay (shl_one (attempt - 1)))

-- AsyncWebhookWorker.calculateRetryDelay.
unfoldable pub async_retry_delay : ℕ → ℕ
async_retry_delay attempt = cap_at (30 * second) (mul64 (shl_one (attempt - 1)) second)

-- The delay that EmailSenderWorker.scheduleRetry computes; `job.Attempts` is at least 1 there.
unfoldable pub email_backoff_delay : ℕ → ℕ → ℕ
email_backoff_delay retry_interval attempts =
    cap_at (1 * hour) (mul64 retry_interval (shl_one (attempts - 1)))
