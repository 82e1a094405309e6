-- ===== src/Backoff/Tests.antt =====
-- Runs of the delays, and the properties at concrete inputs.
use mailvault.Base.{◌*◌, ◌≡◌, refl, true, arith, is_negative, slt, mul64, shl_one}
use mailvault.Backoff.Overflow.{worker_retry_delay_negative}
use mailvault.Backoff.{
  second, minute, hour, worker_retry_delay, webhook_delay, async_retry_delay, email_backoff_delay,
  cap_at,
}

first_delays :
    (worker_retry_delay 1 (5 * minute) ≡ 5 * minute)
    × (worker_retry_delay 4 (5 * minute) ≡ 40 * minute)
    × (worker_retry_delay 20 (5 * minute) ≡ 24 * hour)
    × (webhook_delay second 5 ≡ 16 * second)
    × (async_retry_delay 6 ≡ 30 * second)
    × (email_backoff_delay (5 * minute) 5 ≡ hour)
unfolding worker_retry_delay webhook_delay async_retry_delay email_backoff_delay cap_at slt mul64
    shl_one
first_delays = (refl, refl, refl, refl, refl, refl)

worker_retry_delay_negative_example : is_negative (worker_retry_delay 26 (5 * minute)) ≡ true
worker_retry_delay_negative_example =
    worker_retry_delay_negative 26 (5 * minute) (omega arith) (omega arith) (omega arith)
      (omega arith)
