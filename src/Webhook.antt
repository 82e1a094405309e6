-- ===== src/Webhook.antt =====
-- The webhooks of domain/entities/webhook_config.go and internal/webhook. A time is a number of
-- nanoseconds; the counters are natural numbers, far from the bound of an int64.
use Prim.Native.String.{String}
use mailvault.Base.{ℕ, Bool, List, Option, ℤ, Bytes}
pub mod Config
pub mod Breaker
pub mod Opening
pub mod Client
pub mod Async
pub mod Management
mod Tests

-- Each of these is a string: one of the constants, or any other text.
pub data WebhookHealthStatus : Type 0 where
  health_unknown health_healthy health_degraded health_unhealthy : WebhookHealthStatus
  health_other : String → WebhookHealthStatus

pub data CircuitBreakerState : Type 0 where
  state_closed state_open state_half_open : CircuitBreakerState
  state_other : String → CircuitBreakerState

-- The fields that the delivery rules read or write.
pub record WebhookConfiguration : Type 0 where
  pub enabled : Bool
  pub event_types : List Bytes
  pub timeout_seconds : ℤ
  pub rate_limit_per_minute : ℤ
  pub rate_limit_per_hour : ℤ
  pub circuit_breaker_enabled : Bool
  pub circuit_breaker_threshold : ℤ
  pub circuit_breaker_timeout_seconds : ℤ
  pub circuit_breaker_state : CircuitBreakerState
  pub circuit_breaker_opened_at : Option ℕ
  pub health_status : WebhookHealthStatus
  pub last_success_at : Option ℕ
  pub last_failure_at : Option ℕ
  pub consecutive_failures : ℕ
  pub total_success_count : ℕ
  pub total_failure_count : ℕ
  pub average_response_time_ms : ℕ
  pub last_used_at : Option ℕ
