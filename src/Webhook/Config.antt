-- ===== src/Webhook/Config.antt =====
-- The methods of WebhookConfiguration in domain/entities/webhook_config.go that decide on deliveries,
-- and the filter of internal/webhook/config_loader.go.
use mailvault.Base.{
  ℕ, suc, ◌+◌, ◌*◌, ◌/◌, Bool, true, false, ◌&&◌, ◌||◌, not, List, [], ◌∷◌, Option, none, some, ltb,
  leb, ◌==◌, if◌then◌else◌, ℤ, pos, negsuc, z_ltb, Bytes, codes, same_text,
}
use mailvault.Webhook.{
  CircuitBreakerState, state_closed, state_open, state_half_open, state_other, WebhookHealthStatus,
  health_healthy, health_degraded, health_unhealthy, WebhookConfiguration,
}

unfoldable pub is_valid_timeout : WebhookConfiguration → Bool
is_valid_timeout w = z_ltb (pos 0) w.timeout_seconds && not (z_ltb (pos 300) w.timeout_seconds)

unfoldable pub is_valid_rate_limit : WebhookConfiguration → Bool
is_valid_rate_limit w = z_ltb (pos 0) w.rate_limit_per_minute && z_ltb (pos 0) w.rate_limit_per_hour

unfoldable pub is_valid_circuit_breaker : WebhookConfiguration → Bool
is_valid_circuit_breaker w =
    if not (z_ltb (pos 0) w.circuit_breaker_threshold)
    then false
    else if not (z_ltb (pos 0) w.circuit_breaker_timeout_seconds)
    then false
    else true

abbrev pub is_open : CircuitBreakerState → Bool
is_open state_open = true
is_open _ = false

abbrev pub is_half_open : CircuitBreakerState → Bool
is_half_open state_half_open = true
is_half_open _ = false

unfoldable pub is_active : WebhookConfiguration → Bool
is_active w = w.enabled && not (is_open w.circuit_breaker_state)

has_event : Bytes → List Bytes → Bool
has_event event_type [] = false
has_event event_type (et ∷ ets) =
    same_text et event_type || same_text et (codes "*") || has_event event_type ets

unfoldable pub should_send_event : Bytes → WebhookConfiguration → Bool
unfolding has_event
should_send_event event_type w =
    if not (is_active w) then false else has_event event_type w.event_types

-- The status at s successes among t attempts. The code compares the quotient of two float64 with 0.95
-- and 0.80, which for fewer than 2^49 attempts is a comparison of these products.
unfoldable pub health_at : ℕ → ℕ → WebhookHealthStatus
health_at s t =
    if leb (95 * t) (100 * s)
    then health_healthy
    else if leb (80 * t) (100 * s)
    then health_degraded
    else health_unhealthy

unfoldable pub record_success : ℕ → ℕ → WebhookConfiguration → WebhookConfiguration
record_success now response_time_ms w =
    let recovers = is_open w.circuit_breaker_state || is_half_open w.circuit_breaker_state in
    record w {
      last_success_at = some now;
      last_used_at = some now;
      consecutive_failures = 0;
      total_success_count = suc w.total_success_count;
      average_response_time_ms =
          if w.average_response_time_ms == 0
          then response_time_ms
          else (w.average_response_time_ms * 9 + response_time_ms) / 10;
      health_status =
          health_at (suc w.total_success_count) (suc w.total_success_count + w.total_failure_count);
      circuit_breaker_state = if recovers then state_closed else w.circuit_breaker_state;
      circuit_breaker_opened_at = if recovers then none else w.circuit_breaker_opened_at;
    }

-- The error text only goes to the log.
unfoldable pub record_failure : ℕ → WebhookConfiguration → WebhookConfiguration
record_failure now w =
    let failures = suc w.consecutive_failures in
    let trips =
      w.circuit_breaker_enabled
      && not (z_ltb (pos failures) w.circuit_breaker_threshold)
      && not (is_open w.circuit_breaker_state) in
    record w {
      last_failure_at = some now;
      last_used_at = some now;
      consecutive_failures = failures;
      total_failure_count = suc w.total_failure_count;
      health_status =
          health_at w.total_success_count (w.total_success_count + suc w.total_failure_count);
      circuit_breaker_state = if trips then state_open else w.circuit_breaker_state;
      circuit_breaker_opened_at = if trips then some now else w.circuit_breaker_opened_at;
    }

-- time.Since(opened) > timeout
unfoldable pub is_past : ℕ → ℕ → ℤ → Bool
is_past now opened (pos s) = ltb (opened + s * 1000000000) now
is_past now opened (negsuc s) = ltb opened (now + suc s * 1000000000)

unfoldable pub try_half_open : ℕ → WebhookConfiguration → Option ℕ → WebhookConfiguration × Bool
try_half_open now w none = (w, false)
try_half_open now w (some opened) =
    if is_past now opened w.circuit_breaker_timeout_seconds
    then (record w { circuit_breaker_state = state_half_open }, true)
    else (w, false)

unfoldable pub by_state :
    ℕ → WebhookConfiguration → CircuitBreakerState → WebhookConfiguration × Bool
by_state now w state_closed = (w, true)
by_state now w state_open = try_half_open now w w.circuit_breaker_opened_at
by_state now w state_half_open = (w, true)
by_state now w (state_other text) = (w, false)

-- CanAttemptDelivery, which also moves an open breaker to half-open.
unfoldable pub can_attempt_delivery : ℕ → WebhookConfiguration → WebhookConfiguration × Bool
unfolding by_state try_half_open
can_attempt_delivery now w =
    if not w.enabled
    then (w, false)
    else if not w.circuit_breaker_enabled
    then (w, true)
    else by_state now w w.circuit_breaker_state

keep_if : List WebhookConfiguration → WebhookConfiguration × Bool → List WebhookConfiguration
keep_if rest (w, true) = w ∷ rest
keep_if rest (w, false) = rest

-- The loop of LoadWebhookConfigsForEvent over the rows found.
unfoldable pub filter_for_event : ℕ → Bytes → List WebhookConfiguration → List WebhookConfiguration
unfolding keep_if
filter_for_event now event_type [] = []
filter_for_event now event_type (w ∷ ws) =
    let rest = filter_for_event now event_type ws in
    if should_send_event event_type w then keep_if rest (can_attempt_delivery now w) else rest

-- RecordWebhookResult, on the row that it then stores.
unfoldable pub record_webhook_result : Bool → ℕ → ℕ → WebhookConfiguration → WebhookConfiguration
record_webhook_result success now response_time_ms w =
    if success then record_success now response_time_ms w else record_failure now w
