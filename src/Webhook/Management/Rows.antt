-- ===== src/Webhook/Management/Rows.antt =====
-- The rows that domain/webhook_config/usecase.go makes of its inputs and of the rows it finds.
use mailvault.Base.{
  ℕ, Bool, true, false, ◌&&◌, List, [], ◌∷◌, Option, none, some, if◌then◌else◌, ℤ, pos, z_eqb,
  Bytes, codes, is_nil,
}
use mailvault.Webhook.{state_closed, health_unknown, health_healthy}
use mailvault.Webhook.Management.{WebhookAuthType, Multipliers, Action, Audit, Row}

-- A pointer that replaces a value, and a default for a zero.
abbrev pub given_or {ℓ} : {A : Type ℓ} → Option A → A → A
given_or none d = d
given_or (some a) d = a

abbrev pub default_int : ℕ → ℤ → ℤ
default_int d z = if z_eqb z (pos 0) then pos d else z

abbrev pub default_events : List Bytes → List Bytes
default_events [] = codes "email.received" ∷ []
default_events (e ∷ es) = e ∷ es

abbrev pub default_method : Bytes → Bytes
default_method [] = codes "POST"
default_method (c ∷ s) = c ∷ s

module _ (m : Multipliers) where
  pub record CreateWebhookConfigInput : Type 0 where
    pub domain_id : ℕ
    pub user_id : ℕ
    pub name : Bytes
    pub description : Bytes
    pub url : Bytes
    pub method : Bytes
    pub auth_type : WebhookAuthType
    pub auth_secret : Bytes
    pub auth_username : Bytes
    pub custom_headers : List (Bytes × Bytes)
    pub event_types : List Bytes
    pub timeout_seconds : ℤ
    pub max_retries : ℤ
    pub retry_backoff_multiplier : m.F
    pub initial_retry_delay_seconds : ℤ
    pub rate_limit_per_minute : ℤ
    pub rate_limit_per_hour : ℤ
    pub circuit_breaker_enabled : Bool
    pub circuit_breaker_threshold : ℤ
    pub circuit_breaker_timeout_seconds : ℤ

  pub record UpdateWebhookConfigInput : Type 0 where
    pub id : ℕ
    pub user_id : ℕ
    pub name : Option Bytes
    pub description : Option Bytes
    pub url : Option Bytes
    pub method : Option Bytes
    pub auth_type : Option WebhookAuthType
    pub auth_secret : Option Bytes
    pub auth_username : Option Bytes
    pub custom_headers : Option (List (Bytes × Bytes))
    pub event_types : Option (List Bytes)
    pub timeout_seconds : Option ℤ
    pub max_retries : Option ℤ
    pub retry_backoff_multiplier : Option m.F
    pub initial_retry_delay_seconds : Option ℤ
    pub rate_limit_per_minute : Option ℤ
    pub rate_limit_per_hour : Option ℤ
    pub circuit_breaker_enabled : Option Bool
    pub circuit_breaker_threshold : Option ℤ
    pub circuit_breaker_timeout_seconds : Option ℤ

  -- The row of CreateWebhookConfiguration, with its defaults.
  unfoldable pub new_row : ℕ → ℕ → CreateWebhookConfigInput → Row m
  new_row id now input = record {
    id = id;
    domain_id = input.domain_id;
    name = input.name;
    description = input.description;
    url = input.url;
    method = default_method input.method;
    verified = false;
    auth_type = input.auth_type;
    auth_secret = input.auth_secret;
    auth_username = input.auth_username;
    custom_headers = input.custom_headers;
    max_retries = default_int 3 input.max_retries;
    retry_backoff_multiplier =
        if m.is_zero input.retry_backoff_multiplier then m.two else input.retry_backoff_multiplier;
    initial_retry_delay_seconds = default_int 60 input.initial_retry_delay_seconds;
    last_health_check_at = none;
    created_at = now;
    updated_at = now;
    delivery = record {
      enabled = true;
      event_types = default_events input.event_types;
      timeout_seconds = default_int 30 input.timeout_seconds;
      rate_limit_per_minute = default_int 60 input.rate_limit_per_minute;
      rate_limit_per_hour = default_int 1000 input.rate_limit_per_hour;
      circuit_breaker_enabled = input.circuit_breaker_enabled;
      circuit_breaker_threshold = default_int 5 input.circuit_breaker_threshold;
      circuit_breaker_timeout_seconds = default_int 300 input.circuit_breaker_timeout_seconds;
      circuit_breaker_state = state_closed;
      circuit_breaker_opened_at = none;
      health_status = health_unknown;
      last_success_at = none;
      last_failure_at = none;
      consecutive_failures = 0;
      total_success_count = 0;
      total_failure_count = 0;
      average_response_time_ms = 0;
      last_used_at = none;
    };
  }

  unfoldable pub updated : ℕ → UpdateWebhookConfigInput → Row m → Row m
  updated now input r =
      let d = r.delivery in
      record r {
        name = given_or input.name r.name;
        description = given_or input.description r.description;
        url = given_or input.url r.url;
        verified = is_nil input.url && r.verified;
        method = given_or input.method r.method;
        auth_type = given_or input.auth_type r.auth_type;
        auth_secret = given_or input.auth_secret r.auth_secret;
        auth_username = given_or input.auth_username r.auth_username;
        custom_headers = given_or input.custom_headers r.custom_headers;
        max_retries = given_or input.max_retries r.max_retries;
        retry_backoff_multiplier =
            given_or input.retry_backoff_multiplier r.retry_backoff_multiplier;
        initial_retry_delay_seconds =
            given_or input.initial_retry_delay_seconds r.initial_retry_delay_seconds;
        updated_at = now;
        delivery = record d {
          event_types = given_or input.event_types d.event_types;
          timeout_seconds = given_or input.timeout_seconds d.timeout_seconds;
          rate_limit_per_minute = given_or input.rate_limit_per_minute d.rate_limit_per_minute;
          rate_limit_per_hour = given_or input.rate_limit_per_hour d.rate_limit_per_hour;
          circuit_breaker_enabled =
              given_or input.circuit_breaker_enabled d.circuit_breaker_enabled;
          circuit_breaker_threshold =
              given_or input.circuit_breaker_threshold d.circuit_breaker_threshold;
          circuit_breaker_timeout_seconds =
              given_or input.circuit_breaker_timeout_seconds d.circuit_breaker_timeout_seconds;
        };
      }

  unfoldable pub set_enabled : ℕ → Bool → Row m → Row m
  set_enabled now enabled r =
      let d = r.delivery in record r { updated_at = now; delivery = record d { enabled = enabled } }

  unfoldable pub set_healthy : ℕ → Row m → Row m
  set_healthy now r =
      let d = r.delivery in
      record r {
        last_health_check_at = some now;
        updated_at = now;
        delivery = record d { health_status = health_healthy };
      }

  abbrev pub entry : Row m → ℕ → Action → ℕ → Audit
  entry r user_id action now = record {
    webhook_config_id = r.id;
    changed_by_user_id = user_id;
    action = action;
    created_at = now;
  }
