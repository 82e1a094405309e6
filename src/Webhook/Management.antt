-- ===== src/Webhook/Management.antt =====
-- The configurations of webhooks as their owners see them: the types of domain/webhook_config and
-- IsValid of domain/entities/webhook_config.go. Ids are numbers, 0 the nil UUID; the lengths of texts
-- are far from the bound of an int. The float64 multiplier of the backoff and url.Parse are parameters.
use mailvault.Base.{
  ℕ, Bool, true, false, not, ◌&&◌, ◌||◌, List, Option, none, some, ltb, ◌==◌, if◌then◌else◌, ℤ, pos,
  z_ltb, Bytes, codes, same_text, length,
}
use mailvault.Mailbox.{is_empty, OwnedDomain}
use mailvault.Webhook.{
  CircuitBreakerState, state_closed, state_open, state_half_open, state_other, WebhookHealthStatus,
  health_unknown, health_healthy, health_degraded, health_unhealthy, health_other,
  WebhookConfiguration,
}
use mailvault.Webhook.Config.{is_valid_timeout, is_valid_rate_limit, is_valid_circuit_breaker}
pub mod Rows
pub mod UseCase
pub mod Trial
pub mod Log
pub mod Found
pub mod Audits
pub mod Owners
mod Tests

pub data WebhookAuthType : Type 0 where
  auth_none auth_basic auth_bearer auth_hmac_sha256 : WebhookAuthType
  auth_other : Bytes → WebhookAuthType

-- The numbers that a multiplier may be, with their tests and the default.
pub record Multipliers : Type 1 where
  pub F : Type 0
  pub is_zero : F → Bool
  pub below_one : F → Bool
  pub above_five : F → Bool
  pub zero_point_zero : F
  pub two : F

-- The actions that are audited, and an entry without the values before and after it.
pub data Action : Type 0 where
  was_created was_updated was_deleted was_enabled was_disabled was_tested : Action

pub record Audit : Type 0 where
  pub webhook_config_id : ℕ
  pub changed_by_user_id : ℕ
  pub action : Action
  pub created_at : ℕ

pub record HealthCheck : Type 0 where
  pub webhook_config_id : ℕ
  pub status : WebhookHealthStatus
  pub response_time_ms : ℕ
  pub response_status_code : ℕ
  pub checked_at : ℕ

pub data WebhookError : Type 0 where
  config_not_found domain_not_found unauthorized duplicate_name invalid_configuration : WebhookError
  create_failed update_failed delete_failed enable_failed disable_failed : WebhookError
  health_check_failed template_not_found : WebhookError

unfoldable pub is_valid_auth_type : WebhookAuthType → Bool
is_valid_auth_type (auth_other s) = false
is_valid_auth_type _ = true

unfoldable pub is_valid_health_status : WebhookHealthStatus → Bool
is_valid_health_status (health_other s) = false
is_valid_health_status _ = true

unfoldable pub is_valid_state : CircuitBreakerState → Bool
is_valid_state (state_other s) = false
is_valid_state _ = true

module _ (m : Multipliers) where
  -- entities.WebhookConfiguration: the fields that the delivery rules use are those of `delivery`.
  pub record Row : Type 0 where
    pub id : ℕ
    pub domain_id : ℕ
    pub name : Bytes
    pub description : Bytes
    pub url : Bytes
    pub method : Bytes
    pub verified : Bool
    pub auth_type : WebhookAuthType
    pub auth_secret : Bytes
    pub auth_username : Bytes
    pub custom_headers : List (Bytes × Bytes)
    pub max_retries : ℤ
    pub retry_backoff_multiplier : m.F
    pub initial_retry_delay_seconds : ℤ
    pub last_health_check_at : Option ℕ
    pub created_at : ℕ
    pub updated_at : ℕ
    pub delivery : WebhookConfiguration

  -- The repositories, with url.Parse: the scheme of a text, or none for an error. A query gives none
  -- for an error, a missing row being one; the Boolean of a write is whether it went well.
  pub record Repository : Type 1 where
    pub World : Type 0
    pub get_by_id : World → ℕ → Option Row
    pub get_by_domain_id_and_name : World → ℕ → Bytes → Option Row
    pub get_domain : World → ℕ → Option OwnedDomain
    pub create : World → Row → World × Bool
    pub update : World → Row → World × Bool
    pub delete_row : World → ℕ → World × Bool
    pub create_audit : World → Audit → World × Bool
    pub create_health_check : World → HealthCheck → World × Bool
    pub url_scheme : Bytes → Option Bytes

  unfoldable pub is_http : Option Bytes → Bool
  is_http none = false
  is_http (some scheme) = same_text scheme (codes "http") || same_text scheme (codes "https")

  unfoldable pub is_valid_url : (Bytes → Option Bytes) → Bytes → Bool
  unfolding is_empty is_http
  is_valid_url url_scheme url =
      if is_empty url || ltb 2048 (length url) then false else is_http (url_scheme url)

  unfoldable pub is_valid_method : Bytes → Bool
  is_valid_method s =
      same_text s (codes "POST") || same_text s (codes "PUT") || same_text s (codes "PATCH")

  unfoldable pub is_valid_retry_config : Row → Bool
  is_valid_retry_config r =
      if z_ltb r.max_retries (pos 0) || z_ltb (pos 10) r.max_retries
      then false
      else if m.below_one r.retry_backoff_multiplier || m.above_five r.retry_backoff_multiplier
      then false
      else not (z_ltb r.initial_retry_delay_seconds (pos 0))

  -- WebhookConfiguration.IsValid, its early returns being conjuncts.
  unfoldable pub is_valid : (Bytes → Option Bytes) → Row → Bool
  unfolding is_empty is_valid_url is_valid_method is_valid_auth_type is_valid_timeout
      is_valid_retry_config is_valid_rate_limit is_valid_circuit_breaker is_valid_health_status
      is_valid_state
  is_valid url_scheme r =
      not (r.domain_id == 0)
      && not (is_empty r.name || ltb 255 (length r.name))
      && is_valid_url url_scheme r.url
      && is_valid_method r.method
      && is_valid_auth_type r.auth_type
      && is_valid_timeout r.delivery
      && is_valid_retry_config r
      && is_valid_rate_limit r.delivery
      && is_valid_circuit_breaker r.delivery
      && is_valid_health_status r.delivery.health_status
      && is_valid_state r.delivery.circuit_breaker_state
