-- ===== src/Webhook/Management/Trial.antt =====
-- TestWebhookConfiguration and CreateFromTemplate of domain/webhook_config/usecase.go. What the network
-- does with a request is a parameter.
use mailvault.Base.{
  ℕ, ◌*◌, Bool, false, not, ◌&&◌, ◌⊎◌, inl, inr, List, [], Option, none, some, ltb, leb,
  if◌then◌else◌, ℤ, pos, negsuc, Bytes, take,
}
use mailvault.Mailbox.{is_empty}
use mailvault.Webhook.Management.{
  WebhookAuthType, auth_none, auth_basic, auth_bearer, auth_hmac_sha256, auth_other, Multipliers,
  was_tested, WebhookError, template_not_found, Row, Repository,
}
use mailvault.Webhook.Management.Rows.{CreateWebhookConfigInput, entry, default_method}
use mailvault.Webhook.Management.UseCase.{
  with_found, get_webhook_configuration, create_webhook_configuration,
}

-- What authenticates a request: the user of a basic authentication, whose password is empty, or a
-- signature of the body under the id of the webhook.
pub data Credentials : Type 0 where
  no_credentials : Credentials
  basic_user : Bytes → Credentials
  signed_by_id : ℕ → Credentials

pub record TestRequest : Type 0 where
  pub method : Bytes
  pub url : Bytes
  pub custom_headers : List (Bytes × Bytes)
  pub timeout : ℕ
  pub credentials : Credentials

-- What comes of a request: it cannot be built, it has no answer, or it has one, after some milliseconds.
pub data Answer : Type 0 where
  not_built : Answer
  not_answered : ℕ → Answer
  answered : ℕ → ℕ → Bytes → Answer

pub data FailedTest : Type 0 where
  build_request no_answer : FailedTest

pub record TestWebhookResult : Type 0 where
  pub success : Bool
  pub status_code : ℕ
  pub response_time_ms : ℕ
  pub error_message : Option FailedTest
  pub response_body : Bytes

pub record Template : Type 0 where
  pub default_method : Bytes
  pub default_auth_type : WebhookAuthType
  pub default_headers : List (Bytes × Bytes)
  pub default_timeout_seconds : ℤ

pub record CreateFromTemplateInput : Type 0 where
  pub template_id : ℕ
  pub domain_id : ℕ
  pub user_id : ℕ
  pub name : Bytes
  pub url : Bytes
  pub auth_secret : Bytes
  pub event_types : List Bytes

-- Nanoseconds: 10 seconds for a timeout that is not positive.
unfoldable pub test_timeout : ℤ → ℕ
test_timeout (pos s) = if ltb 0 s then s * 1000000000 else 10000000000
test_timeout (negsuc s) = 10000000000

unfoldable pub test_result : Answer → TestWebhookResult
test_result not_built = record {
  success = false;
  status_code = 0;
  response_time_ms = 0;
  error_message = some build_request;
  response_body = [];
}
test_result (not_answered elapsed) = record {
  success = false;
  status_code = 0;
  response_time_ms = elapsed;
  error_message = some no_answer;
  response_body = [];
}
test_result (answered elapsed status body) = record {
  success = leb 200 status && ltb status 300;
  status_code = status;
  response_time_ms = elapsed;
  error_message = none;
  response_body = take 4096 body;
}

module _ (m : Multipliers) where
  unfoldable pub by_auth_type : Row m → WebhookAuthType → Credentials
  unfolding is_empty
  by_auth_type r auth_basic =
      if not (is_empty r.auth_username) then basic_user r.auth_username else no_credentials
  by_auth_type r auth_hmac_sha256 = signed_by_id r.id
  by_auth_type r auth_none = no_credentials
  by_auth_type r auth_bearer = no_credentials
  by_auth_type r (auth_other s) = no_credentials

  unfoldable pub apply_auth : Row m → Credentials
  unfolding by_auth_type
  apply_auth r = by_auth_type r r.auth_type

  unfoldable pub test_request : Row m → TestRequest
  unfolding test_timeout apply_auth
  test_request r = record {
    method = default_method r.method;
    url = r.url;
    custom_headers = r.custom_headers;
    timeout = test_timeout r.delivery.timeout_seconds;
    credentials = apply_auth r;
  }

  -- deliverTestPayload; the payload only has the ids and the time.
  unfoldable pub deliver_test_payload : (TestRequest → Answer) → Row m → TestWebhookResult
  unfolding test_request test_result
  deliver_test_payload send r = test_result (send (test_request r))

  -- The row asked for from a template: what the template does not say is zero.
  unfoldable pub template_input : Template → CreateFromTemplateInput → CreateWebhookConfigInput m
  template_input t input = record {
    domain_id = input.domain_id;
    user_id = input.user_id;
    name = input.name;
    description = [];
    url = input.url;
    method = t.default_method;
    auth_type = t.default_auth_type;
    auth_secret = input.auth_secret;
    auth_username = [];
    custom_headers = t.default_headers;
    event_types = input.event_types;
    timeout_seconds = t.default_timeout_seconds;
    max_retries = pos 0;
    retry_backoff_multiplier = m.zero_point_zero;
    initial_retry_delay_seconds = pos 0;
    rate_limit_per_minute = pos 0;
    rate_limit_per_hour = pos 0;
    circuit_breaker_enabled = false;
    circuit_breaker_threshold = pos 0;
    circuit_breaker_timeout_seconds = pos 0;
  }

  module _ (repo : Repository m) where
    open repo use {World, create_audit}

    unfoldable pub test_webhook_configuration :
        (TestRequest → Answer) → World → ℕ → ℕ → ℕ → World × (WebhookError ⊎ TestWebhookResult)
    unfolding with_found get_webhook_configuration deliver_test_payload
    test_webhook_configuration send w now id user_id =
        with_found m repo w (get_webhook_configuration m repo w id user_id) λ r.
          ((create_audit w (entry m r user_id was_tested now)).0, inr (deliver_test_payload send r))

    -- The use of the template is counted, an error of which is only logged.
    unfoldable pub template_used :
        (World → World) → World × (WebhookError ⊎ Row m) → World × (WebhookError ⊎ Row m)
    template_used count_use (w, inl err) = (w, inl err)
    template_used count_use (w, inr r) = (count_use w, inr r)

    unfoldable pub create_from_template :
        (World → ℕ → World)
        → World
        → ℕ
        → ℕ
        → Option Template
        → CreateFromTemplateInput
        → World × (WebhookError ⊎ Row m)
    unfolding create_webhook_configuration template_input template_used
    create_from_template increment_template_usage w id now none input = (w, inl template_not_found)
    create_from_template increment_template_usage w id now (some t) input =
        template_used (λ w'. increment_template_usage w' input.template_id)
          (create_webhook_configuration m repo w id now (template_input t input))
