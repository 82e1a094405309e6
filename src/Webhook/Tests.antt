-- ===== src/Webhook/Tests.antt =====
-- Runs of the webhooks, and the properties at concrete inputs.
use mailvault.Base.{
  ◌≡◌, refl, ◌⊎◌, true, false, List, [], ◌∷◌, none, some, leb, if◌then◌else◌, pos, Bytes, codes,
  has_prefix, to_lower,
}
use mailvault.Webhook.{WebhookConfiguration, state_closed, state_open, health_unknown}
use mailvault.Webhook.Breaker.{Event, asked, reported, history, Phase, when_closed, history-Phase}
use mailvault.Webhook.Client.{
  Receiver, Url, UrlError, delivered, bad_url, internal_network, not_sent, send_webhook, send_loop,
  attempt_webhook, validate_webhook_url, is_internal_or_private_url, should_retry, finish_delivery,
  has_some_prefix,
}
use mailvault.Webhook.Client.Attempts.{Sending, send_webhook_correct}

abbrev fresh : WebhookConfiguration
fresh = record {
  enabled = true;
  event_types = codes "email.received" ∷ [];
  timeout_seconds = pos 30;
  rate_limit_per_minute = pos 60;
  rate_limit_per_hour = pos 1000;
  circuit_breaker_enabled = true;
  circuit_breaker_threshold = pos 3;
  circuit_breaker_timeout_seconds = pos 60;
  circuit_breaker_state = state_closed;
  circuit_breaker_opened_at = none;
  health_status = health_unknown;
  last_success_at = none;
  last_failure_at = none;
  consecutive_failures = 0;
  total_success_count = 0;
  total_failure_count = 0;
  average_response_time_ms = 0;
  last_used_at = none;
}

abbrev tripped : WebhookConfiguration
tripped = record fresh {
  circuit_breaker_state = state_open;
  circuit_breaker_opened_at = some 1000;
  consecutive_failures = 3;
}

abbrev events : List Event
events =
    reported false 10 0
    ∷ reported false 20 0
    ∷ reported false 30 0
    ∷ asked 90000000000
    ∷ reported true 90000000001 50
    ∷ []

history-Phase_example : Phase (history fresh events)
history-Phase_example = history-Phase fresh events refl (when_closed refl refl refl)

-- Answers 500 twice and then 200.
abbrev receiver : Receiver
receiver = record {
  status = λ n. if leb n 2 then 500 else 200;
  is_readable = λ n. true;
  cancelled_after = λ n. false;
}

abbrev hook : Bytes → Url
hook host = record { scheme = codes "https"; host = host; hostname = host }

deliveries :
    (send_webhook receiver 5 false (some (hook (codes "example.com"))) true
      ≡ (delivered (attempt_webhook receiver 5 3), 3))
    × (send_webhook receiver 5 false (some (hook (codes "10.1.2.3"))) true
        ≡ (bad_url internal_network, 0))
unfolding send_webhook validate_webhook_url is_internal_or_private_url has_prefix has_some_prefix
    to_lower send_loop attempt_webhook should_retry finish_delivery
deliveries = (refl, refl)

send_webhook_correct_example :
    let parsed = some (hook (codes "example.com")) in
    let r = send_webhook receiver 5 false parsed true in
    ((err : UrlError) × (validate_webhook_url false parsed ≡ some err) × (r ≡ (bad_url err, 0)))
    ⊎ (((validate_webhook_url false parsed ≡ none) × (true ≡ false) × (r ≡ (not_sent, 0)))
        ⊎ ((validate_webhook_url false parsed ≡ none) × (true ≡ true) × Sending receiver 5 r))
send_webhook_correct_example =
    send_webhook_correct receiver 5 false (some (hook (codes "example.com"))) true
