-- ===== src/Webhook/Opening.antt =====
-- When the circuit breaker of domain/entities/webhook_config.go opens, and what an open one lets through.
use mailvault.Base.{
  ℕ, suc, ◌+◌, ◌≡◌, refl, sym, ◌∙◌, ap, inl, inr, ◌<◌, true, false, not, List, [], ◌∷◌, some, arith,
  leb, if◌then◌else◌, Bool-cases, pos, All, Bytes, length,
}
use mailvault.Webhook.{state_closed, state_open, state_half_open, WebhookConfiguration}
use mailvault.Webhook.Config.{
  is_open, is_active, should_send_event, record_failure, is_past, can_attempt_delivery, by_state,
  try_half_open, filter_for_event,
}

-- A question to an open breaker, switched on and with a known time of opening, is answered with a
-- delivery exactly when its timeout is past, and then it becomes half-open; else nothing changes.
pub open_breaker_asked :
    (now opened : ℕ) (w : WebhookConfiguration)
    → w.enabled ≡ true
    → w.circuit_breaker_enabled ≡ true
    → w.circuit_breaker_state ≡ state_open
    → w.circuit_breaker_opened_at ≡ some opened
    → can_attempt_delivery now w ≡ (
        if is_past now opened w.circuit_breaker_timeout_seconds
        then (record w { circuit_breaker_state = state_half_open }, true)
        else (w, false))
unfolding can_attempt_delivery
open_breaker_asked now opened w e c s o =
    ap
      (λ b.
        if not b
        then (w, false)
        else if not w.circuit_breaker_enabled
        then (w, true)
        else by_state now w w.circuit_breaker_state)
      e
    ∙ ap (λ b. if not b then (w, true) else by_state now w w.circuit_breaker_state) c
    ∙ ap (by_state now w) s
    ∙ ap (try_half_open now w) o

-- However late it is, the filter for an event leaves out every webhook whose breaker is open: it never
-- asks it whether its timeout is past.
pub open_breakers_left_out :
    (now : ℕ) (event_type : Bytes) (ws : List WebhookConfiguration)
    → All (λ w. w.circuit_breaker_state ≡ state_open) ws
    → filter_for_event now event_type ws ≡ []
unfolding filter_for_event should_send_event is_active
open_breakers_left_out now event_type [] a = refl
open_breakers_left_out now event_type (w ∷ ws) a =
    ground (arith, a.0, open_breakers_left_out now event_type ws a.1)

pub fail_all : WebhookConfiguration → List ℕ → WebhookConfiguration
fail_all w [] = w
fail_all w (t ∷ ts) = fail_all (record_failure t w) ts

fail_all-open :
    (w : WebhookConfiguration) (ts : List ℕ)
    → w.circuit_breaker_state ≡ state_open
    → (fail_all w ts).circuit_breaker_state ≡ state_open
unfolding fail_all record_failure
fail_all-open w [] s = s
fail_all-open w (t ∷ ts) s = fail_all-open (record_failure t w) ts (ground (arith, s))

record_failure-trips :
    (m t : ℕ) (w : WebhookConfiguration)
    → w.circuit_breaker_threshold ≡ pos m
    → w.circuit_breaker_enabled ≡ true
    → w.circuit_breaker_state ≡ state_closed
    → (record_failure t w).circuit_breaker_state
      ≡ (if leb m (suc w.consecutive_failures) then state_open else state_closed)
unfolding record_failure
record_failure-trips m t w h c s = ground (arith, h, c, s)

record_failure_keeps :
    (t : ℕ) (w : WebhookConfiguration)
    → ((record_failure t w).circuit_breaker_threshold ≡ w.circuit_breaker_threshold)
      × ((record_failure t w).circuit_breaker_enabled ≡ w.circuit_breaker_enabled)
      × ((record_failure t w).consecutive_failures ≡ suc w.consecutive_failures)
unfolding record_failure
record_failure_keeps t w = (refl, refl, refl)

-- After failures in a row from a closed breaker that is switched on, it is open exactly when they
-- reach, with those counted before, the threshold, which they had not reached before.
pub trips_at_threshold :
    (m : ℕ) (w : WebhookConfiguration) (ts : List ℕ)
    → w.circuit_breaker_threshold ≡ pos m
    → w.circuit_breaker_enabled ≡ true
    → w.circuit_breaker_state ≡ state_closed
    → w.consecutive_failures < m
    → is_open (fail_all w ts).circuit_breaker_state ≡ leb m (w.consecutive_failures + length ts)
unfolding fail_all
trips_at_threshold m w [] h c s l = ground (arith, s, l)
trips_at_threshold m w (t ∷ ts) h c s l =
    let step = record_failure-trips m t w h c s in
    elim (Bool-cases (leb m (suc w.consecutive_failures))) [
      | inl y ↦
          ap is_open (fail_all-open (record_failure t w) ts (step ∙ rw y refl))
          ∙ sym (ground (arith, y))
      | inr n ↦
          let same = record_failure_keeps t w in
          trips_at_threshold m (record_failure t w) ts (same.0 ∙ h) (same.1 ∙ c) (step ∙ rw n refl)
            (ground (arith, same.2, n))
          ∙ ap (leb m) (omega (arith, same.2))
    ]
