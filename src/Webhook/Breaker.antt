-- ===== src/Webhook/Breaker.antt =====
-- How the circuit breaker of domain/entities/webhook_config.go goes through its states.
use mailvault.Base.{
  ℕ, suc, ◌≡◌, refl, ◌⊎◌, inl, inr, Bool, true, false, ◌&&◌, not, List, [], ◌∷◌, Option, none, some,
  arith, if_rule, Bool-cases, ℤ, pos, negsuc, z_ltb,
}
use mailvault.Webhook.{
  CircuitBreakerState, state_closed, state_open, state_half_open, state_other, WebhookConfiguration,
}
use mailvault.Webhook.Config.{
  record_success, record_failure, is_past, can_attempt_delivery, by_state, try_half_open,
  record_webhook_result,
}

-- What happens to the breaker, at a time.
pub data Event : Type 0 where
  asked : ℕ → Event
  reported : Bool → ℕ → ℕ → Event

pub next : WebhookConfiguration → Event → WebhookConfiguration
next w (asked now) = (can_attempt_delivery now w).0
next w (reported success now ms) = record_webhook_result success now ms w

pub history : WebhookConfiguration → List Event → WebhookConfiguration
history w [] = w
history w (e ∷ es) = history (next w e) es

abbrev pub reached : WebhookConfiguration → Bool
reached w = not (z_ltb (pos w.consecutive_failures) w.circuit_breaker_threshold)

-- A closed breaker that is in use has counted fewer failures in a row than its threshold; one that is
-- open or half-open has counted as many, and knows when it opened. There is no other state.
pub data Phase (w : WebhookConfiguration) : Type 0 where
  when_closed :
      w.circuit_breaker_state ≡ state_closed
      → w.circuit_breaker_opened_at ≡ none
      → (w.circuit_breaker_enabled && reached w) ≡ false
      → Phase w
  when_opened :
      (at_time : ℕ)
      → (w.circuit_breaker_state ≡ state_open) ⊎ (w.circuit_breaker_state ≡ state_half_open)
      → w.circuit_breaker_opened_at ≡ some at_time
      → reached w ≡ true
      → Phase w

abbrev Positive : WebhookConfiguration → Type 0
Positive w = z_ltb (pos 0) w.circuit_breaker_threshold ≡ true

success-Phase :
    (now ms : ℕ) (w : WebhookConfiguration) → Positive w → Phase w → Phase (record_success now ms w)
unfolding record_success
success-Phase now ms w p (when_closed s o r) =
    when_closed (ground (arith, s)) (ground (arith, s, o)) (ground (arith, p))
success-Phase now ms w p (when_opened t (inl s) o r) =
    when_closed (ground (arith, s)) (ground (arith, s)) (ground (arith, p))
success-Phase now ms w p (when_opened t (inr s) o r) =
    when_closed (ground (arith, s)) (ground (arith, s)) (ground (arith, p))

reached-suc : (n : ℕ) (z : ℤ) → not (z_ltb (pos n) z) ≡ true → not (z_ltb (pos (suc n)) z) ≡ true
reached-suc n (pos m) h = ground (arith, h)
reached-suc n (negsuc m) h = refl

failure-Phase : (now : ℕ) (w : WebhookConfiguration) → Phase w → Phase (record_failure now w)
unfolding record_failure
failure-Phase now w (when_closed s o r) =
    elim (Bool-cases (
      w.circuit_breaker_enabled
      && not (z_ltb (pos (suc w.consecutive_failures)) w.circuit_breaker_threshold))) [
        | inl y ↦
            when_opened now (inl (ground (arith, s, y))) (ground (arith, s, y)) (ground (arith, y))
        | inr n ↦ when_closed (ground (arith, s, n)) (ground (arith, s, o, n)) n
      ]
failure-Phase now w (when_opened t (inl s) o r) =
    when_opened t (inl (ground (arith, s))) (ground (arith, s, o))
      (reached-suc w.consecutive_failures w.circuit_breaker_threshold r)
failure-Phase now w (when_opened t (inr s) o r) = elim (Bool-cases w.circuit_breaker_enabled) [
  | inl y ↦
      let more = reached-suc w.consecutive_failures w.circuit_breaker_threshold r in
      when_opened now (inl (ground (arith, s, y, more))) (ground (arith, s, y, more)) more
  | inr n ↦
      when_opened t (inr (ground (arith, s, n))) (ground (arith, n, o))
        (reached-suc w.consecutive_failures w.circuit_breaker_threshold r)
]

-- What a question leaves of the breaker: it stays, or an open one becomes half-open.
data Asked (w : WebhookConfiguration) : WebhookConfiguration × Bool → Type 0 where
  stays : (b : Bool) → Asked w (w, b)
  tries :
      w.circuit_breaker_state ≡ state_open
      → Asked w (record w { circuit_breaker_state = state_half_open }, true)

can_attempt_delivery-Asked :
    (now : ℕ) (w : WebhookConfiguration) → Asked w (can_attempt_delivery now w)
unfolding can_attempt_delivery
can_attempt_delivery-Asked now w =
    if_rule (Asked w) (not w.enabled) (λ _. stays false)
      λ _.
        if_rule (Asked w) (not w.circuit_breaker_enabled) (λ _. stays true)
          λ _. by_state-Asked w.circuit_breaker_state refl
  where
    try_half_open-Asked :
        w.circuit_breaker_state ≡ state_open → (o : Option ℕ) → Asked w (try_half_open now w o)
    try_half_open-Asked s none = stays false
    try_half_open-Asked s (some t) =
        if_rule (Asked w) (is_past now t w.circuit_breaker_timeout_seconds) (λ _. tries s)
          (λ _. stays false)

    by_state-Asked :
        (state : CircuitBreakerState)
        → w.circuit_breaker_state ≡ state
        → Asked w (by_state now w state)
    by_state-Asked state_closed s = stays true
    by_state-Asked state_open s = try_half_open-Asked s w.circuit_breaker_opened_at
    by_state-Asked state_half_open s = stays true
    by_state-Asked (state_other text) s = stays false

Asked-Phase :
    (w : WebhookConfiguration) (r : WebhookConfiguration × Bool) → Asked w r → Phase w → Phase r.0
Asked-Phase w _ (stays b) ph = ph
Asked-Phase w _ (tries s) (when_closed c o r) = absurd (ground (arith, s, c))
Asked-Phase w _ (tries s) (when_opened t _ o r) = when_opened t (inr refl) o r

next-Phase : (w : WebhookConfiguration) (e : Event) → Positive w → Phase w → Phase (next w e)
unfolding next record_webhook_result
next-Phase w (asked now) p ph =
    Asked-Phase w (can_attempt_delivery now w) (can_attempt_delivery-Asked now w) ph
next-Phase w (reported true now ms) p ph = success-Phase now ms w p ph
next-Phase w (reported false now ms) p ph = failure-Phase now w ph

Asked-settings :
    (w : WebhookConfiguration) (r : WebhookConfiguration × Bool)
    → Asked w r
    → r.0.circuit_breaker_threshold ≡ w.circuit_breaker_threshold
Asked-settings w _ (stays b) = refl
Asked-settings w _ (tries s) = refl

next_settings :
    (w : WebhookConfiguration) (e : Event)
    → (next w e).circuit_breaker_threshold ≡ w.circuit_breaker_threshold
unfolding next record_webhook_result record_success record_failure
next_settings w (asked now) =
    Asked-settings w (can_attempt_delivery now w) (can_attempt_delivery-Asked now w)
next_settings w (reported true now ms) = refl
next_settings w (reported false now ms) = refl

-- Through any reports of deliveries and questions whether to deliver, a breaker with a positive
-- threshold keeps its phase: it is closed and has counted fewer failures in a row than the threshold,
-- unless it is switched off, or it is open or half-open, has counted as many, and knows when it opened.
pub history-Phase :
    (w : WebhookConfiguration) (es : List Event)
    → z_ltb (pos 0) w.circuit_breaker_threshold ≡ true
    → Phase w
    → Phase (history w es)
unfolding history
history-Phase w [] p ph = ph
history-Phase w (e ∷ es) p ph =
    history-Phase (next w e) es (rw (next_settings w e) p) (next-Phase w e p ph)
