-- ===== src/Webhook/Client/Attempts.antt =====
-- The requests that SendWebhook sends, and how it ends.
use mailvault.Base.{
  ℕ, zero, suc, ◌+◌, ◌-◌, ◌≡◌, ◌≤◌, ◌<◌, refl, ◌⊎◌, inl, inr, Bool, true, false, ◌&&◌, ◌||◌, not,
  Option, none, some, arith, ltb, ◌==◌, if_rule, Bool-cases, ==_iff,
}
use mailvault.Webhook.Client.{
  WebhookResponse, should_retry, Delivery, interrupted, delivered, failed, panics, not_sent,
  bad_url, finish_delivery, Receiver, attempt_webhook, send_loop, send_webhook, send_checked_url,
  validate_webhook_url, Url, UrlError,
}

module _ (receiver : Receiver) (max_retries : ℕ) where
  open receiver use {status, cancelled_after}

  abbrev pub is_ok : ℕ → Bool
  is_ok n = (attempt_webhook receiver max_retries n).success

  -- The requests before the n-th failed with a status that is retried, and the context went on.
  abbrev pub AllRetried : ℕ → Type 0
  AllRetried n =
      (k : ℕ)
      → 1 ≤ k
      → k < n
      → (is_ok k ≡ false)
        × (should_retry max_retries (status k) k ≡ true)
        × (cancelled_after k ≡ false)

  -- How a delivery to a URL that is allowed ends, and the number of requests.
  pub data Sending : Delivery × ℕ → Type 0 where
    succeeds :
        (n : ℕ)
        → 1 ≤ n
        → n ≤ max_retries
        → AllRetried n
        → is_ok n ≡ true
        → Sending (delivered (attempt_webhook receiver max_retries n), n)
    gives_up :
        (n : ℕ)
        → 1 ≤ n
        → n ≤ max_retries
        → AllRetried n
        → is_ok n ≡ false
        → should_retry max_retries (status n) n ≡ false
        → Sending (failed (attempt_webhook receiver max_retries n), n)
    is_interrupted :
        (n : ℕ)
        → 1 ≤ n
        → n < max_retries
        → AllRetried n
        → is_ok n ≡ false
        → should_retry max_retries (status n) n ≡ true
        → cancelled_after n ≡ true
        → Sending (interrupted (attempt_webhook receiver max_retries n), n)
    has_no_attempt : max_retries ≡ 0 → Sending (panics, 0)

  retried-suc :
      (n : ℕ)
      → AllRetried n
      → is_ok n ≡ false
      → should_retry max_retries (status n) n ≡ true
      → cancelled_after n ≡ false
      → AllRetried (suc n)
  retried-suc n a o r c k l h = elim (Bool-cases (k == n)) [
    | inl e ↦ rw ((==_iff k n).0 e) (o, r, c)
    | inr ne ↦ a k l (ground (arith, h, ne))
  ]

  should_retry-lt : (n : ℕ) → should_retry max_retries (status n) n ≡ true → n < max_retries
  unfolding should_retry
  should_retry-lt n h = ground (arith, h)

  send_loop-Sending :
      (left attempt : ℕ) (last : Option WebhookResponse)
      → left + attempt ≡ suc max_retries
      → 1 ≤ attempt
      → (left ≡ 0 → (max_retries ≡ 0) × (last ≡ none))
      → AllRetried attempt
      → Sending (send_loop receiver max_retries left attempt last)
  unfolding send_loop finish_delivery attempt_webhook
  send_loop-Sending zero attempt last e l z a =
      let (m, n) = z refl in
      let first : attempt - 1 ≡ 0 = omega (arith, e, m) in rw (n, first) (has_no_attempt m)
  send_loop-Sending (suc left) attempt last e l z a =
      if_rule Sending (is_ok attempt || not (should_retry max_retries (status attempt) attempt))
        (λ stop.
          if_rule (λ d. Sending (d, attempt)) (not (is_ok attempt))
            (λ bad.
              gives_up attempt l (omega (arith, e)) a (ground (arith, bad))
                (ground (arith, stop, bad)))
            (λ good. succeeds attempt l (omega (arith, e)) a (ground (arith, good))))
        (λ go_on.
          let bad : is_ok attempt ≡ false = ground (arith, go_on) in
          let retried : should_retry max_retries (status attempt) attempt ≡ true =
            ground (arith, go_on) in
          let more = should_retry-lt attempt retried in
          if_rule Sending (ltb attempt max_retries && cancelled_after attempt)
            (λ stopped. is_interrupted attempt l more a bad retried (ground (arith, stopped)))
            (λ waited.
              send_loop-Sending left (suc attempt) _ (omega (arith, e)) (omega arith)
                (λ none_left. absurd (omega (arith, e, none_left, more)))
                (retried-suc attempt a bad retried (ground (arith, waited, more)))))

-- What becomes of a delivery: an error of the URL or the payload comes before any request. Else the
-- requests number from one to the maximum; all but the last failed with a status that is retried. The
-- delivery succeeds if the last one did, fails if it gave a status that is not retried or was the last
-- allowed, and else the context ended. With a maximum of 0 the code dereferences a response that there
-- is not.
pub send_webhook_correct :
    (receiver : Receiver) (max_retries : ℕ) (is_test_mode : Bool) (parsed : Option Url)
    (marshals : Bool)
    → let r = send_webhook receiver max_retries is_test_mode parsed marshals in
      ((err : UrlError) × (validate_webhook_url is_test_mode parsed ≡ some err)
        × (r ≡ (bad_url err, 0)))
      ⊎ (((validate_webhook_url is_test_mode parsed ≡ none)
            × (marshals ≡ false)
            × (r ≡ (not_sent, 0)))
          ⊎ ((validate_webhook_url is_test_mode parsed ≡ none)
              × (marshals ≡ true)
              × Sending receiver max_retries r))
unfolding send_webhook
send_webhook_correct receiver max_retries is_test_mode parsed marshals =
    go (validate_webhook_url is_test_mode parsed) marshals
  where
    go :
        (o : Option UrlError) (marshals : Bool)
        → let r = send_checked_url receiver max_retries o marshals in
          ((err : UrlError) × (o ≡ some err) × (r ≡ (bad_url err, 0)))
          ⊎ (((o ≡ none) × (marshals ≡ false) × (r ≡ (not_sent, 0)))
              ⊎ ((o ≡ none) × (marshals ≡ true) × Sending receiver max_retries r))
    go (some err) marshals = inl (err, refl, refl)
    go none false = inr (inl (refl, refl, refl))
    go none true = inr (
        inr (
          refl,
          refl,
          send_loop-Sending receiver max_retries max_retries 1 none (omega arith) (omega arith)
              (λ e. (e, refl)) (λ k l h. absurd (omega (arith, l, h))),
        ))
