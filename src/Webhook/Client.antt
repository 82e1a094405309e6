-- ===== src/Webhook/Client.antt =====
-- SendWebhook of internal/webhook/client.go, with the checks of the URL and the rule for retries.
pub mod Attempts
use mailvault.Base.{
  ℕ, zero, suc, ◌+◌, ◌-◌, ◌≡◌, ◌≤◌, ◌<◌, refl, sym, ◌∙◌, ap, ◌⊎◌, inl, inr, Bool, true, false, ◌&&◌,
  ◌||◌, not, List, [], ◌∷◌, ◌++◌, Option, none, some, arith, ltb, leb, ◌==◌, if◌then◌else◌, if_rule,
  Bool-cases, Bytes, codes, same_text, has_prefix, to_lower, is_nil,
}

-- What a request gives: its status code, 0 where none came, and whether it succeeded.
pub record WebhookResponse : Type 0 where
  pub status_code : ℕ
  pub attempt : ℕ
  pub success : Bool

-- The parsed URL, as far as it is looked at.
pub record Url : Type 0 where
  pub scheme : Bytes
  pub host : Bytes
  pub hostname : Bytes

abbrev private_prefixes : List Bytes
private_prefixes =
    codes "192.168."
    ∷ codes "10."
    ∷ codes "172.16."
    ∷ codes "172.17."
    ∷ codes "172.18."
    ∷ codes "172.19."
    ∷ codes "172.20."
    ∷ codes "172.21."
    ∷ codes "172.22."
    ∷ codes "172.23."
    ∷ codes "172.24."
    ∷ codes "172.25."
    ∷ codes "172.26."
    ∷ codes "172.27."
    ∷ codes "172.28."
    ∷ codes "172.29."
    ∷ codes "172.30."
    ∷ codes "172.31."
    ∷ []

unfoldable pub has_some_prefix : Bytes → List Bytes → Bool
has_some_prefix s [] = false
has_some_prefix s (p ∷ ps) = has_prefix s p || has_some_prefix s ps

unfoldable pub is_internal_or_private_url : Url → Bool
is_internal_or_private_url url =
    let host = to_lower url.hostname in
    if same_text host (codes "localhost")
      || same_text host (codes "127.0.0.1")
      || same_text host (codes "::1")
    then true
    else if has_some_prefix host private_prefixes
    then true
    else if has_prefix host (codes "169.254.")
    then true
    else false

pub data UrlError : Type 0 where
  invalid_url unsupported_scheme missing_host internal_network : UrlError

check_url : Bool → Option Url → Option UrlError
check_url is_test_mode none = some invalid_url
check_url is_test_mode (some url) =
    if not (same_text url.scheme (codes "http")) && not (same_text url.scheme (codes "https"))
    then some unsupported_scheme
    else if is_nil_text url.host
    then some missing_host
    else if not is_test_mode && is_internal_or_private_url url
    then some internal_network
    else none
  where
    is_nil_text : Bytes → Bool
    is_nil_text [] = true
    is_nil_text (c ∷ s) = false

-- validateWebhookURL on what url.Parse makes of the text; none is nil.
unfoldable pub validate_webhook_url : Bool → Option Url → Option UrlError
unfolding check_url
validate_webhook_url is_test_mode parsed = check_url is_test_mode parsed

unfoldable pub should_retry : ℕ → ℕ → ℕ → Bool
should_retry max_retries status_code attempt =
    if leb max_retries attempt
    then false
    else status_code == 0
      || status_code == 408
      || status_code == 429
      || status_code == 500
      || status_code == 502
      || status_code == 503
      || status_code == 504

-- A 2xx status is a success.
abbrev pub is_success : ℕ → Bool
is_success code = leb 200 code && ltb code 300

-- How SendWebhook ends: with an error before any request, by the context, with the last response and
-- whether it is an error, or by dereferencing the response that there is not.
pub data Delivery : Type 0 where
  not_sent : Delivery
  bad_url : UrlError → Delivery
  interrupted : WebhookResponse → Delivery
  delivered : WebhookResponse → Delivery
  failed : WebhookResponse → Delivery
  panics : Delivery

unfoldable pub finish_delivery : Option WebhookResponse → Delivery
finish_delivery none = panics
finish_delivery (some r) = if not r.success then failed r else delivered r

-- The status code that the receiver sends to the n-th request, 0 if none comes, whether the body can
-- be read to its end, and whether the context ends while the client waits after it.
pub record Receiver : Type 0 where
  pub status : ℕ → ℕ
  pub is_readable : ℕ → Bool
  pub cancelled_after : ℕ → Bool

module _ (receiver : Receiver) (max_retries : ℕ) where
  open receiver use {status, is_readable, cancelled_after}

  -- attemptWebhook, for a request that can be made.
  unfoldable pub attempt_webhook : ℕ → WebhookResponse
  attempt_webhook attempt = record {
    status_code = status attempt;
    attempt = attempt;
    success = is_readable attempt && is_success (status attempt);
  }

  -- The loop, with `left` rounds left, that is max_retries + 1 - attempt; `last` is the last response.
  -- The result has the number of requests sent.
  unfoldable pub send_loop : ℕ → ℕ → Option WebhookResponse → Delivery × ℕ
  send_loop zero attempt last = (finish_delivery last, attempt - 1)
  send_loop (suc left) attempt last =
      let response = attempt_webhook attempt in
      let rest = send_loop left (suc attempt) (some response) in
      if response.success || not (should_retry max_retries response.status_code attempt)
      then (finish_delivery (some response), attempt)
      else if ltb attempt max_retries && cancelled_after attempt
      then (interrupted response, attempt)
      else rest

send_checked_url : Receiver → ℕ → Option UrlError → Bool → Delivery × ℕ
send_checked_url receiver max_retries (some err) marshals = (bad_url err, 0)
send_checked_url receiver max_retries none marshals =
    if not marshals then (not_sent, 0) else send_loop receiver max_retries max_retries 1 none

-- SendWebhook to a receiver, by a client with its maximum of attempts, on a parsed URL and a payload that
-- json.Marshal takes or not.
unfoldable pub send_webhook : Receiver → ℕ → Bool → Option Url → Bool → Delivery × ℕ
unfolding send_checked_url
send_webhook receiver max_retries is_test_mode parsed marshals =
    send_checked_url receiver max_retries (validate_webhook_url is_test_mode parsed) marshals
