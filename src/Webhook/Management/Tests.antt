-- ===== src/Webhook/Management/Tests.antt =====
-- Webhook configurations in memory, and the properties at concrete requests.
use mailvault.Base.{
  ℕ, ◌≡◌, refl, subst, if_rule, true, false, inl, inr, List, [], ◌∷◌, Option, none, some, arith,
  if◌then◌else◌, ◌==◌, ltb, pos, codes, has_prefix,
}
use mailvault.Mailbox.{is_empty}
use mailvault.Webhook.Config.{is_valid_timeout, is_valid_rate_limit, is_valid_circuit_breaker}
use mailvault.Webhook.Management.{
  Multipliers, Audit, Row, Repository, auth_hmac_sha256, unauthorized, was_created, is_valid,
  is_valid_url, is_http, is_valid_method, is_valid_auth_type, is_valid_retry_config,
  is_valid_health_status, is_valid_state,
}
use mailvault.Webhook.Management.Rows.{
  CreateWebhookConfigInput, UpdateWebhookConfigInput, new_row, entry,
}
use mailvault.Webhook.Management.UseCase.{
  create_webhook_configuration, update_webhook_configuration, delete_webhook_configuration,
  enable_webhook_configuration, disable_webhook_configuration, check_webhook_health, with_found,
  check_owner, check_row, get_webhook_configuration, deleted, audited,
}
use mailvault.Webhook.Management.Trial.{
  answered, signed_by_id, apply_auth, by_auth_type, test_webhook_configuration,
}
use mailvault.Webhook.Management.Log.{
  Holds, rows_without, audits_without, AuditLog, delete_request, step, IsErased,
}
use mailvault.Webhook.Management.Audits.{step-IsRecorded}
use mailvault.Webhook.Management.Owners.{stranger_refused}

-- Multipliers in tenths.
abbrev tenths : Multipliers
tenths = record {
  F = ℕ;
  is_zero = λ x. x == 0;
  below_one = λ x. ltb x 10;
  above_five = λ x. ltb 50 x;
  zero_point_zero = 0;
  two = 20;
}

abbrev Table : Type 0
Table = List (Row tenths) × List Audit

abbrev first_with : ℕ → List (Row tenths) → Option (Row tenths)
first_with id [] = none
first_with id (r ∷ rows) = if r.id == id then some r else first_with id rows

abbrev memory : Repository tenths
memory = record {
  World = Table;
  get_by_id = λ w id. first_with id w.0;
  get_by_domain_id_and_name = λ w id name. none;
  get_domain = λ w id. some (record { id = id; user_id = 3; domain = codes "example.com" });
  create = λ w r. ((r ∷ w.0, w.1), true);
  update = λ w r. ((r ∷ w.0, w.1), true);
  delete_row = λ w id. ((rows_without tenths id w.0, audits_without id w.1), true);
  create_audit = λ w a. ((w.0, a ∷ w.1), true);
  create_health_check = λ w c. (w, true);
  url_scheme = λ url. if has_prefix url (codes "https:") then some (codes "https") else none;
}

not_false : {C : Type 0} → true ≡ false → C
not_false h = absurd (cc)

none_is_not_some : (r : Row tenths) → none ≡ some r → ⊥
none_is_not_some r h = cc

first_with_lem :
    (id : ℕ) (rows : List (Row tenths)) (r : Row tenths)
    → first_with id rows ≡ some r
    → (r.id ≡ id) × Holds tenths id rows
first_with_lem id [] r = λ h. absurd (none_is_not_some r h)
first_with_lem id (first ∷ rows) r =
    if_rule (λ o. o ≡ some r → (r.id ≡ id) × Holds tenths id (first ∷ rows)) (first.id == id)
      (λ t h.
        let same : first.id ≡ id = ground (arith, t) in
        (subst (λ o. id_of o id ≡ id) h same, inl same))
      (λ _ h. let (same, held) = first_with_lem id rows r h in (same, inr held))
  where
    id_of : Option (Row tenths) → ℕ → ℕ
    id_of none id = id
    id_of (some r) id = r.id

abbrev memory-AuditLog : AuditLog tenths memory
memory-AuditLog = record {
  rows = λ w. w.0;
  audits = λ w. w.1;
  queries = λ w id r. first_with_lem id w.0 r;
  logs = λ w a held. (refl, refl);
  creates = λ w r. (refl, λ h. not_false h, λ h. refl);
  updates = λ w r. (refl, λ h. not_false h, λ id held. inr held);
  deletes = λ w id. (λ h. not_false h, λ h. refl, λ h. refl);
  checks = λ w c. refl;
}

abbrev input : CreateWebhookConfigInput tenths
input = record {
  domain_id = 7;
  user_id = 3;
  name = codes "mine";
  description = [];
  url = codes "https://example.com/hook";
  method = [];
  auth_type = auth_hmac_sha256;
  auth_secret = codes "secret";
  auth_username = [];
  custom_headers = [];
  event_types = [];
  timeout_seconds = pos 0;
  max_retries = pos 0;
  retry_backoff_multiplier = 0;
  initial_retry_delay_seconds = pos 0;
  rate_limit_per_minute = pos 0;
  rate_limit_per_hour = pos 0;
  circuit_breaker_enabled = true;
  circuit_breaker_threshold = pos 0;
  circuit_breaker_timeout_seconds = pos 0;
}

abbrev row : Row tenths
unfolding new_row
row = new_row tenths 1 100 input

-- Its defaults make an input valid that leaves most fields at zero.
is_created :
    create_webhook_configuration tenths memory ([], []) 1 100 input
    ≡ ((row ∷ [], entry tenths row 3 was_created 100 ∷ []), inr row)
unfolding create_webhook_configuration with_found check_owner is_valid audited new_row row
    is_valid_url is_http is_valid_method is_valid_auth_type is_valid_timeout is_valid_retry_config
    is_valid_rate_limit is_valid_circuit_breaker is_valid_health_status is_valid_state is_empty
    has_prefix
is_created = refl

-- A request is signed under the public id, not under the secret.
signed : apply_auth tenths row ≡ signed_by_id 1
unfolding apply_auth by_auth_type row new_row
signed = refl

abbrev renamed : ℕ → UpdateWebhookConfigInput tenths
renamed user_id = record {
  id = 1;
  user_id = user_id;
  name = some (codes "yours");
  description = none;
  url = none;
  method = none;
  auth_type = none;
  auth_secret = none;
  auth_username = none;
  custom_headers = none;
  event_types = none;
  timeout_seconds = none;
  max_retries = none;
  retry_backoff_multiplier = none;
  initial_retry_delay_seconds = none;
  rate_limit_per_minute = none;
  rate_limit_per_hour = none;
  circuit_breaker_enabled = none;
  circuit_breaker_threshold = none;
  circuit_breaker_timeout_seconds = none;
}

abbrev stored : Table
stored = (row ∷ [], [])

step-IsRecorded_example :
    IsErased tenths memory memory-AuditLog stored 3 1
      (step tenths memory stored (delete_request 200 1 3))
step-IsRecorded_example =
    step-IsRecorded tenths memory memory-AuditLog stored (delete_request 200 1 3)

-- Of the deletion itself, no entry is left.
deletion_erased : step tenths memory stored (delete_request 200 1 3) ≡ ([], [])
unfolding step delete_webhook_configuration get_webhook_configuration check_row check_owner
    with_found deleted rows_without audits_without row new_row
deletion_erased = refl

stranger_refused_example :
    (update_webhook_configuration tenths memory stored 200 (renamed 4) ≡ (stored, inl unauthorized))
    × (delete_webhook_configuration tenths memory stored 200 1 4 ≡ (stored, inl unauthorized))
    × (enable_webhook_configuration tenths memory stored 200 1 4 ≡ (stored, inl unauthorized))
    × (disable_webhook_configuration tenths memory stored 200 1 4 ≡ (stored, inl unauthorized))
    × (check_webhook_health tenths memory stored 200 1 4 ≡ (stored, inl unauthorized))
    × (test_webhook_configuration tenths memory (λ q. answered 5 200 []) stored 200 1 4
        ≡ (stored, inl unauthorized))
unfolding row new_row
stranger_refused_example =
    stranger_refused tenths memory stored 200 1 4 row
      (record { id = 7; user_id = 3; domain = codes "example.com" }) (renamed 4)
      (λ q. answered 5 200 []) refl refl (λ e. ground (arith, e)) refl refl
