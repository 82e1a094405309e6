-- ===== src/Webhook/Management/UseCase.antt =====
-- The operations of domain/webhook_config/usecase.go on webhook configurations, over its repositories.
use mailvault.Base.{
  ℕ, Bool, true, false, not, ◌⊎◌, inl, inr, Option, none, some, ◌==◌, if◌then◌else◌, is_nil,
}
use mailvault.Mailbox.{OwnedDomain}
use mailvault.Webhook.{health_healthy}
use mailvault.Webhook.Management.{
  Multipliers, was_created, was_updated, was_deleted, was_enabled, was_disabled, Audit, HealthCheck,
  WebhookError, config_not_found, domain_not_found, unauthorized, duplicate_name,
  invalid_configuration, create_failed, update_failed, delete_failed, enable_failed, disable_failed,
  health_check_failed, Row, Repository, is_valid,
}
use mailvault.Webhook.Management.Rows.{
  CreateWebhookConfigInput, UpdateWebhookConfigInput, new_row, updated, set_enabled, set_healthy,
  entry,
}

module _ (m : Multipliers) (repo : Repository m) where
  open repo use {
    World, get_by_id, get_by_domain_id_and_name, get_domain, create, update, delete_row,
    create_audit, create_health_check, url_scheme,
  }

  -- What follows a write: an entry in the audit log, an error of which is only logged.
  unfoldable pub audited {ℓ} :
      {A : Type ℓ} → WebhookError → Audit → A → World × Bool → World × (WebhookError ⊎ A)
  audited err audit a (w, ok) = if ok then ((create_audit w audit).0, inr a) else (w, inl err)

  -- A call with an error check, in a world that it leaves.
  unfoldable pub with_found {ℓ κ} :
      {A : Type ℓ} {B : Type κ}
      → World
      → WebhookError ⊎ A
      → (A → World × (WebhookError ⊎ B))
      → World × (WebhookError ⊎ B)
  with_found w (inl err) rest = (w, inl err)
  with_found w (inr a) rest = rest a

  unfoldable pub check_owner {ℓ} : {A : Type ℓ} → ℕ → A → Option OwnedDomain → WebhookError ⊎ A
  check_owner user_id a none = inl domain_not_found
  check_owner user_id a (some d) = if not (d.user_id == user_id) then inl unauthorized else inr a

  unfoldable pub check_row : World → ℕ → Option (Row m) → WebhookError ⊎ Row m
  unfolding check_owner
  check_row w user_id none = inl config_not_found
  check_row w user_id (some r) = check_owner user_id r (get_domain w r.domain_id)

  unfoldable pub get_webhook_configuration : World → ℕ → ℕ → WebhookError ⊎ Row m
  unfolding check_row
  get_webhook_configuration w id user_id = check_row w user_id (get_by_id w id)

  unfoldable pub create_webhook_configuration :
      World → ℕ → ℕ → CreateWebhookConfigInput m → World × (WebhookError ⊎ Row m)
  unfolding audited with_found check_owner is_valid new_row
  create_webhook_configuration w id now input =
      with_found w
        (check_owner input.user_id (new_row m id now input) (get_domain w input.domain_id))
        λ r.
          if not (is_nil (get_by_domain_id_and_name w input.domain_id input.name))
          then (w, inl duplicate_name)
          else if not (is_valid m url_scheme r)
          then (w, inl invalid_configuration)
          else audited create_failed (entry m r input.user_id was_created now) r (create w r)

  unfoldable pub update_webhook_configuration :
      World → ℕ → UpdateWebhookConfigInput m → World × (WebhookError ⊎ Row m)
  unfolding audited with_found get_webhook_configuration is_valid updated
  update_webhook_configuration w now input =
      with_found w (get_webhook_configuration w input.id input.user_id) λ r.
        let r' = updated m now input r in
        if not (is_valid m url_scheme r')
        then (w, inl invalid_configuration)
        else audited update_failed (entry m r' input.user_id was_updated now) r' (update w r')

  -- The end of a deletion, after its entry in the audit log.
  unfoldable pub deleted : World × Bool → World × (WebhookError ⊎ Unit {0})
  deleted (w, ok) = (w, if ok then inr tt else inl delete_failed)

  unfoldable pub delete_webhook_configuration :
      World → ℕ → ℕ → ℕ → World × (WebhookError ⊎ Unit {0})
  unfolding with_found get_webhook_configuration deleted
  delete_webhook_configuration w now id user_id =
      with_found w (get_webhook_configuration w id user_id)
        λ r. deleted (delete_row (create_audit w (entry m r user_id was_deleted now)).0 id)

  unfoldable pub enable_webhook_configuration :
      World → ℕ → ℕ → ℕ → World × (WebhookError ⊎ Unit {0})
  unfolding audited with_found get_webhook_configuration set_enabled
  enable_webhook_configuration w now id user_id =
      with_found w (get_webhook_configuration w id user_id) λ r.
        if r.delivery.enabled
        then (w, inr tt)
        else audited enable_failed (entry m r user_id was_enabled now) tt
            (update w (set_enabled m now true r))

  unfoldable pub disable_webhook_configuration :
      World → ℕ → ℕ → ℕ → World × (WebhookError ⊎ Unit {0})
  unfolding audited with_found get_webhook_configuration set_enabled
  disable_webhook_configuration w now id user_id =
      with_found w (get_webhook_configuration w id user_id) λ r.
        if not r.delivery.enabled
        then (w, inr tt)
        else audited disable_failed (entry m r user_id was_disabled now) tt
            (update w (set_enabled m now false r))

  -- The health check that is made: it asks no one.
  unfoldable pub health_check : Row m → ℕ → HealthCheck
  health_check r now = record {
    webhook_config_id = r.id;
    status = health_healthy;
    response_time_ms = 100;
    response_status_code = 200;
    checked_at = now;
  }

  unfoldable pub checked : ℕ → Row m → World × Bool → World × (WebhookError ⊎ HealthCheck)
  unfolding health_check set_healthy
  checked now r (w, ok) =
      if ok
      then ((update w (set_healthy m now r)).0, inr (health_check r now))
      else (w, inl health_check_failed)

  unfoldable pub check_webhook_health : World → ℕ → ℕ → ℕ → World × (WebhookError ⊎ HealthCheck)
  unfolding with_found get_webhook_configuration checked
  check_webhook_health w now id user_id =
      with_found w (get_webhook_configuration w id user_id)
        λ r. checked now r (create_health_check w (health_check r now))
