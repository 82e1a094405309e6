-- ===== src/Webhook/Management/Log.antt =====
-- The audit log of webhook configurations as a store keeps it, and the requests of
-- domain/webhook_config/usecase.go with what each should leave of it.
use mailvault.Base.{inl, [], some, ◌==◌, ℕ, ◌≡◌, true, false, if◌then◌else◌, ◌⊎◌, List, ◌∷◌}
use mailvault.Webhook.Management.{
  Multipliers, Action, was_created, was_updated, was_enabled, was_disabled, was_tested, Audit,
  HealthCheck, Row, Repository, was_deleted, WebhookError,
}
use mailvault.Webhook.Management.Rows.{CreateWebhookConfigInput, UpdateWebhookConfigInput}
use mailvault.Webhook.Management.UseCase.{
  get_webhook_configuration, check_webhook_health, create_webhook_configuration,
  update_webhook_configuration, delete_webhook_configuration, enable_webhook_configuration,
  disable_webhook_configuration,
}
use mailvault.Webhook.Management.Trial.{TestRequest, Answer, test_webhook_configuration}

unfoldable pub audits_without : ℕ → List Audit → List Audit
audits_without id [] = []
audits_without id (a ∷ audits) =
    let rest = audits_without id audits in if a.webhook_config_id == id then rest else a ∷ rest

module _ (m : Multipliers) where
  -- A row of the table has the id.
  abbrev pub Holds : ℕ → List (Row m) → Type 0
  Holds id [] = ⊥
  Holds id (r ∷ rows) = (r.id ≡ id) ⊎ Holds id rows

  unfoldable pub rows_without : ℕ → List (Row m) → List (Row m)
  rows_without id [] = []
  rows_without id (r ∷ rows) =
      let rest = rows_without id rows in if r.id == id then rest else r ∷ rest

module _ (m : Multipliers) (repo : Repository m) where
  open repo use {
    World, get_by_id, get_domain, create, update, delete_row, create_audit, create_health_check,
  }

  -- A store in which each entry for a configuration of the table gets into the audit log, by itself, a
  -- deletion takes the entries of its configuration along, and a write that fails leaves all as it was.
  pub record AuditLog : Type 0 where
    pub rows : World → List (Row m)
    pub audits : World → List Audit
    pub queries :
        (w : World) (id : ℕ) (r : Row m)
        → get_by_id w id ≡ some r
        → (r.id ≡ id) × Holds m id (rows w)
    pub logs :
        (w : World) (a : Audit)
        → Holds m a.webhook_config_id (rows w)
        → (audits (create_audit w a).0 ≡ a ∷ audits w) × (rows (create_audit w a).0 ≡ rows w)
    pub creates :
        (w : World) (r : Row m)
        → (audits (create w r).0 ≡ audits w)
          × ((create w r).1 ≡ false → rows (create w r).0 ≡ rows w)
          × ((create w r).1 ≡ true → rows (create w r).0 ≡ r ∷ rows w)
    pub updates :
        (w : World) (r : Row m)
        → (audits (update w r).0 ≡ audits w)
          × ((update w r).1 ≡ false → rows (update w r).0 ≡ rows w)
          × ((id : ℕ) → Holds m id (rows w) → Holds m id (rows (update w r).0))
    pub deletes :
        (w : World) (id : ℕ)
        → ((delete_row w id).1 ≡ false
            → (rows (delete_row w id).0 ≡ rows w) × (audits (delete_row w id).0 ≡ audits w))
          × ((delete_row w id).1 ≡ true → rows (delete_row w id).0 ≡ rows_without m id (rows w))
          × ((delete_row w id).1 ≡ true → audits (delete_row w id).0 ≡ audits_without id (audits w))
    pub checks : (w : World) (c : HealthCheck) → audits (create_health_check w c).0 ≡ audits w

  pub data Request : Type 0 where
    create_request : ℕ → ℕ → CreateWebhookConfigInput m → Request
    update_request : ℕ → UpdateWebhookConfigInput m → Request
    delete_request : ℕ → ℕ → ℕ → Request
    enable_request disable_request check_request : ℕ → ℕ → ℕ → Request
    test_request : (TestRequest → Answer) → ℕ → ℕ → ℕ → Request

  unfoldable pub step : World → Request → World
  step w (create_request id now input) = (create_webhook_configuration m repo w id now input).0
  step w (update_request now input) = (update_webhook_configuration m repo w now input).0
  step w (delete_request now id user_id) = (delete_webhook_configuration m repo w now id user_id).0
  step w (enable_request now id user_id) = (enable_webhook_configuration m repo w now id user_id).0
  step w (disable_request now id user_id) =
      (disable_webhook_configuration m repo w now id user_id).0
  step w (check_request now id user_id) = (check_webhook_health m repo w now id user_id).0
  step w (test_request send now id user_id) =
      (test_webhook_configuration m repo send w now id user_id).0

  module _ (log : AuditLog) where
    open log use {rows, audits, queries, logs, creates, updates, deletes, checks}

    -- The log has one entry more, of the action, the user and the configuration.
    abbrev pub IsLogged : World → ℕ → Action → ℕ → World → Type 0
    IsLogged w user_id action id w' =
        (a : Audit) × (audits w' ≡ a ∷ audits w)
        × (a.webhook_config_id ≡ id)
        × (a.changed_by_user_id ≡ user_id)
        × (a.action ≡ action)

    -- The table and the log are as they were, or the log has the entry.
    abbrev pub IsAudited : World → ℕ → Action → ℕ → World → Type 0
    IsAudited w user_id action id w' =
        ((rows w' ≡ rows w) × (audits w' ≡ audits w)) ⊎ IsLogged w user_id action id w'

    -- The table is as it was, and the log too or with the entry of a deletion that failed, or the table
    -- lacks the configuration, and so does the log.
    abbrev pub IsErased : World → ℕ → ℕ → World → Type 0
    IsErased w user_id id w' =
        ((rows w' ≡ rows w) × IsAudited w user_id was_deleted id w')
        ⊎ ((rows w' ≡ rows_without m id (rows w)) × (audits w' ≡ audits_without id (audits w)))

    -- The configuration is not there for the user, or the log has the entry of a test.
    abbrev pub IsTested : World → ℕ → ℕ → World → Type 0
    IsTested w user_id id w' =
        ((err : WebhookError) × (get_webhook_configuration m repo w id user_id ≡ inl err)
          × (w' ≡ w))
        ⊎ ((rows w' ≡ rows w) × IsLogged w user_id was_tested id w')

    -- What each request leaves of the log.
    abbrev pub IsRecorded : World → Request → World → Type 0
    IsRecorded w (create_request id now input) w' = IsAudited w input.user_id was_created id w'
    IsRecorded w (update_request now input) w' = IsAudited w input.user_id was_updated input.id w'
    IsRecorded w (delete_request now id user_id) w' = IsErased w user_id id w'
    IsRecorded w (enable_request now id user_id) w' = IsAudited w user_id was_enabled id w'
    IsRecorded w (disable_request now id user_id) w' = IsAudited w user_id was_disabled id w'
    IsRecorded w (check_request now id user_id) w' = audits w' ≡ audits w
    IsRecorded w (test_request send now id user_id) w' = IsTested w user_id id w'
