-- ===== src/Webhook/Management/Audits.antt =====
-- What the operations of domain/webhook_config/usecase.go leave of the audit log.
use mailvault.Base.{
  ◌==◌, sym, subst, arith, Bool-cases, ℕ, ◌≡◌, refl, ap, ◌∙◌, Bool, true, false, not, if◌then◌else◌,
  ◌⊎◌, inl, inr, ◌∷◌, if_rule, is_nil,
}
use mailvault.Webhook.Management.{
  Multipliers, Action, was_created, was_updated, was_deleted, was_enabled, was_disabled, was_tested,
  WebhookError, duplicate_name, invalid_configuration, create_failed, update_failed, enable_failed,
  disable_failed, Row, Repository, is_valid,
}
use mailvault.Webhook.Management.Rows.{
  CreateWebhookConfigInput, UpdateWebhookConfigInput, new_row, updated, set_enabled, entry,
}
use mailvault.Webhook.Management.UseCase.{
  audited, with_found, check_owner, checked, check_webhook_health, create_webhook_configuration,
  update_webhook_configuration, deleted, delete_webhook_configuration, enable_webhook_configuration,
  disable_webhook_configuration,
}
use mailvault.Webhook.Management.Trial.{test_webhook_configuration}
use mailvault.Webhook.Management.Log.{
  Holds, rows_without, audits_without, AuditLog, Request, create_request, update_request,
  delete_request, enable_request, disable_request, check_request, test_request, step, IsAudited,
  IsErased, IsTested, IsRecorded,
}
use mailvault.Webhook.Management.Found.{found_owner, found_row}

module _ (m : Multipliers) (repo : Repository m) (log : AuditLog m repo) where
  open repo use {
    World, get_by_id, get_domain, create, update, delete_row, create_audit, create_health_check,
  }
  open log use {rows, audits, queries, logs, creates, updates, deletes, checks}

  abbrev Result : {A : Type 0} → World → Request m repo → World × (WebhookError ⊎ A) → Type 0
  Result w r (w', answer) = IsRecorded m repo log w r w'

  abbrev AuditResult : {A : Type 0} → World → ℕ → Action → ℕ → World × A → Type 0
  AuditResult w user_id action id (w', answer) = IsAudited m repo log w user_id action id w'

  audited-IsAudited :
      {A : Type 0} (w : World) (user_id now : ℕ) (action : Action) (id : ℕ) (err : WebhookError)
      (r : Row m) (a : A) (o : World × Bool)
      → r.id ≡ id
      → audits o.0 ≡ audits w
      → (o.1 ≡ false → rows o.0 ≡ rows w)
      → (o.1 ≡ true → Holds m r.id (rows o.0))
      → AuditResult w user_id action id (audited m repo err (entry m r user_id action now) a o)
  unfolding audited
  audited-IsAudited w user_id now action id err r a (w', true) i same kept held = inr (
    entry m r user_id action now,
    (logs w' (entry m r user_id action now) (held refl)).0
        ∙ ap (λ l. entry m r user_id action now ∷ l) same,
    i,
    refl,
    refl,
  )
  audited-IsAudited w user_id now action id err r a (w', false) i same kept held =
      inl (kept refl, same)

  updated-IsAudited :
      {A : Type 0} (w : World) (user_id now : ℕ) (action : Action) (id : ℕ) (err : WebhookError)
      (r r' : Row m) (a : A)
      → r.id ≡ id
      → Holds m id (rows w)
      → AuditResult w user_id action id
          (audited m repo err (entry m r user_id action now) a (update w r'))
  updated-IsAudited w user_id now action id err r r' a i held =
      let (same, kept, holds) = updates w r' in
      audited-IsAudited w user_id now action id err r a (update w r') i same kept
        (λ _. subst (λ n. Holds m n (rows (update w r').0)) (sym i) (holds id held))

  created-IsAudited :
      (w : World) (user_id now id : ℕ) (r : Row m)
      → r.id ≡ id
      → AuditResult w user_id was_created id
          (audited m repo create_failed (entry m r user_id was_created now) r (create w r))
  created-IsAudited w user_id now id r i =
      let (same, kept, added) = creates w r in
      audited-IsAudited w user_id now was_created id create_failed r r (create w r) i same kept
        (λ ok. subst (Holds m r.id) (sym (added ok)) (inl refl))

  create-IsRecorded :
      (w : World) (id now : ℕ) (input : CreateWebhookConfigInput m)
      → Result w (create_request id now input) (create_webhook_configuration m repo w id now input)
  unfolding create_webhook_configuration new_row
  create-IsRecorded w id now input =
      let r = new_row m id now input in
      let request = create_request id now input in
      owned (check_owner m repo input.user_id r (get_domain w input.domain_id)) (λ a e.
        subst (λ (b : Row m). Result w request (created b))
          (found_owner m repo log input.user_id r a (get_domain w input.domain_id) e)
          (if_rule (Result w request)
            (not (is_nil (repo.get_by_domain_id_and_name w input.domain_id input.name)))
            (λ _. inl (refl, refl))
            λ _.
              if_rule (Result w request) (not (is_valid m repo.url_scheme r))
                (λ _. inl (refl, refl)) (λ _. created-IsAudited w input.user_id now id r refl)))
    where
      created : Row m → World × (WebhookError ⊎ Row m)
      created r =
          if not (is_nil (repo.get_by_domain_id_and_name w input.domain_id input.name))
          then (w, inl duplicate_name)
          else if not (is_valid m repo.url_scheme r)
          then (w, inl invalid_configuration)
          else audited m repo create_failed (entry m r input.user_id was_created now) r
              (repo.create w r)

      owned :
          (f : WebhookError ⊎ Row m)
          → ((a : Row m) → f ≡ inr a → Result w (create_request id now input) (created a))
          → Result w (create_request id now input) (with_found m repo w f created)
      owned (inl err) h = inl (refl, refl)
      owned (inr a) h = h a refl

  update-IsRecorded :
      (w : World) (now : ℕ) (input : UpdateWebhookConfigInput m)
      → Result w (update_request now input) (update_webhook_configuration m repo w now input)
  unfolding update_webhook_configuration updated
  update-IsRecorded w now input =
      let request = update_request now input in
      found_row m repo log (IsRecorded m repo log w request) w input.id input.user_id _
        (λ err e. inl (refl, refl))
        λ r same held.
          let r' = updated m now input r in
          if_rule (Result w request) (not (is_valid m repo.url_scheme r')) (λ _. inl (refl, refl))
            (λ _.
              updated-IsAudited w input.user_id now was_updated input.id update_failed r' r' r' same
                held)

  switched-IsAudited :
      (w : World) (user_id now : ℕ) (action : Action) (id : ℕ) (err : WebhookError)
      (enabled off : Bool) (r : Row m)
      → r.id ≡ id
      → Holds m id (rows w)
      → AuditResult w user_id action id (
          if off
          then (w, inr tt)
          else audited m repo err
              (entry m r user_id action now)
              tt
              (update w (set_enabled m now enabled r)))
  switched-IsAudited w user_id now action id err enabled true r i held = inl (refl, refl)
  switched-IsAudited w user_id now action id err enabled false r i held =
      updated-IsAudited w user_id now action id err r (set_enabled m now enabled r) tt i held

  delete-IsErased :
      (w : World) (now id user_id : ℕ) (r : Row m)
      → r.id ≡ id
      → Holds m id (rows w)
      → IsErased m repo log w user_id id
          (deleted m repo (delete_row (create_audit w (entry m r user_id was_deleted now)).0 id)).0
  unfolding deleted audits_without
  delete-IsErased w now id user_id r i held =
      let a = entry m r user_id was_deleted now in
      let v = (create_audit w a).0 in
      let (logged, kept) = logs w a (subst (λ n. Holds m n (rows w)) (sym i) held) in
      let (failed, erased, forgotten) = deletes v id in
      let own : (r.id == id) ≡ true = ground (arith, i) in
      elim (Bool-cases (delete_row v id).1) [
        | inr lost ↦
            let (rows_kept, audits_kept) = failed lost in
            inl (rows_kept ∙ kept, inr (a, audits_kept ∙ logged, i, refl, refl))
        | inl ok ↦ inr (
          erased ok ∙ ap (rows_without m id) kept,
          forgotten ok ∙ ap (audits_without id) logged ∙ rw own refl,
        )
      ]

  checked-IsRecorded :
      (w v : World) (now : ℕ) (r : Row m) (ok : Bool)
      → audits v ≡ audits w
      → audits (checked m repo now r (v, ok)).0 ≡ audits w
  unfolding checked
  checked-IsRecorded w v now r true h = (updates v _).0 ∙ h
  checked-IsRecorded w v now r false h = h

  -- In a store whose log takes every entry and whose deletions take along the entries of what they
  -- delete: a request to create, update, enable or disable a webhook configuration leaves the table and
  -- the log as they were, or one entry more in the log, of that action, user and configuration. A test
  -- leaves such an entry unless the user has no such configuration. A request to delete one leaves the
  -- table as it was, with an entry of the failure at most, or neither it nor an entry of it, the one of
  -- the deletion included. A request to check its health leaves the log as it was, whatever it changes.
  pub step-IsRecorded :
      (w : World) (r : Request m repo) → IsRecorded m repo log w r (step m repo w r)
  unfolding step enable_webhook_configuration disable_webhook_configuration
      delete_webhook_configuration check_webhook_health test_webhook_configuration
  step-IsRecorded w (create_request id now input) = create-IsRecorded w id now input
  step-IsRecorded w (update_request now input) = update-IsRecorded w now input
  step-IsRecorded w (delete_request now id user_id) =
      found_row m repo log (IsErased m repo log w user_id id) w id user_id _
        (λ err e. inl (refl, inl (refl, refl))) (λ r. delete-IsErased w now id user_id r)
  step-IsRecorded w (enable_request now id user_id) =
      found_row m repo log (IsAudited m repo log w user_id was_enabled id) w id user_id _
        (λ err e. inl (refl, refl))
        (λ r.
          switched-IsAudited w user_id now was_enabled id enable_failed true r.delivery.enabled r)
  step-IsRecorded w (disable_request now id user_id) =
      found_row m repo log (IsAudited m repo log w user_id was_disabled id) w id user_id _
        (λ err e. inl (refl, refl))
        (λ r.
          switched-IsAudited w user_id now was_disabled id disable_failed false
            (not r.delivery.enabled) r)
  step-IsRecorded w (check_request now id user_id) =
      found_row m repo log (λ v. audits v ≡ audits w) w id user_id _ (λ err e. refl)
        (λ r i held. checked-IsRecorded w (create_health_check w _).0 now r _ (checks w _))
  step-IsRecorded w (test_request send now id user_id) =
      found_row m repo log (IsTested m repo log w user_id id) w id user_id _
        (λ err e. inl (err, e, refl))
        (λ r i held.
          let a = entry m r user_id was_tested now in
          let (logged, kept) = logs w a (subst (λ n. Holds m n (rows w)) (sym i) held) in
          inr (kept, (a, logged, i, refl, refl)))
