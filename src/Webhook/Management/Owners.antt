-- ===== src/Webhook/Management/Owners.antt =====
-- The owners of webhook configurations, for the operations of domain/webhook_config/usecase.go.
use mailvault.Base.{ℕ, ◌≡◌, ◌≢◌, refl, ap, ◌⊎◌, inl, some, ==-false}
use mailvault.Mailbox.{OwnedDomain}
use mailvault.Webhook.Management.{Multipliers, WebhookError, unauthorized, Row, Repository}
use mailvault.Webhook.Management.Rows.{UpdateWebhookConfigInput}
use mailvault.Webhook.Management.UseCase.{
  with_found, check_owner, check_row, get_webhook_configuration, update_webhook_configuration,
  delete_webhook_configuration, enable_webhook_configuration, disable_webhook_configuration,
  check_webhook_health,
}
use mailvault.Webhook.Management.Trial.{TestRequest, Answer, test_webhook_configuration}

module _ (m : Multipliers) (repo : Repository m) where
  open repo use {World, get_by_id, get_domain}

  unowned :
      (w : World) (id user_id : ℕ) (r : Row m) (d : OwnedDomain)
      → get_by_id w id ≡ some r
      → get_domain w r.domain_id ≡ some d
      → d.user_id ≢ user_id
      → get_webhook_configuration m repo w id user_id ≡ inl unauthorized
  unfolding get_webhook_configuration check_row check_owner
  unowned w id user_id r d found owned other =
      rw (found, owned, ==-false d.user_id user_id other) refl

  with_found_lem :
      {A B : Type 0} (w : World) (f : WebhookError ⊎ A) (rest : A → World × (WebhookError ⊎ B))
      → f ≡ inl unauthorized
      → with_found m repo w f rest ≡ (w, inl unauthorized)
  unfolding with_found
  with_found_lem w f rest e = ap (λ g. with_found m repo w g rest) e

  -- A user who does not own the domain of a webhook configuration is refused, and changes nothing, when
  -- he asks to update, delete, enable, disable, check or test it.
  pub stranger_refused :
      (w : World) (now id user_id : ℕ) (r : Row m) (d : OwnedDomain)
      (input : UpdateWebhookConfigInput m) (send : TestRequest → Answer)
      → get_by_id w id ≡ some r
      → get_domain w r.domain_id ≡ some d
      → d.user_id ≢ user_id
      → input.id ≡ id
      → input.user_id ≡ user_id
      → (update_webhook_configuration m repo w now input ≡ (w, inl unauthorized))
        × (delete_webhook_configuration m repo w now id user_id ≡ (w, inl unauthorized))
        × (enable_webhook_configuration m repo w now id user_id ≡ (w, inl unauthorized))
        × (disable_webhook_configuration m repo w now id user_id ≡ (w, inl unauthorized))
        × (check_webhook_health m repo w now id user_id ≡ (w, inl unauthorized))
        × (test_webhook_configuration m repo send w now id user_id ≡ (w, inl unauthorized))
  unfolding update_webhook_configuration delete_webhook_configuration enable_webhook_configuration
      disable_webhook_configuration check_webhook_health test_webhook_configuration
  stranger_refused w now id user_id r d input send found owned other i u =
      let refused = unowned w id user_id r d found owned other in
      let refused_update : get_webhook_configuration m repo w input.id input.user_id
          ≡ inl unauthorized =
        rw (i, u) refused in
      (
        with_found_lem w _ _ refused_update,
        with_found_lem w _ _ refused,
        with_found_lem w _ _ refused,
        with_found_lem w _ _ refused,
        with_found_lem w _ _ refused,
        with_found_lem w _ _ refused,
      )
