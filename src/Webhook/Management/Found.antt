-- ===== src/Webhook/Management/Found.antt =====
-- A webhook configuration that GetWebhookConfiguration of domain/webhook_config/usecase.go finds for a user.
use mailvault.Base.{
  Option, none, some, ◌==◌, subst, arith, ℕ, ◌≡◌, refl, not, ◌⊎◌, inl, inr, if_rule,
}
use mailvault.Mailbox.{OwnedDomain}
use mailvault.Webhook.Management.{Multipliers, WebhookError, Row, Repository}
use mailvault.Webhook.Management.UseCase.{
  with_found, check_owner, check_row, get_webhook_configuration,
}
use mailvault.Webhook.Management.Log.{Holds, AuditLog}

module _ (m : Multipliers) (repo : Repository m) (log : AuditLog m repo) where
  open repo use {World, get_by_id, get_domain}
  open log use {rows, queries}

  pub found_owner :
      (user_id : ℕ) (r a : Row m) (o : Option OwnedDomain)
      → check_owner m repo user_id r o ≡ inr a
      → r ≡ a
  unfolding check_owner
  found_owner user_id r a none = λ h. absurd (ground (arith, h))
  found_owner user_id r a (some d) =
      if_rule (λ (f : WebhookError ⊎ Row m). f ≡ inr a → r ≡ a) (not (d.user_id == user_id))
        (λ _ h. absurd (ground (arith, h))) (λ _ h. cc)

  found_held :
      (w : World) (id user_id : ℕ) (a : Row m)
      → get_webhook_configuration m repo w id user_id ≡ inr a
      → (a.id ≡ id) × Holds m id (rows w)
  unfolding get_webhook_configuration check_row
  found_held w id user_id a = queried (get_by_id w id) refl
    where
      queried :
          (o : Option (Row m))
          → get_by_id w id ≡ o
          → check_row m repo w user_id o ≡ inr a
          → (a.id ≡ id) × Holds m id (rows w)
      queried none e h = absurd (ground (arith, h))
      queried (some r) e h =
          subst (λ (b : Row m). (b.id ≡ id) × Holds m id (rows w))
            (found_owner user_id r a (get_domain w r.domain_id) h) (queries w id r e)

  pub found_row :
      {B : Type 0} (P : World → Type 0) (w : World) (id user_id : ℕ)
      (rest : Row m → World × (WebhookError ⊎ B))
      → ((err : WebhookError) → get_webhook_configuration m repo w id user_id ≡ inl err → P w)
      → ((a : Row m) → a.id ≡ id → Holds m id (rows w) → P (rest a).0)
      → P (with_found m repo w (get_webhook_configuration m repo w id user_id) rest).0
  unfolding with_found
  found_row P w id user_id rest refused h =
      found (get_webhook_configuration m repo w id user_id) refl
    where
      found :
          (f : WebhookError ⊎ Row m)
          → get_webhook_configuration m repo w id user_id ≡ f
          → P (with_found m repo w f rest).0
      found (inl err) e = refused err e
      found (inr a) e = let (same, held) = found_held w id user_id a e in h a same held
