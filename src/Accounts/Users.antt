-- ===== src/Accounts/Users.antt =====
-- The use case of users, domain/user/usecase.go.
use mailvault.Base.{
  ℕ, Bool, true, false, not, ◌||◌, ◌⊎◌, inl, inr, if◌then◌else◌, ◌==◌, Bytes, same_text,
}
use mailvault.Mailbox.{is_empty}
use mailvault.Accounts.{
  account_user, plan_free, User, Lookup, found, no_rows, query_failed, Store, is_valid_user,
}

pub data UserError : Type 0 where
  email_required provider_required id_required identity_required already_exists : UserError
  invalid_user create_failed get_failed update_failed delete_failed : UserError

pub record CreateUserInput : Type 0 where
  pub email : Bytes
  pub auth_provider : Bytes
  pub auth_provider_id : Bytes

unfoldable pub is_found : Lookup → Bool
is_found (found u) = true
is_found _ = false

unfoldable pub new_user : ℕ → ℕ → CreateUserInput → User
new_user id now req = record {
  id = id;
  email = req.email;
  auth_provider = req.auth_provider;
  auth_provider_id = req.auth_provider_id;
  account_type = account_user;
  user_plan = plan_free;
  created_at = now;
  updated_at = now;
}

unfoldable pub with_provider : ℕ → Bytes → Bytes → User → User
with_provider now provider provider_id u = record u {
  auth_provider = provider;
  auth_provider_id = provider_id;
  updated_at = now;
}

unfoldable pub written {ℓ κ} :
    {W : Type ℓ} {A : Type κ} → UserError → A → W × Bool → W × (UserError ⊎ A)
written err a (w, ok) = (w, if ok then inr a else inl err)

unfoldable pub of_lookup : Lookup → UserError ⊎ User
of_lookup (found u) = inr u
of_lookup no_rows = inl get_failed
of_lookup query_failed = inl get_failed

module _ (store : Store) where
  open store use {World, get_by_id, get_by_email, get_by_auth_provider, create, update, delete_row}

  unfoldable pub create_user : World → ℕ → ℕ → CreateUserInput → World × (UserError ⊎ User)
  unfolding is_empty is_found is_valid_user new_user written
  create_user w id now req =
      let u = new_user id now req in
      if is_empty req.email
      then (w, inl email_required)
      else if is_empty req.auth_provider
      then (w, inl provider_required)
      else if is_found (get_by_email w req.email)
      then (w, inl already_exists)
      else if not (is_valid_user u)
      then (w, inl invalid_user)
      else written create_failed u (create w u)

  unfoldable pub get_user_by_id : World → ℕ → UserError ⊎ User
  unfolding of_lookup
  get_user_by_id w id = if id == 0 then inl id_required else of_lookup (get_by_id w id)

  unfoldable pub get_user_by_email : World → Bytes → UserError ⊎ User
  unfolding of_lookup is_empty
  get_user_by_email w email =
      if is_empty email then inl email_required else of_lookup (get_by_email w email)

  -- A user found by the address, who takes the provider on.
  unfoldable pub adopt : World → ℕ → Bytes → Bytes → User → World × (UserError ⊎ User)
  unfolding with_provider written
  adopt w now provider provider_id u =
      let u' = with_provider now provider provider_id u in
      if not (same_text u.auth_provider provider) || not (same_text u.auth_provider_id provider_id)
      then written update_failed u' (update w u')
      else (w, inr u)

  unfoldable pub by_email : World → ℕ → ℕ → CreateUserInput → Lookup → World × (UserError ⊎ User)
  unfolding adopt create_user
  by_email w id now req (found u) = adopt w now req.auth_provider req.auth_provider_id u
  by_email w id now req no_rows = create_user w id now req
  by_email w id now req query_failed = create_user w id now req

  unfoldable pub by_provider : World → ℕ → ℕ → CreateUserInput → Lookup → World × (UserError ⊎ User)
  unfolding by_email
  by_provider w id now req (found u) = (w, inr u)
  by_provider w id now req no_rows = by_email w id now req (get_by_email w req.email)
  by_provider w id now req query_failed = by_email w id now req (get_by_email w req.email)

  unfoldable pub get_or_create_user_by_auth_provider :
      World → ℕ → ℕ → CreateUserInput → World × (UserError ⊎ User)
  unfolding is_empty by_provider
  get_or_create_user_by_auth_provider w id now req =
      if is_empty req.auth_provider || is_empty req.auth_provider_id || is_empty req.email
      then (w, inl identity_required)
      else by_provider w id now req (get_by_auth_provider w req.auth_provider req.auth_provider_id)

  unfoldable pub delete_user : World → ℕ → World × (UserError ⊎ Unit {0})
  unfolding written
  delete_user w id =
      if id == 0 then (w, inl id_required) else written delete_failed tt (delete_row w id)

  unfoldable pub update_user : World → ℕ → User → World × (UserError ⊎ Unit {0})
  unfolding is_valid_user written
  update_user w now u =
      if u.id == 0
      then (w, inl id_required)
      else if not (is_valid_user u)
      then (w, inl invalid_user)
      else written update_failed tt (update w (record u { updated_at = now }))
