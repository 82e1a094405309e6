-- ===== src/Domains.antt =====
-- The domains of users: domain/domain/usecase.go over its repository and a limiter, which are
-- parameters. Texts are ASCII; ids are numbers, 0 the nil UUID.
use mailvault.Base.{
  ℕ, Bool, true, false, not, ◌&&◌, ◌⊎◌, inl, inr, Option, none, some, List, [], ◌∷◌, ◌++◌,
  if◌then◌else◌, ◌==◌, Bytes, codes, is_nil, to_lower,
}
use mailvault.Validation.{
  VerificationStatus, status_pending, status_validating, status_verified, status_failed,
  status_expired, status_other,
}
use mailvault.Mailbox.{is_empty}
use mailvault.Encryption.Keys.{hex_text, parse_public_key}
use mailvault.Domains.Names.{is_valid_domain}
pub mod Names
pub mod HostName
pub mod Rows
pub mod Changes
pub mod Registry
mod Tests

-- entities.Domain, without its webhook configuration, which is handed on, and the fields of a
-- validation, which a creation leaves at zero.
pub record Domain : Type 0 where
  pub id : ℕ
  pub user_id : ℕ
  pub domain : Bytes
  pub public_key : Bytes
  pub api_key : Bytes
  pub storage_enabled : Bool
  pub auto_create_address : Bool
  pub verification_status : VerificationStatus
  pub verification_token : Bytes
  pub created_at : ℕ
  pub updated_at : ℕ

pub record CreateDomainInput : Type 0 where
  pub user_id : ℕ
  pub domain : Bytes
  pub public_key : Bytes
  pub storage_enabled : Option Bool
  pub auto_create_address : Option Bool

pub record UpdateDomainInput : Type 0 where
  pub public_key : Option Bytes
  pub storage_enabled : Option Bool
  pub auto_create_address : Option Bool

-- The errors, by the text that the code gives them; a limiter has one.
pub data DomainError : Type 0 where
  id_required user_id_required domain_required public_key_required api_key_required : DomainError
  invalid_public_key invalid_format invalid_data unauthorized : DomainError
  not_allowed already_exists api_key_failed token_failed : DomainError
  create_failed get_failed update_failed delete_failed : DomainError

-- The repository and the limiter. A query gives none for an error, a missing row being one; the
-- Boolean of a write is whether it went well.
pub record Repository : Type 1 where
  pub World : Type 0
  pub create : World → Domain → World × Bool
  pub get_by_id : World → ℕ → Option Domain
  pub get_by_domain : World → Bytes → Option Domain
  pub get_by_api_key : World → Bytes → Option Domain
  pub get_by_user_id : World → ℕ → Option (List Domain)
  pub update : World → Domain → World × Bool
  pub delete_row : World → ℕ → World × Bool
  pub can_create_domain : World → ℕ → Bool

-- The random bytes drawn for a creation, the id and the time.
pub record Draws : Type 0 where
  pub api_key_bytes : Option Bytes
  pub token_bytes : Option Bytes
  pub new_id : ℕ
  pub now : ℕ

-- VerificationStatus.IsValid
unfoldable pub is_valid_status : VerificationStatus → Bool
is_valid_status (status_other s) = false
is_valid_status _ = true

-- Domain.IsValid
unfoldable pub is_valid : Domain → Bool
unfolding is_empty is_valid_status
is_valid d =
    not (is_empty d.domain)
    && not (is_empty d.public_key)
    && not (is_empty d.api_key)
    && not (d.user_id == 0)
    && is_valid_status d.verification_status

-- A pointer that replaces a default.
abbrev pub given_or {ℓ} : {A : Type ℓ} → Option A → A → A
given_or none d = d
given_or (some a) d = a

-- generateAPIKey and generateVerificationToken
unfoldable pub generate_api_key : Option Bytes → Option Bytes
generate_api_key none = none
generate_api_key (some k) = some (codes "pm_" ++ hex_text k)

unfoldable pub generate_verification_token : Option Bytes → Option Bytes
generate_verification_token none = none
generate_verification_token (some k) = some (hex_text k)

unfoldable pub new_domain : Draws → Bytes → Bytes → CreateDomainInput → Domain
new_domain draws api_key token req = record {
  id = draws.new_id;
  user_id = req.user_id;
  domain = to_lower req.domain;
  public_key = req.public_key;
  api_key = api_key;
  storage_enabled = given_or req.storage_enabled true;
  auto_create_address = given_or req.auto_create_address false;
  verification_status = status_pending;
  verification_token = token;
  created_at = draws.now;
  updated_at = draws.now;
}

unfoldable pub updated : ℕ → UpdateDomainInput → Domain → Domain
updated now req d = record d {
  public_key = given_or req.public_key d.public_key;
  storage_enabled = given_or req.storage_enabled d.storage_enabled;
  auto_create_address = given_or req.auto_create_address d.auto_create_address;
  updated_at = now;
}

-- A write, with the error for a failed one.
unfoldable pub outcome {ℓ} :
    {W : Type ℓ} {A : Type 0} → DomainError → A → W × Bool → W × (DomainError ⊎ A)
outcome err a (w, ok) = (w, if ok then inr a else inl err)

-- A query, with the error for a failed one.
unfoldable pub found_or {ℓ} : {A : Type ℓ} → DomainError → Option A → DomainError ⊎ A
found_or err none = inl err
found_or err (some a) = inr a

module _ (repo : Repository) where
  open repo use {
    World, create, get_by_id, get_by_domain, get_by_api_key, get_by_user_id, update, delete_row,
    can_create_domain,
  }

  -- The end of CreateDomain, with the two texts drawn.
  unfoldable pub create_drawn :
      World
      → Draws
      → CreateDomainInput
      → Option Bytes
      → Option Bytes
      → World × (DomainError ⊎ Domain)
  unfolding is_valid new_domain outcome
  create_drawn w draws req none token = (w, inl api_key_failed)
  create_drawn w draws req (some api_key) none = (w, inl token_failed)
  create_drawn w draws req (some api_key) (some token) =
      let d = new_domain draws api_key token req in
      if not (is_valid d) then (w, inl invalid_data) else outcome create_failed d (create w d)

  unfoldable pub create_domain : World → Draws → CreateDomainInput → World × (DomainError ⊎ Domain)
  unfolding is_empty parse_public_key is_valid_domain to_lower generate_api_key
      generate_verification_token
  create_domain w draws req =
      if req.user_id == 0
      then (w, inl user_id_required)
      else if is_empty req.domain
      then (w, inl domain_required)
      else if is_empty req.public_key
      then (w, inl public_key_required)
      else if is_nil (parse_public_key req.public_key)
      then (w, inl invalid_public_key)
      else if not (is_valid_domain req.domain)
      then (w, inl invalid_format)
      else if not (can_create_domain w req.user_id)
      then (w, inl not_allowed)
      else if not (is_nil (get_by_domain w (to_lower req.domain)))
      then (w, inl already_exists)
      else create_drawn w draws req (generate_api_key draws.api_key_bytes)
          (generate_verification_token draws.token_bytes)

  unfoldable pub get_domain_by_id : World → ℕ → DomainError ⊎ Domain
  unfolding found_or
  get_domain_by_id w id = if id == 0 then inl id_required else found_or get_failed (get_by_id w id)

  unfoldable pub get_domains_by_user_id : World → ℕ → DomainError ⊎ List Domain
  unfolding found_or
  get_domains_by_user_id w user_id =
      if user_id == 0 then inl user_id_required else found_or get_failed (get_by_user_id w user_id)

  unfoldable pub get_domain_by_api_key : World → Bytes → DomainError ⊎ Domain
  unfolding found_or is_empty
  get_domain_by_api_key w api_key =
      if is_empty api_key
      then inl api_key_required
      else found_or get_failed (get_by_api_key w api_key)

  unfoldable pub get_domain_by_name : World → Bytes → DomainError ⊎ Domain
  unfolding found_or is_empty to_lower
  get_domain_by_name w name =
      if is_empty name
      then inl domain_required
      else found_or get_failed (get_by_domain w (to_lower name))

  unfoldable pub update_found :
      World → ℕ → UpdateDomainInput → Option Domain → World × (DomainError ⊎ Domain)
  unfolding updated is_valid outcome
  update_found w now req none = (w, inl get_failed)
  update_found w now req (some d) =
      let d' = updated now req d in
      if not (is_valid d') then (w, inl invalid_data) else outcome update_failed d' (update w d')

  unfoldable pub update_domain : World → ℕ → ℕ → UpdateDomainInput → World × (DomainError ⊎ Domain)
  unfolding update_found
  update_domain w now id req =
      if id == 0 then (w, inl id_required) else update_found w now req (get_by_id w id)

  -- The result of a deletion is its error, if it has one.
  unfoldable pub delete_found : World → ℕ → ℕ → Option Domain → World × Option DomainError
  delete_found w id user_id none = (w, some get_failed)
  delete_found w id user_id (some d) =
      let (w', ok) = delete_row w id in
      if not (d.user_id == user_id)
      then (w, some unauthorized)
      else (w', if ok then none else some delete_failed)

  unfoldable pub delete_domain : World → ℕ → ℕ → World × Option DomainError
  unfolding delete_found
  delete_domain w id user_id =
      if id == 0
      then (w, some id_required)
      else if user_id == 0
      then (w, some user_id_required)
      else delete_found w id user_id (get_by_id w id)
