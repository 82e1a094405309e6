-- ===== src/Domains/Changes.antt =====
-- What each request of domain/domain/usecase.go does to the store: its writes, and the rows written.
use mailvault.Base.{
  ℕ, Bool, ◌≡◌, refl, subst, true, not, ◌⊎◌, Option, none, some, List, [], ◌∷◌, ◌++◌, arith, ◌==◌,
  if_rule, Bytes, codes, is_nil, to_lower,
}
use mailvault.Mailbox.{is_empty}
use mailvault.Encryption.Keys.{hex_text, parse_public_key}
use mailvault.Domains.Names.{is_valid_domain}
use mailvault.Domains.HostName.{IsHostName, is_valid_domain_iff}
use mailvault.Domains.{
  Domain, CreateDomainInput, UpdateDomainInput, DomainError, Repository, Draws, is_valid,
  generate_api_key, generate_verification_token, new_domain, updated, outcome, create_drawn,
  create_domain, update_found, update_domain, delete_found, delete_domain, update_failed,
  create_failed,
}

-- The name is a host name in lower case, the API key has the form of those drawn, and the row is valid.
pub record IsRegistered (d : Domain) : Type 0 where
  pub name : Bytes
  pub name_valid : IsHostName name
  pub lower : d.domain ≡ to_lower name
  pub key_bytes : Bytes
  pub key_drawn : d.api_key ≡ codes "pm_" ++ hex_text key_bytes
  pub row_valid : is_valid d ≡ true

-- The same domain of the same user.
pub record IsSame (d e : Domain) : Type 0 where
  pub id : e.id ≡ d.id
  pub user_id : e.user_id ≡ d.user_id
  pub domain : e.domain ≡ d.domain
  pub api_key : e.api_key ≡ d.api_key

pub data Request : Type 0 where
  create_request : Draws → CreateDomainInput → Request
  update_request : ℕ → ℕ → UpdateDomainInput → Request
  delete_request : ℕ → ℕ → Request

new_domain-lower :
    (draws : Draws) (k t : Bytes) (req : CreateDomainInput)
    → (new_domain draws k t req).domain ≡ to_lower req.domain
unfolding new_domain
new_domain-lower draws k t req = refl

new_domain-key :
    (draws : Draws) (k t : Bytes) (req : CreateDomainInput) → (new_domain draws k t req).api_key ≡ k
unfolding new_domain
new_domain-key draws k t req = refl

module _ (repo : Repository) where
  open repo use {World, create, get_by_id, get_by_domain, update, delete_row, can_create_domain}

  unfoldable pub step : World → Request → World
  unfolding create_domain update_domain delete_domain
  step w (create_request draws req) = (create_domain repo w draws req).0
  step w (update_request now id req) = (update_domain repo w now id req).0
  step w (delete_request id user_id) = (delete_domain repo w id user_id).0

  unfoldable pub run : World → List Request → World
  unfolding step
  run w [] = w
  run w (r ∷ rs) = run (step w r) rs

  -- What a request does to the world.
  pub data Change (w : World) : Request → World → Type 0 where
    unchanged : (r : Request) → Change w r w
    created :
        (draws : Draws) (req : CreateDomainInput) (d : Domain)
        → IsRegistered d
        → Change w (create_request draws req) (create w d).0
    changed :
        (now id : ℕ) (req : UpdateDomainInput) (d : Domain)
        → get_by_id w id ≡ some d
        → is_valid (updated now req d) ≡ true
        → Change w (update_request now id req) (update w (updated now req d)).0
    deleted :
        (id : ℕ) (d : Domain)
        → get_by_id w id ≡ some d
        → Change w (delete_request id d.user_id) (delete_row w id).0

  abbrev Result : World → Request → World × (DomainError ⊎ Domain) → Type 0
  Result w r (w', result) = Change w r w'

  outcome-Result :
      (w : World) (r : Request) (err : DomainError) (d : Domain) (o : World × Bool)
      → Change w r o.0
      → Result w r (outcome err d o)
  unfolding outcome
  outcome-Result w r err d (w', ok) h = h

  create_drawn-Result :
      (w : World) (draws : Draws) (req : CreateDomainInput) (k t : Option Bytes)
      → is_valid_domain req.domain ≡ true
      → Result w
          (create_request draws req)
          (create_drawn repo w draws req (generate_api_key k) (generate_verification_token t))
  unfolding create_drawn generate_api_key generate_verification_token
  create_drawn-Result w draws req none t h = unchanged _
  create_drawn-Result w draws req (some k) none h = unchanged _
  create_drawn-Result w draws req (some k) (some t) h =
      let d = new_domain draws (codes "pm_" ++ hex_text k) (hex_text t) req in
      if_rule (Result w (create_request draws req)) (not (is_valid d)) (λ _. unchanged _)
        λ v. outcome-Result w (create_request draws req) create_failed d (create w d) (
          created draws req d (record {
            name = req.domain;
            name_valid = (is_valid_domain_iff req.domain).0 h;
            lower = new_domain-lower draws (codes "pm_" ++ hex_text k) (hex_text t) req;
            key_bytes = k;
            key_drawn = new_domain-key draws (codes "pm_" ++ hex_text k) (hex_text t) req;
            row_valid = ground (arith, v);
          }))

  create_domain-Result :
      (w : World) (draws : Draws) (req : CreateDomainInput)
      → Result w (create_request draws req) (create_domain repo w draws req)
  unfolding create_domain
  create_domain-Result w draws req =
      let P = Result w (create_request draws req) in
      if_rule P (req.user_id == 0) (λ _. unchanged _)
        λ _.
          if_rule P (is_empty req.domain) (λ _. unchanged _)
            λ _.
              if_rule P (is_empty req.public_key) (λ _. unchanged _)
                λ _.
                  if_rule P (is_nil (parse_public_key req.public_key)) (λ _. unchanged _)
                    λ _.
                      if_rule P (not (is_valid_domain req.domain)) (λ _. unchanged _)
                        λ valid.
                          if_rule P (not (can_create_domain w req.user_id)) (λ _. unchanged _)
                            λ _.
                              if_rule P (not (is_nil (get_by_domain w (to_lower req.domain))))
                                (λ _. unchanged _)
                                λ _.
                                  create_drawn-Result w draws req draws.api_key_bytes
                                    draws.token_bytes (ground (arith, valid))

  update_found-Result :
      (w : World) (now id : ℕ) (req : UpdateDomainInput) (o : Option Domain)
      → get_by_id w id ≡ o
      → Result w (update_request now id req) (update_found repo w now req o)
  unfolding update_found
  update_found-Result w now id req none h = unchanged _
  update_found-Result w now id req (some d) h =
      if_rule (Result w (update_request now id req)) (not (is_valid (updated now req d)))
        (λ _. unchanged _)
        λ v.
          outcome-Result w (update_request now id req) update_failed (updated now req d)
            (update w (updated now req d)) (changed now id req d h (ground (arith, v)))

  update_domain-Result :
      (w : World) (now id : ℕ) (req : UpdateDomainInput)
      → Result w (update_request now id req) (update_domain repo w now id req)
  unfolding update_domain
  update_domain-Result w now id req =
      if_rule (Result w (update_request now id req)) (id == 0) (λ _. unchanged _)
        (λ _. update_found-Result w now id req (get_by_id w id) refl)

  abbrev Deletion : World → ℕ → ℕ → World × Option DomainError → Type 0
  Deletion w id user_id (w', err) = Change w (delete_request id user_id) w'

  delete_found-Deletion :
      (w : World) (id user_id : ℕ) (o : Option Domain)
      → get_by_id w id ≡ o
      → Deletion w id user_id (delete_found repo w id user_id o)
  unfolding delete_found
  delete_found-Deletion w id user_id none h = unchanged _
  delete_found-Deletion w id user_id (some d) h =
      if_rule (Deletion w id user_id) (not (d.user_id == user_id)) (λ _. unchanged _)
        λ own.
          let owner : d.user_id ≡ user_id = ground (arith, own) in
          subst (λ u. Change w (delete_request id u) (delete_row w id).0) owner (deleted id d h)

  delete_domain-Deletion :
      (w : World) (id user_id : ℕ) → Deletion w id user_id (delete_domain repo w id user_id)
  unfolding delete_domain
  delete_domain-Deletion w id user_id =
      if_rule (Deletion w id user_id) (id == 0) (λ _. unchanged _)
        λ _.
          if_rule (Deletion w id user_id) (user_id == 0) (λ _. unchanged _)
            (λ _. delete_found-Deletion w id user_id (get_by_id w id) refl)

  pub step-Change : (w : World) (r : Request) → Change w r (step w r)
  unfolding step
  step-Change w (create_request draws req) = create_domain-Result w draws req
  step-Change w (update_request now id req) = update_domain-Result w now id req
  step-Change w (delete_request id user_id) = delete_domain-Deletion w id user_id
