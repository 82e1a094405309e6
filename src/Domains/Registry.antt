-- ===== src/Domains/Registry.antt =====
-- The table of domains under any sequence of the requests of domain/domain/usecase.go.
use mailvault.Base.{
  ℕ, ◌≡◌, ◌≢◌, refl, sym, ap, subst, ◌∙◌, true, ◌⊎◌, inl, inr, some, List, [], ◌∷◌, All,
}
use mailvault.Domains.Changes.{
  IsRegistered, IsSame, Request, delete_request, step, run, Change, unchanged, created, changed,
  deleted, step-Change,
}
use mailvault.Domains.Rows.{
  Has, replaced, removed, All-replaced, All-removed, Has-All, Has-replaced, Has-removed,
}
use mailvault.Domains.{Domain, UpdateDomainInput, Repository, is_valid, updated}

-- A repository whose worlds have a table, with a primary key, that only the three writes change: each
-- does what it says to one row, or nothing.
pub record Table (repo : Repository) : Type 0 where
  pub rows : repo.World → List Domain
  pub creates :
      (w : repo.World) (d : Domain)
      → (rows (repo.create w d).0 ≡ rows w) ⊎ (rows (repo.create w d).0 ≡ d ∷ rows w)
  pub updates :
      (w : repo.World) (d : Domain)
      → (rows (repo.update w d).0 ≡ rows w) ⊎ (rows (repo.update w d).0 ≡ replaced d (rows w))
  pub deletes :
      (w : repo.World) (id : ℕ)
      → (rows (repo.delete_row w id).0 ≡ rows w)
        ⊎ (rows (repo.delete_row w id).0 ≡ removed id (rows w))
  pub queries :
      (w : repo.World) (id : ℕ) (d : Domain)
      → repo.get_by_id w id ≡ some d
      → (d.id ≡ id)
        × ((e : Domain) → Has (λ x. e ≡ x) (rows w) → e.id ≡ id → e ≡ d)
        × Has (λ x. d ≡ x) (rows w)

updated-Same : (now : ℕ) (req : UpdateDomainInput) (d : Domain) → IsSame d (updated now req d)
unfolding updated
updated-Same now req d = record { id = refl; user_id = refl; domain = refl; api_key = refl }

IsSame-trans : (d e f : Domain) → IsSame d e → IsSame e f → IsSame d f
IsSame-trans d e f s t = record {
  id = t.id ∙ s.id;
  user_id = t.user_id ∙ s.user_id;
  domain = t.domain ∙ s.domain;
  api_key = t.api_key ∙ s.api_key;
}

deletions_eq : (i j u v : ℕ) → i ≡ j → u ≡ v → delete_request i u ≡ delete_request j v
deletions_eq i j u v p q = ap (λ x. delete_request x u) p ∙ ap (λ x. delete_request j x) q

updated-Registered :
    (now : ℕ) (req : UpdateDomainInput) (d : Domain)
    → is_valid (updated now req d) ≡ true
    → IsRegistered d
    → IsRegistered (updated now req d)
updated-Registered now req d v r =
    let same = updated-Same now req d in
    record {
      name = r.name;
      name_valid = r.name_valid;
      lower = same.domain ∙ r.lower;
      key_bytes = r.key_bytes;
      key_drawn = same.api_key ∙ r.key_drawn;
      row_valid = v;
    }

module _ (repo : Repository) (table : Table repo) where
  open repo use {World, get_by_id, create, update, delete_row}
  open table use {rows, creates, updates, deletes, queries}

  change-Registered :
      (w w' : World) (r : Request)
      → Change repo w r w'
      → All IsRegistered (rows w)
      → All IsRegistered (rows w')
  change-Registered w w' r (unchanged _) a = a
  change-Registered w w' r (created draws req d reg) a = elim (creates w d) [
    | inl e ↦ subst (All IsRegistered) (sym e) a
    | inr e ↦ subst (All IsRegistered) (sym e) (reg, a)
  ]
  change-Registered w w' r (changed now id req d h v) a =
      let (_, _, row) = queries w id d h in
      let reg = updated-Registered now req d v (Has-All IsRegistered d (rows w) a row) in
      elim (updates w (updated now req d)) [
        | inl e ↦ subst (All IsRegistered) (sym e) a
        | inr e ↦ subst (All IsRegistered) (sym e) (All-replaced IsRegistered _ (rows w) reg a)
      ]
  change-Registered w w' r (deleted id d h) a = elim (deletes w id) [
    | inl e ↦ subst (All IsRegistered) (sym e) a
    | inr e ↦ subst (All IsRegistered) (sym e) (All-removed IsRegistered id (rows w) a)
  ]

  -- The rows of a table, if they are registered, stay so under any sequence of requests to create,
  -- update and delete domains: their names are host names in lower case, their API keys have the
  -- form of those drawn and their fields are valid. The table is one that only the three writes of
  -- the repository change, each in one row or not at all.
  pub history-Registered :
      (w : World) (rs : List Request)
      → All IsRegistered (rows w)
      → All IsRegistered (rows (run repo w rs))
  unfolding run
  history-Registered w [] a = a
  history-Registered w (r ∷ rs) a =
      history-Registered (step repo w r) rs
        (change-Registered w (step repo w r) r (step-Change repo w r) a)

  module _ (d : Domain) where
    change-Same :
        (w w' : World) (r : Request)
        → Change repo w r w'
        → r ≢ delete_request d.id d.user_id
        → Has (IsSame d) (rows w)
        → Has (IsSame d) (rows w')
    change-Same w w' r (unchanged _) n a = a
    change-Same w w' r (created draws req new reg) n a = elim (creates w new) [
      | inl e ↦ subst (Has (IsSame d)) (sym e) a
      | inr e ↦ subst (Has (IsSame d)) (sym e) (inr a)
    ]
    change-Same w w' r (changed now id req found h v) n a =
        let (same_id, only, row) = queries w id found h in
        elim (updates w (updated now req found)) [
          | inl e ↦ subst (Has (IsSame d)) (sym e) a
          | inr e ↦ subst (Has (IsSame d)) (sym e) (
              Has-replaced (IsSame d) (updated now req found) (rows w)
                (λ x at i same.
                  IsSame-trans d found (updated now req found)
                    (subst (IsSame d) (only x at (i ∙ (updated-Same now req found).id ∙ same_id))
                      same)
                    (updated-Same now req found))
                a)
        ]
    change-Same w w' r (deleted id found h) n a =
        let (same_id, only, row) = queries w id found h in
        elim (deletes w id) [
          | inl e ↦ subst (Has (IsSame d)) (sym e) a
          | inr e ↦ subst (Has (IsSame d)) (sym e) (
              Has-removed (IsSame d) id (rows w)
                (λ x at same i. n (
                  deletions_eq id d.id found.user_id d.user_id (sym i ∙ same.id)
                    (sym (ap (λ y. y.user_id) (only x at i)) ∙ same.user_id)))
                a)
        ]

    -- A domain in a table that only the three writes of the repository change, each in one row or
    -- not at all, stays there with its id, its user, its name and its API key, under any sequence
    -- of requests among which its own user does not ask to delete it.
    pub domain_kept :
        (w : World) (rs : List Request)
        → Has (IsSame d) (rows w)
        → All (λ r. r ≢ delete_request d.id d.user_id) rs
        → Has (IsSame d) (rows (run repo w rs))
    unfolding run
    domain_kept w [] a n = a
    domain_kept w (r ∷ rs) a n =
        domain_kept (step repo w r) rs
          (change-Same w (step repo w r) r (step-Change repo w r) n.0 a) n.1
