-- ===== src/Validation/Safety.antt =====
-- No validation of domain/validation/usecase.go verifies a domain without the DNS service, whatever
-- call of the store fails.
use Prim.Native.String.{String}
use mailvault.Base.{
  ap, subst, ℕ, ◌≡◌, ◌≢◌, refl, sym, ◌∙◌, ◌⊎◌, inl, inr, Bool, true, false, Option, none, some,
  arith, if_rule, is_blank,
}
use mailvault.Validation.{
  VerificationStatus, status_validating, status_verified, status_failed, Message, Domain,
  ValidationRecord, FullValidationResult, ValidationConfig, Store, Clock, Validated, count_attempt,
  after_status, update_validation_status, conclude, created, validate_found, validate_domain,
}

-- What the statuses rely on, also when calls fail: a domain that is there after an update was there
-- before it, with the same status unless the update set another.
pub record KeepsStatus (store : Store) : Type 0 where
  pub by_status :
      (w : store.World) (id : ℕ) (status : VerificationStatus) (d : Domain)
      → store.get_by_id (store.update_domain_verification_status w id status).0 id ≡ some d
      → (d.verification_status ≡ status)
        ⊎ ((e : Domain) × (store.get_by_id w id ≡ some e)
            × (d.verification_status ≡ e.verification_status))
  pub by_attempt :
      (w : store.World) (id attempts last : ℕ) (next : Option ℕ) (message : Option Message)
      (d : Domain)
      → store.get_by_id
          (store.update_domain_verification_attempt w id attempts last next message).0
          id
        ≡ some d
      → (e : Domain) × (store.get_by_id w id ≡ some e)
        × (d.verification_status ≡ e.verification_status)
  pub by_create :
      (w : store.World) (r : ValidationRecord) (id : ℕ) (d : Domain)
      → store.get_by_id (store.create_validation_record w r).0 id ≡ some d
      → (e : Domain) × (store.get_by_id w id ≡ some e)
        × (d.verification_status ≡ e.verification_status)
  pub by_update :
      (w : store.World) (r : ValidationRecord) (id : ℕ) (d : Domain)
      → store.get_by_id (store.update_validation_record w r).0 id ≡ some d
      → (e : Domain) × (store.get_by_id w id ≡ some e)
        × (d.verification_status ≡ e.verification_status)

module _ (store : Store) (config : ValidationConfig) (laws : KeepsStatus store) (id : ℕ) where
  open store use {World, get_by_id}

  abbrev pub Unverified : World → Type 0
  Unverified w = (d : Domain) → get_by_id w id ≡ some d → d.verification_status ≢ status_verified

  update_validation_status-Unverified :
      (w : World) (now : ℕ) (status : VerificationStatus) (message : Option Message)
      → status ≢ status_verified
      → Unverified w
      → Unverified (update_validation_status store config w now id status message).0
  unfolding update_validation_status after_status count_attempt
  update_validation_status-Unverified w now status message n u =
      go (store.update_domain_verification_status w id status) λ d e.
        elim (laws.by_status w id status d e) [
          | inl s ↦ λ v. n (sym s ∙ v)
          | inr (x, f, s) ↦ λ v. u x f (sym s ∙ v)
        ]
    where
      counted :
          (v : World)
          → Unverified v
          → (o : Option Domain)
          → Unverified (count_attempt store config v now id status message o).0
      counted v u none d e = u d e
      counted v u (some x) d e =
          let (y, f, s) = laws.by_attempt v id _ now _ message d e in λ q. u y f (sym s ∙ q)

      go :
          (r : World × Bool)
          → Unverified r.0
          → Unverified (after_status store config now id status message r).0
      go (v, false) u = u
      go (v, true) u = counted v u (get_by_id v id)

  update_record-Unverified :
      (w : World) (r : ValidationRecord)
      → Unverified w
      → Unverified (store.update_validation_record w r).0
  update_record-Unverified w r u d e =
      let (x, f, s) = laws.by_update w r id d e in λ v. u x f (sym s ∙ v)

  -- The DNS service found both records right.
  abbrev pub IsRight : String ⊎ FullValidationResult → Type 0
  IsRight (inl err) = ⊥
  IsRight (inr result) = result.overall_valid ≡ true

  failed_ne : ◌≢◌ {A = VerificationStatus} status_failed status_verified
  failed_ne e = ground (arith, e)

  conclude-Unverified :
      (w : World) (clock : Clock) (r : ValidationRecord) (answer : String ⊎ FullValidationResult)
      → (IsRight answer → ⊥)
      → Unverified w
      → Unverified (conclude store config w clock id r answer).0
  unfolding conclude
  conclude-Unverified w clock r (inl err) n u =
      update_validation_status-Unverified _ clock.decided status_failed _ failed_ne
        (update_record-Unverified w _ u)
  conclude-Unverified w clock r (inr result) n u =
      if_rule (λ (p : World × Validated). Unverified p.0) result.overall_valid (λ y. absurd (n y))
        λ _.
          update_record-Unverified _ _
            (update_validation_status-Unverified w clock.decided status_failed _ failed_ne u)

  validate_domain-Unverified :
      (w : World) (clock : Clock) (dns : Domain → String ⊎ FullValidationResult)
      → ((d : Domain) → get_by_id w id ≡ some d → IsRight (dns d) → ⊥)
      → Unverified w
      → Unverified (validate_domain store config w clock dns id).0
  unfolding validate_domain validate_found created
  validate_domain-Unverified w clock dns n u = found (get_by_id w id) refl
    where
      finish :
          (d : Domain)
          → (IsRight (dns d) → ⊥)
          → (r : ValidationRecord) → (c : World × Bool) → Unverified c.0
          → Unverified (created store config clock id r (dns d) c).0
      finish d m r (v, false) k = k
      finish d m r (v, true) k = conclude-Unverified v clock r (dns d) m k

      found :
          (o : Option Domain)
          → get_by_id w id ≡ o
          → Unverified (validate_found store config w clock id dns o).0
      found none e = u
      found (some d) e =
          if_rule (λ (p : World × Validated). Unverified p.0) (is_blank d.verification_token)
            (λ _. u)
            λ _. finish d (n d e) _ (store.create_validation_record _ _) λ d' f.
              let (x, g, s) = laws.by_create _ _ id d' f in
              λ v.
                update_validation_status-Unverified w clock.marked status_validating none
                  (λ q. absurd (ground (arith, q))) u x g (sym s ∙ v)

  -- A domain that is not verified is not verified after a validation in which the DNS service does not
  -- find both of its records right, whichever calls of the store fail on the way.
  pub validate_domain_needs_dns :
      (w : World) (clock : Clock) (dns : Domain → String ⊎ FullValidationResult) (d e : Domain)
      → get_by_id w id ≡ some d
      → (IsRight (dns d) → ⊥)
      → d.verification_status ≢ status_verified
      → get_by_id (validate_domain store config w clock dns id).0 id ≡ some e
      → e.verification_status ≢ status_verified
  validate_domain_needs_dns w clock dns d e g n u h =
      validate_domain-Unverified w clock dns
        (λ x f r. n (subst (λ y. IsRight (dns y)) (same x f) r))
        (λ x f v. u (ap (λ y. y.verification_status) (sym (same x f)) ∙ v)) e h
    where
      domain_or : Domain → Option Domain → Domain
      domain_or x none = x
      domain_or x (some y) = y

      same : (x : Domain) → get_by_id w id ≡ some x → x ≡ d
      same x f = ap (domain_or x) (sym f ∙ g)
