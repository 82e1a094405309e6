-- ===== src/Validation/Outcome.antt =====
-- What a validation leaves of a domain: domain/validation/usecase.go.
use Prim.Native.String.{String}
use mailvault.Base.{
  ℕ, suc, ◌≡◌, refl, ◌∙◌, ◌⊎◌, inl, inr, Bool, true, false, Option, none, some, arith,
  if◌then◌else◌, Bool-cases, is_blank,
}
use mailvault.Queue.{full_validation}
use mailvault.Validation.{
  VerificationStatus, status_validating, status_verified, status_failed, Message, dns_failed,
  checks_failed, Domain, ValidationRecord, FullValidationResult, ValidationConfig, Store, Clock,
  Validated, dns_error, validated, next_attempt, count_attempt, after_status,
  update_validation_status, conclude, created, validate_found, validate_domain, new_record,
}

-- A store on which no call fails, at a domain: an update of a domain that is there sets its columns, and
-- the calls on records leave domains.
pub record IsFaultless (store : Store) : Type 0 where
  pub set_status :
      (w : store.World) (id : ℕ) (status : VerificationStatus) (d : Domain)
      → store.get_by_id w id ≡ some d
      → ((store.update_domain_verification_status w id status).1 ≡ true)
        × (store.get_by_id (store.update_domain_verification_status w id status).0 id
            ≡ some (record d { verification_status = status }))
  pub set_attempt :
      (w : store.World) (id attempts last : ℕ) (next : Option ℕ) (message : Option Message)
      (d : Domain)
      → store.get_by_id w id ≡ some d
      → ((store.update_domain_verification_attempt w id attempts last next message).1 ≡ true)
        × (store.get_by_id
              (store.update_domain_verification_attempt w id attempts last next message).0
              id
            ≡ some (record d {
              verification_attempts = attempts;
              last_verification_attempt = some last;
              next_verification_attempt = next;
              verification_error = message;
            }))
  pub creates :
      (w : store.World) (r : ValidationRecord) (id : ℕ)
      → ((store.create_validation_record w r).1 ≡ true)
        × (store.get_by_id (store.create_validation_record w r).0 id ≡ store.get_by_id w id)
  pub updates :
      (w : store.World) (r : ValidationRecord) (id : ℕ)
      → store.get_by_id (store.update_validation_record w r).0 id ≡ store.get_by_id w id

-- The status and the message that an answer of the DNS service leads to, and what the caller gets.
abbrev pub outcome_status : String ⊎ FullValidationResult → VerificationStatus
outcome_status (inl err) = status_failed
outcome_status (inr result) = if result.overall_valid then status_verified else status_failed

abbrev pub outcome_message : String ⊎ FullValidationResult → Option Message
outcome_message (inl err) = some (dns_failed err)
outcome_message (inr result) =
    if result.overall_valid then none else some (checks_failed result.mx_valid result.txt_valid)

abbrev pub outcome : String ⊎ FullValidationResult → Validated
outcome (inl err) = dns_error err
outcome (inr result) = validated result

-- A domain after a change of status that was counted as an attempt.
abbrev pub attempted : ValidationConfig → ℕ → VerificationStatus → Option Message → Domain → Domain
attempted config now status message d = record d {
  verification_status = status;
  verification_attempts = suc d.verification_attempts;
  last_verification_attempt = some now;
  next_verification_attempt = next_attempt config now status (suc d.verification_attempts);
  verification_error = message;
}

module _ (store : Store) (config : ValidationConfig) (laws : IsFaultless store) where
  open store use {World, get_by_id}

  pub update_validation_status_sets :
      (w : World) (now id : ℕ) (status : VerificationStatus) (message : Option Message) (d : Domain)
      → get_by_id w id ≡ some d
      → get_by_id (update_validation_status store config w now id status message).0 id
        ≡ some (attempted config now status message d)
  unfolding update_validation_status after_status count_attempt
  update_validation_status_sets w now id status message d e =
      go (store.update_domain_verification_status w id status) (laws.set_status w id status d e)
    where
      go :
          (r : World × Bool)
          → (r.1 ≡ true) × (get_by_id r.0 id ≡ some (record d { verification_status = status }))
          → get_by_id (after_status store config now id status message r).0 id
            ≡ some (attempted config now status message d)
      go (v, true) (ok, f) = rw f (laws.set_attempt v id _ now _ message _ f).1
      go (v, false) (ok, f) = absurd (ground (arith, ok))

  conclude_sets :
      (w : World) (clock : Clock) (id : ℕ) (r : ValidationRecord)
      (answer : String ⊎ FullValidationResult) (d : Domain)
      → get_by_id w id ≡ some d
      → let (w', res) = conclude store config w clock id r answer in
        (get_by_id w' id
          ≡ some
              (attempted config clock.decided (outcome_status answer) (outcome_message answer) d))
        × (res ≡ outcome answer)
  unfolding conclude
  conclude_sets w clock id r (inl err) d e = (
    update_validation_status_sets _ clock.decided id status_failed (some (dns_failed err)) d
        (laws.updates w _ id ∙ e),
    refl,
  )
  conclude_sets w clock id r (inr result) d e = elim (Bool-cases result.overall_valid) [
    | inl y ↦ rw y (
      laws.updates _ _ id
          ∙ update_validation_status_sets w clock.decided id status_verified none d e,
      refl,
    )
    | inr n ↦ rw n (
      laws.updates _ _ id
          ∙ update_validation_status_sets w clock.decided id status_failed
              (some (checks_failed result.mx_valid result.txt_valid)) d e,
      refl,
    )
  ]

  -- A validation of a domain with a token, when no call of the store fails: the domain is verified exactly
  -- if the DNS service finds both records right, and else failed with the message. Two attempts are
  -- counted, one for its start and one for its end, and a next one is set as a failure at that count has
  -- it.
  pub validate_domain_correct :
      (w : World) (clock : Clock) (dns : Domain → String ⊎ FullValidationResult) (id : ℕ)
      (d : Domain)
      → get_by_id w id ≡ some d
      → is_blank d.verification_token ≡ false
      → let (w', res) = validate_domain store config w clock dns id in
        (get_by_id w' id
          ≡ some (record d {
            verification_status = outcome_status (dns d);
            verification_attempts = suc (suc d.verification_attempts);
            last_verification_attempt = some clock.decided;
            next_verification_attempt =
                next_attempt config clock.decided
                  (outcome_status (dns d))
                  (suc (suc d.verification_attempts));
            verification_error = outcome_message (dns d);
          }))
        × (res ≡ outcome (dns d))
  unfolding validate_domain new_record created validate_found
  validate_domain_correct w clock dns id d e t =
      let first = update_validation_status_sets w clock.marked id status_validating none d e in
      let made =
        laws.creates
          (update_validation_status store config w clock.marked id status_validating none).0
          (new_record store config clock full_validation id) id in
      rw (e, t) (go (store.create_validation_record _ _) made.0 (made.1 ∙ first))
    where
      go :
          (c : World × Bool)
          → c.1 ≡ true
          → get_by_id c.0 id ≡ some (attempted config clock.marked status_validating none d)
          → let (w', res) =
              created store config clock id
                (new_record store config clock full_validation id)
                (dns d)
                c in
            (get_by_id w' id
              ≡ some (
                  attempted config clock.decided
                    (outcome_status (dns d))
                    (outcome_message (dns d))
                    (attempted config clock.marked status_validating none d)))
            × (res ≡ outcome (dns d))
      go (v, true) ok f = conclude_sets v clock id _ (dns d) _ f
      go (v, false) ok f = absurd (ground (arith, ok))
