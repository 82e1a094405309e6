-- ===== src/Validation/Retry.antt =====
-- What the single checks and RetryValidation of domain/validation/usecase.go do to a domain.
use Prim.Native.String.{String}
use mailvault.Base.{
  ℕ, ◌≡◌, refl, ◌∙◌, ◌⊎◌, inl, inr, Bool, true, false, Option, none, some, arith, if_rule,
  Bool-cases, is_blank,
}
use mailvault.Validation.{
  status_pending, status_verified, status_failed, Message, dns_text, checks_failed, Domain,
  ValidationRecord, FullValidationResult, ValidationConfig, Store, Clock, no_token,
  update_validation_status, after_status, count_attempt, validate_found, validate_domain,
  mx_check_failed, txt_check_failed,
}
use mailvault.Validation.Outcome.{
  IsFaultless, outcome_status, outcome_message, attempted, update_validation_status_sets,
}
use mailvault.Validation.Checks.{
  CheckResult, CheckError, conclude_check, check_created, check_mx_of, validate_mx_records,
  check_txt_of, validate_txt_record, conclude_retry, retry_found, retry_reset, retry_validation,
}

-- The message of a retry: that of a validation, but the bare text of an error of the DNS service.
abbrev pub retry_message : String ⊎ FullValidationResult → Option Message
retry_message (inl err) = some (dns_text err)
retry_message (inr result) = outcome_message (inr result)

-- Records of validations stand apart from the domains, also when a call fails.
pub record RecordsApart (store : Store) : Type 0 where
  pub create_keeps :
      (w : store.World) (r : ValidationRecord) (id : ℕ)
      → store.get_by_id (store.create_validation_record w r).0 id ≡ store.get_by_id w id
  pub update_keeps :
      (w : store.World) (r : ValidationRecord) (id : ℕ)
      → store.get_by_id (store.update_validation_record w r).0 id ≡ store.get_by_id w id

module _ (store : Store) (config : ValidationConfig) where
  open store use {World, get_by_id}

  module _ (apart : RecordsApart store) (id : ℕ) where
    conclude_check_keeps :
        (w : World) (clock : Clock) (r : ValidationRecord) (kind : String → Message)
        (answer : String ⊎ CheckResult)
        → get_by_id (conclude_check store config w clock r kind answer).0 id ≡ get_by_id w id
    unfolding conclude_check
    conclude_check_keeps w clock r kind (inl err) = apart.update_keeps w _ id
    conclude_check_keeps w clock r kind (inr result) = apart.update_keeps w _ id

    check_created_keeps :
        (clock : Clock) (r : ValidationRecord) (kind : String → Message)
        (answer : String ⊎ CheckResult) (c : World × Bool)
        → get_by_id (check_created store config clock r kind answer c).0 id ≡ get_by_id c.0 id
    unfolding check_created
    check_created_keeps clock r kind answer (w, false) = refl
    check_created_keeps clock r kind answer (w, true) = conclude_check_keeps w clock r kind answer

    -- A check of the MX or of the TXT records alone, whatever the DNS service answers and whichever
    -- call fails, leaves every domain as it was: it verifies none and counts no attempt.
    pub single_checks_keep_domains :
        (w : World) (clock : Clock) (dns : Domain → String ⊎ CheckResult) (asked : ℕ)
        → (get_by_id (validate_mx_records store config w clock dns asked).0 id ≡ get_by_id w id)
          × (get_by_id (validate_txt_record store config w clock dns asked).0 id ≡ get_by_id w id)
    unfolding validate_mx_records validate_txt_record check_mx_of check_txt_of
    single_checks_keep_domains w clock dns asked = (mx (get_by_id w asked), txt (get_by_id w asked))
      where
        mx :
            (o : Option Domain)
            → get_by_id (check_mx_of store config w clock asked dns o).0 id ≡ get_by_id w id
        mx none = refl
        mx (some d) =
            check_created_keeps clock _ mx_check_failed (dns d) _ ∙ apart.create_keeps w _ id

        txt :
            (o : Option Domain)
            → get_by_id (check_txt_of store config w clock asked dns o).0 id ≡ get_by_id w id
        txt none = refl
        txt (some d) =
            if_rule (λ (r : World × Option CheckError). get_by_id r.0 id ≡ get_by_id w id)
              (is_blank d.verification_token) (λ _. refl)
              λ _.
                check_created_keeps clock _ txt_check_failed (dns d) _ ∙ apart.create_keeps w _ id

  module _ (laws : IsFaultless store) where
    reset_ok :
        (w : World) (now id : ℕ) (d : Domain)
        → get_by_id w id ≡ some d
        → (update_validation_status store config w now id status_pending none).1 ≡ true
    unfolding update_validation_status after_status count_attempt
    reset_ok w now id d e =
        go (store.update_domain_verification_status w id status_pending)
          (laws.set_status w id status_pending d e)
      where
        go :
            (r : World × Bool)
            → (r.1 ≡ true)
              × (get_by_id r.0 id ≡ some (record d { verification_status = status_pending }))
            → (after_status store config now id status_pending none r).1 ≡ true
        go (v, true) (ok, f) = rw f (laws.set_attempt v id _ now _ none _ f).0
        go (v, false) (ok, f) = absurd (ground (arith, ok))

    conclude_retry_sets :
        (w : World) (clock : Clock) (id : ℕ) (answer : String ⊎ FullValidationResult) (d : Domain)
        → get_by_id w id ≡ some d
        → get_by_id (conclude_retry store config w clock id answer).0 id
          ≡ some (attempted config clock.decided (outcome_status answer) (retry_message answer) d)
    unfolding conclude_retry
    conclude_retry_sets w clock id (inl err) d e =
        update_validation_status_sets store config laws w clock.decided id status_failed
          (some (dns_text err)) d e
    conclude_retry_sets w clock id (inr result) d e = elim (Bool-cases result.overall_valid) [
      | inl y ↦ rw y (
          update_validation_status_sets store config laws w clock.decided id status_verified none d
            e)
      | inr n ↦ rw n (
          update_validation_status_sets store config laws w clock.decided id status_failed
            (some (checks_failed result.mx_valid result.txt_valid)) d e)
    ]

    -- A domain without a token, when no call of the store fails: ValidateDomain refuses it and changes
    -- nothing, but RetryValidation asks the DNS service all the same, and leaves it verified if both
    -- records are found right, and else failed with the message.
    pub tokenless_domain_retried :
        (w : World) (clock : Clock) (dns : Domain → String ⊎ FullValidationResult) (id : ℕ)
        (d : Domain)
        → get_by_id w id ≡ some d
        → is_blank d.verification_token ≡ true
        → let reset = attempted config clock.marked status_pending none d in
          (validate_domain store config w clock dns id ≡ (w, no_token))
          × (get_by_id (retry_validation store config w clock dns id).0 id
              ≡ some (
                  attempted config clock.decided
                    (outcome_status (dns reset))
                    (retry_message (dns reset))
                    reset))
    unfolding validate_domain validate_found retry_validation retry_reset retry_found
    tokenless_domain_retried w clock dns id d e blank = (
      rw (e, blank) refl,
      go (update_validation_status store config w clock.marked id status_pending none)
          (reset_ok w clock.marked id d e)
          (update_validation_status_sets store config laws w clock.marked id status_pending none d
            e),
    )
      where
        go :
            (r : World × Bool)
            → r.1 ≡ true
            → get_by_id r.0 id ≡ some (attempted config clock.marked status_pending none d)
            → (let reset = attempted config clock.marked status_pending none d in
                get_by_id (retry_reset store config clock id dns r).0 id
                ≡ some (
                    attempted config clock.decided
                      (outcome_status (dns reset))
                      (retry_message (dns reset))
                      reset))
        go (v, true) ok f = rw f (conclude_retry_sets v clock id (dns _) _ f)
        go (v, false) ok f = absurd (ground (arith, ok))
