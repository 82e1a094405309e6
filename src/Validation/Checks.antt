-- ===== src/Validation/Checks.antt =====
-- The checks of one kind of record, and the validation that is asked for again:
-- ValidateMXRecords, ValidateTXTRecord and RetryValidation of domain/validation/usecase.go.
use Prim.Native.String.{String}
use mailvault.Base.{
  ℕ, Bool, true, false, ◌⊎◌, inl, inr, Option, none, some, if◌then◌else◌, is_blank,
}
use mailvault.Queue.{mx_record, txt_record}
use mailvault.Validation.{
  status_pending, status_verified, status_failed, Message, dns_failed, dns_text, checks_failed,
  mx_check_failed, txt_check_failed, Domain, ValidationRecord, record_success, record_failed,
  record_error, FullValidationResult, ValidationConfig, Store, Clock, update_validation_status,
  new_record,
}

-- What the use case reads of an MXValidationResult or a TXTValidationResult.
pub record CheckResult : Type 0 where
  pub valid : Bool
  pub error : String

pub data CheckError : Type 0 where
  domain_missing token_missing record_not_created : CheckError
  dns_error : String → CheckError

pub data RetryError : Type 0 where
  not_reset not_there : RetryError
  retry_dns_failed : String → RetryError

module _ (store : Store) (config : ValidationConfig) where
  open store use {World, get_by_id, create_validation_record, update_validation_record}

  -- An update of the record that fails is only logged; the domain is not written.
  unfoldable pub conclude_check :
      World
      → Clock
      → ValidationRecord
      → (String → Message)
      → String ⊎ CheckResult
      → World × Option CheckError
  conclude_check w clock r kind (inl err) = (
    (update_validation_record w (record r {
      status = record_error;
      error_message = some (dns_failed err);
      completed_at = some clock.completed;
    })).0,
    some (dns_error err),
  )
  conclude_check w clock r kind (inr result) = (
    (update_validation_record w (record r {
      completed_at = some clock.completed;
      status = if result.valid then record_success else record_failed;
      error_message = if result.valid then none else some (kind result.error);
    })).0,
    none,
  )

  unfoldable pub check_created :
      Clock
      → ValidationRecord
      → (String → Message)
      → String ⊎ CheckResult
      → World × Bool
      → World × Option CheckError
  check_created clock r kind answer (w, false) = (w, some record_not_created)
  check_created clock r kind answer (w, true) = conclude_check w clock r kind answer

  unfoldable pub check_mx_of :
      World
      → Clock
      → ℕ
      → (Domain → String ⊎ CheckResult)
      → Option Domain
      → World × Option CheckError
  unfolding new_record
  check_mx_of w clock id dns none = (w, some domain_missing)
  check_mx_of w clock id dns (some d) =
      let r = new_record store config clock mx_record id in
      check_created clock r mx_check_failed (dns d) (create_validation_record w r)

  unfoldable pub validate_mx_records :
      World → Clock → (Domain → String ⊎ CheckResult) → ℕ → World × Option CheckError
  validate_mx_records w clock dns id = check_mx_of w clock id dns (get_by_id w id)

  unfoldable pub check_txt_of :
      World
      → Clock
      → ℕ
      → (Domain → String ⊎ CheckResult)
      → Option Domain
      → World × Option CheckError
  unfolding new_record
  check_txt_of w clock id dns none = (w, some domain_missing)
  check_txt_of w clock id dns (some d) =
      if is_blank d.verification_token
      then (w, some token_missing)
      else (let r = new_record store config clock txt_record id in
          check_created clock r txt_check_failed (dns d) (create_validation_record w r))

  unfoldable pub validate_txt_record :
      World → Clock → (Domain → String ⊎ CheckResult) → ℕ → World × Option CheckError
  validate_txt_record w clock dns id = check_txt_of w clock id dns (get_by_id w id)

  -- From the answer of the DNS service on; the update's error is dropped.
  unfoldable pub conclude_retry :
      World
      → Clock
      → ℕ
      → String ⊎ FullValidationResult
      → World × (RetryError ⊎ FullValidationResult)
  conclude_retry w clock id (inl err) = (
    (update_validation_status store config w clock.decided id status_failed
        (some (dns_text err))).0,
    inl (retry_dns_failed err),
  )
  conclude_retry w clock id (inr result) =
      if result.overall_valid
      then (
        (update_validation_status store config w clock.decided id status_verified none).0,
        inr result,
      )
      else (
        (update_validation_status store config w clock.decided id status_failed
            (some (checks_failed result.mx_valid result.txt_valid))).0,
        inr result,
      )

  unfoldable pub retry_found :
      World
      → Clock
      → ℕ
      → (Domain → String ⊎ FullValidationResult)
      → Option Domain
      → World × (RetryError ⊎ FullValidationResult)
  retry_found w clock id dns none = (w, inl not_there)
  retry_found w clock id dns (some d) = conclude_retry w clock id (dns d)

  unfoldable pub retry_reset :
      Clock
      → ℕ
      → (Domain → String ⊎ FullValidationResult)
      → World × Bool
      → World × (RetryError ⊎ FullValidationResult)
  retry_reset clock id dns (w, false) = (w, inl not_reset)
  retry_reset clock id dns (w, true) = retry_found w clock id dns (get_by_id w id)

  -- RetryValidation: it asks the DNS service whatever the token is.
  unfoldable pub retry_validation :
      World
      → Clock
      → (Domain → String ⊎ FullValidationResult)
      → ℕ
      → World × (RetryError ⊎ FullValidationResult)
  retry_validation w clock dns id =
      retry_reset clock id dns
        (update_validation_status store config w clock.marked id status_pending none)
