-- ===== src/Validation.antt =====
-- The validation of domains: domain/validation/usecase.go over its repositories and the DNS service,
-- which are parameters. Texts of errors are told apart by what they are made of.
use Prim.Native.String.{String}
use mailvault.Base.{
  ℕ, zero, suc, Bool, true, false, not, ◌⊎◌, inl, inr, Option, none, some, ◌&&◌, if◌then◌else◌, ℤ,
  pos, z_ltb, is_blank,
}
use mailvault.Backoff.{entity_retry_delay}
use mailvault.Queue.{ValidationType, mx_record, txt_record, full_validation}
use mailvault.Sending.Entity.{add_duration}
pub mod Outcome
pub mod Safety
pub mod Checks
pub mod Retry
pub mod Memory
mod Tests

-- A VerificationStatus is a string: one of the five constants, or any other text.
pub data VerificationStatus : Type 0 where
  status_pending status_validating status_verified status_failed status_expired : VerificationStatus
  status_other : String → VerificationStatus

-- The message of a failed validation: of an error of the DNS service, with words before it or alone,
-- of the two checks, of one, or of a job that failed too often.
pub data Message : Type 0 where
  dns_failed dns_text : String → Message
  checks_failed : Bool → Bool → Message
  mx_check_failed txt_check_failed : String → Message
  max_retries_reached : ℕ → String → Message

-- The fields of entities.Domain that a validation reads or writes.
pub record Domain : Type 0 where
  pub id : ℕ
  pub name : String
  pub verification_token : String
  pub verification_status : VerificationStatus
  pub verification_attempts : ℕ
  pub last_verification_attempt : Option ℕ
  pub next_verification_attempt : Option ℕ
  pub verification_error : Option Message

pub data ValidationRecordStatus : Type 0 where
  record_running record_success record_failed record_error : ValidationRecordStatus

-- A ValidationRecord without the details of the DNS answers.
pub record ValidationRecord : Type 0 where
  pub id : ℕ
  pub domain_id : ℕ
  pub validation_type : ValidationType
  pub status : ValidationRecordStatus
  pub started_at : ℕ
  pub completed_at : Option ℕ
  pub error_message : Option Message
  pub created_at : ℕ

-- What the DNS service finds for a domain: whether the two records are right, and whether both are.
pub record FullValidationResult : Type 0 where
  pub overall_valid : Bool
  pub mx_valid : Bool
  pub txt_valid : Bool

pub record ValidationConfig : Type 0 where
  pub max_retries : ℤ
  pub retry_delay : ℕ

-- The repositories; a Boolean is whether the call went well.
pub record Store : Type 1 where
  pub World : Type 0
  pub get_by_id : World → ℕ → Option Domain
  pub update_domain_verification_status : World → ℕ → VerificationStatus → World × Bool
  pub update_domain_verification_attempt :
      World → ℕ → ℕ → ℕ → Option ℕ → Option Message → World × Bool
  pub create_validation_record : World → ValidationRecord → World × Bool
  pub update_validation_record : World → ValidationRecord → World × Bool

-- The readings of the clock in a validation, and the id drawn for its record.
pub record Clock : Type 0 where
  pub record_id : ℕ
  pub marked : ℕ
  pub started : ℕ
  pub created : ℕ
  pub completed : ℕ
  pub decided : ℕ

pub data Validated : Type 0 where
  not_found no_token not_created : Validated
  dns_error : String → Validated
  validated : FullValidationResult → Validated

unfoldable pub next_attempt : ValidationConfig → ℕ → VerificationStatus → ℕ → Option ℕ
next_attempt config now status_failed attempts =
    if z_ltb (pos attempts) config.max_retries
    then some (add_duration now (entity_retry_delay attempts config.retry_delay))
    else none
next_attempt config now _ attempts = none

module _ (store : Store) (config : ValidationConfig) where
  open store use {
    World, get_by_id, update_domain_verification_status, update_domain_verification_attempt,
    create_validation_record, update_validation_record,
  }

  count_attempt : World → ℕ → ℕ → VerificationStatus → Option Message → Option Domain → World × Bool
  count_attempt w now id status message none = (w, false)
  count_attempt w now id status message (some d) =
      let attempts = suc d.verification_attempts in
      update_domain_verification_attempt w id attempts now (next_attempt config now status attempts)
        message

  after_status : ℕ → ℕ → VerificationStatus → Option Message → World × Bool → World × Bool
  after_status now id status message (w, false) = (w, false)
  after_status now id status message (w, true) =
      count_attempt w now id status message (get_by_id w id)

  -- UpdateValidationStatus; the Boolean is whether it returns nil.
  unfoldable pub update_validation_status :
      World → ℕ → ℕ → VerificationStatus → Option Message → World × Bool
  unfolding count_attempt after_status
  update_validation_status w now id status message =
      after_status now id status message (update_domain_verification_status w id status)

  new_record : Clock → ValidationType → ℕ → ValidationRecord
  new_record clock validation_type id = record {
    id = clock.record_id;
    domain_id = id;
    validation_type = validation_type;
    status = record_running;
    started_at = clock.started;
    completed_at = none;
    error_message = none;
    created_at = clock.created;
  }

  -- From the answer of the DNS service on: the record and the domain get its outcome.
  unfoldable pub conclude :
      World → Clock → ℕ → ValidationRecord → String ⊎ FullValidationResult → World × Validated
  conclude w clock id r (inl err) =
      let done = record r {
        status = record_error;
        error_message = some (dns_failed err);
        completed_at = some clock.completed;
      } in
      let w' = (update_validation_record w done).0 in
      (
        (update_validation_status w' clock.decided id status_failed (some (dns_failed err))).0,
        dns_error err,
      )
  conclude w clock id r (inr result) =
      if result.overall_valid
      then (let done = record r { status = record_success; completed_at = some clock.completed } in
          let w' = (update_validation_status w clock.decided id status_verified none).0 in
          ((update_validation_record w' done).0, validated result))
      else (let message = checks_failed result.mx_valid result.txt_valid in
          let done = record r {
            status = record_failed;
            error_message = some message;
            completed_at = some clock.completed;
          } in
          let w' = (update_validation_status w clock.decided id status_failed (some message)).0 in
          ((update_validation_record w' done).0, validated result))

  created :
      Clock
      → ℕ
      → ValidationRecord
      → String ⊎ FullValidationResult
      → World × Bool
      → World × Validated
  created clock id r answer (w, false) = (w, not_created)
  created clock id r answer (w, true) = conclude w clock id r answer

  validate_found :
      World
      → Clock
      → ℕ
      → (Domain → String ⊎ FullValidationResult)
      → Option Domain
      → World × Validated
  unfolding new_record
  validate_found w clock id dns none = (w, not_found)
  validate_found w clock id dns (some d) =
      if is_blank d.verification_token
      then (w, no_token)
      else (let w' = (update_validation_status w clock.marked id status_validating none).0 in
          let r = new_record clock full_validation id in
          created clock id r (dns d) (create_validation_record w' r))

  -- ValidateDomain; an update of the domain or the record that fails is only logged.
  unfoldable pub validate_domain :
      World → Clock → (Domain → String ⊎ FullValidationResult) → ℕ → World × Validated
  unfolding validate_found created
  validate_domain w clock dns id = validate_found w clock id dns (get_by_id w id)

  retry_from :
      Clock → (Domain → String ⊎ FullValidationResult) → ℕ → World × Bool → World × Option Validated
  retry_from clock dns id (w, false) = (w, none)
  retry_from clock dns id (w, true) = let (w', r) = validate_domain w clock dns id in (w', some r)

  -- RetryDomainValidation: none if the domain could not be reset.
  unfoldable pub retry_domain_validation :
      World → ℕ → Clock → (Domain → String ⊎ FullValidationResult) → ℕ → World × Option Validated
  unfolding retry_from
  retry_domain_validation w now clock dns id =
      retry_from clock dns id (update_validation_status w now id status_pending none)
