-- ===== src/Validation/Tests.antt =====
-- A store of one domain, and the properties at concrete inputs.
use Prim.Native.String.{String}
use mailvault.Base.{
  [], ◌∷◌, codes, same_text, to_lower, if◌then◌else◌, ◌≢◌, ◌+◌, ◌*◌, ◌≡◌, refl, ◌⊎◌, inl, inr, true,
  false, none, some, arith, slt, mul64, shl_one,
}
use mailvault.Dns.{
  Resolver, DnsConfig, trim_dot, convert, hosts, lower_all, is_in, not_in, mx_result, matching,
  txt_result, validate_mx_records, validate_txt_record, validate_full_domain,
}
use mailvault.Dns.Verified.{dns_service, HasRecords, verified-HasRecords}
use mailvault.Backoff.{minute, entity_retry_delay}
use mailvault.Validation.{
  status_verified, status_pending, status_failed, no_token, Domain, FullValidationResult,
  next_attempt, validate_domain, update_validation_status, conclude, checks_failed,
}
use mailvault.Validation.Outcome.{
  outcome, outcome_status, outcome_message, validate_domain_correct, attempted,
}
use mailvault.Validation.Checks.{CheckResult, retry_validation}
use mailvault.Validation.Retry.{retry_message, tokenless_domain_retried}
use mailvault.Validation.Memory.{
  memory, memory-IsFaultless, memory-KeepsStatus, config, clock, example,
}

abbrev half_right : Domain → String ⊎ FullValidationResult
half_right d = inr (record { overall_valid = false; mx_valid = true; txt_valid = false })

abbrev two_attempts_left : Domain
two_attempts_left = record example {
  verification_status = status_failed;
  verification_attempts = 2;
  last_verification_attempt = some 50;
  next_verification_attempt = some (50 + 10 * minute);
  verification_error = some (checks_failed true false);
}

-- After one failed validation of the three that are configured the domain stands at two attempts.
two_attempts :
    (validate_domain memory config (some example, none) clock half_right 4).0.0
    ≡ some two_attempts_left
unfolding validate_domain update_validation_status conclude next_attempt entity_retry_delay slt
    mul64 shl_one
two_attempts = refl

validate_domain_correct_example :
    let (w', res) = validate_domain memory config (some example, none) clock half_right 4 in
    (w'.0
      ≡ some (record example {
        verification_status = outcome_status (half_right example);
        verification_attempts = 2;
        last_verification_attempt = some 50;
        next_verification_attempt = next_attempt config 50 (outcome_status (half_right example)) 2;
        verification_error = outcome_message (half_right example);
      }))
    × (res ≡ outcome (half_right example))
validate_domain_correct_example =
    validate_domain_correct memory config memory-IsFaultless (some example, none) clock half_right 4
      example refl refl

not_verified : example.verification_status ≢ status_verified
not_verified e = ground (arith, e)

-- Answers in capitals and with a dot at the end.
abbrev resolver : Resolver
resolver = record {
  lookup_mx = λ name.
      if same_text name (codes "example.com")
      then inr (
          record { host = codes "Mail.mailvault.sh."; priority = 10 }
          ∷ record { host = codes "old.example.com."; priority = 20 }
          ∷ [])
      else inl "no such host";
  lookup_txt = λ name. inr (codes "v=spf1 -all" ∷ codes "MailVault-verification=token" ∷ []);
  lookup_host = λ name. true;
}

abbrev dns_config : DnsConfig
dns_config = record {
  expected_mx_servers = codes "mail.mailvault.sh" ∷ [];
  txt_record_prefix = codes "mailvault-verification";
}

abbrev verified_example : Domain
verified_example = record example {
  verification_status = status_verified;
  verification_attempts = 2;
  last_verification_attempt = some 50;
}

-- The records of the domain are right, so the validation verifies it.
verifies :
    (validate_domain memory config
      (some example, none)
      clock
      (dns_service resolver dns_config)
      4).0.0
    ≡ some verified_example
unfolding validate_domain update_validation_status conclude next_attempt entity_retry_delay slt
    mul64 shl_one dns_service validate_full_domain validate_mx_records validate_txt_record mx_result
    txt_result matching convert trim_dot hosts lower_all is_in not_in to_lower
verifies = refl

verified-HasRecords_example :
    HasRecords resolver
      (codes "example.com")
      (codes "mail.mailvault.sh" ∷ [])
      (codes "mailvault-verification=token")
verified-HasRecords_example =
    verified-HasRecords resolver dns_config memory config memory-KeepsStatus 4 (some example, none)
      clock example verified_example refl not_verified verifies refl

abbrev found : Domain → String ⊎ CheckResult
found d = inr (record { valid = true; error = "" })

abbrev tokenless : Domain
tokenless = record example { verification_token = "" }

abbrev all_right : Domain → String ⊎ FullValidationResult
all_right d = inr (record { overall_valid = true; mx_valid = true; txt_valid = true })

tokenless_domain_retried_example :
    let reset = attempted config 10 status_pending none tokenless in
    (validate_domain memory config (some tokenless, none) clock all_right 4
      ≡ ((some tokenless, none), no_token))
    × ((retry_validation memory config (some tokenless, none) clock all_right 4).0.0
        ≡ some (
            attempted config 50
              (outcome_status (all_right reset))
              (retry_message (all_right reset))
              reset))
tokenless_domain_retried_example =
    tokenless_domain_retried memory config memory-IsFaultless (some tokenless, none) clock all_right
      4 tokenless refl refl
