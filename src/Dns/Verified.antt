-- ===== src/Dns/Verified.antt =====
-- The validation of domains over the DNS service of the code: domain/validation/usecase.go with
-- domain/validation/dns_service.go.
use Prim.Native.String.{String}
use mailvault.Base.{
  ℕ, ◌≡◌, ◌≢◌, refl, ◌⊎◌, inl, inr, Bool, true, List, [], ◌∷◌, ◌++◌, some, arith, Bool-cases, All,
  Bytes, codes,
}
use mailvault.Dns.{
  MxRecord, Resolver, DnsConfig, FullDnsResult, validate_full_domain, validate_mx_records,
  validate_txt_record,
}
use mailvault.Dns.Records.{
  Serves, Matches, validate_mx_records_correct, validate_txt_record-Matches, mx_lookup_failed,
  txt_lookup_failed,
}
use mailvault.Validation.{
  status_verified, Domain, FullValidationResult, ValidationConfig, Store, Clock, validate_domain,
}
use mailvault.Validation.Safety.{KeepsStatus, validate_domain_needs_dns}

-- What ValidateDomain reads of the result of the DNS service.
unfoldable pub summary : FullDnsResult → FullValidationResult
summary r = record {
  overall_valid = r.overall_valid;
  mx_valid = r.mx_validation.valid;
  txt_valid = r.txt_validation.valid;
}

-- ValidateFullDomain as ValidateDomain calls it: it never returns an error.
unfoldable pub dns_service : Resolver → DnsConfig → Domain → String ⊎ FullValidationResult
unfolding summary
dns_service resolver config d =
    inr (summary (validate_full_domain resolver config (codes d.name) (codes d.verification_token)))

-- The resolver has, for the name, an MX record for each server and the TXT record.
pub record HasRecords (resolver : Resolver) (name : Bytes) (servers : List Bytes) (text : Bytes)
    : Type 0 where
  pub answer : List MxRecord
  pub mx_answer : resolver.lookup_mx name ≡ inr answer
  pub serves : All (Serves answer) servers
  pub not_empty : answer ≢ []
  pub records : List Bytes
  pub txt_answer : resolver.lookup_txt name ≡ inr records
  pub text_there : Matches records text

module _ (resolver : Resolver) (dns : DnsConfig) where
  expected_text : Domain → Bytes
  expected_text d = dns.txt_record_prefix ++ b'=' ∷ codes d.verification_token

  full : Domain → FullDnsResult
  full d = validate_full_domain resolver dns (codes d.name) (codes d.verification_token)

  valid_mx : Domain → Bool
  valid_mx d = (validate_mx_records resolver (codes d.name) dns.expected_mx_servers).valid

  valid_txt : Domain → Bool
  valid_txt d = (validate_txt_record resolver (codes d.name) (expected_text d)).valid

  both_valid :
      (d : Domain) → (full d).overall_valid ≡ true → (valid_mx d ≡ true) × (valid_txt d ≡ true)
  unfolding validate_full_domain full valid_mx valid_txt expected_text
  both_valid d h = ground arith

  mx_found :
      (name : Bytes) (servers : List Bytes)
      → (validate_mx_records resolver name servers).valid ≡ true
      → (answer : List MxRecord) × (resolver.lookup_mx name ≡ inr answer)
        × (answer ≢ [])
        × All (Serves answer) servers
  mx_found name servers v = found (resolver.lookup_mx name) refl
    where
      found :
          (a : String ⊎ List MxRecord)
          → resolver.lookup_mx name ≡ a
          → (answer : List MxRecord) × (resolver.lookup_mx name ≡ inr answer)
            × (answer ≢ [])
            × All (Serves answer) servers
      found (inl err) e = absurd (ground (arith, v, mx_lookup_failed resolver name servers err e))
      found (inr answer) e =
          let valid = (validate_mx_records_correct resolver name servers answer [] e).0 in
          let (n, s) = valid.0 v in (answer, e, n, s)

  txt_found :
      (name text : Bytes)
      → (validate_txt_record resolver name text).valid ≡ true
      → (records : List Bytes) × (resolver.lookup_txt name ≡ inr records) × Matches records text
  txt_found name text v = found (resolver.lookup_txt name) refl
    where
      found :
          (a : String ⊎ List Bytes)
          → resolver.lookup_txt name ≡ a
          → (records : List Bytes) × (resolver.lookup_txt name ≡ inr records) × Matches records text
      found (inl err) e = absurd (ground (arith, v, txt_lookup_failed resolver name text err e))
      found (inr records) e =
          (records, e, (validate_txt_record-Matches resolver name text records e).0 v)

  right-HasRecords :
      (d : Domain)
      → (full d).overall_valid ≡ true
      → HasRecords resolver
          (codes d.name)
          dns.expected_mx_servers
          (dns.txt_record_prefix ++ b'=' ∷ codes d.verification_token)
  unfolding valid_mx valid_txt expected_text
  right-HasRecords d h =
      let (m, t) = both_valid d h in
      let (answer, e, n, s) = mx_found _ _ m in
      let (records, f, k) = txt_found _ _ t in
      record {
        answer = answer;
        mx_answer = e;
        serves = s;
        not_empty = n;
        records = records;
        txt_answer = f;
        text_there = k;
      }

  -- When a validation over the DNS service of the code verifies a domain that was not verified, the
  -- resolver has for its name an MX record for each expected server and a TXT record that is the prefix,
  -- "=" and its token, up to case, whichever calls of the store fail on the way.
  pub verified-HasRecords :
      (store : Store) (config : ValidationConfig) (laws : KeepsStatus store) (id : ℕ)
      (w : store.World) (clock : Clock) (d e : Domain)
      → store.get_by_id w id ≡ some d
      → d.verification_status ≢ status_verified
      → store.get_by_id (validate_domain store config w clock (dns_service resolver dns) id).0 id
        ≡ some e
      → e.verification_status ≡ status_verified
      → HasRecords resolver
          (codes d.name)
          dns.expected_mx_servers
          (dns.txt_record_prefix ++ b'=' ∷ codes d.verification_token)
  unfolding dns_service full summary
  verified-HasRecords store config laws id w clock d e g n h v =
      elim (Bool-cases (full d).overall_valid) [
        | inl y ↦ right-HasRecords d y
        | inr no_records ↦ absurd (
            validate_domain_needs_dns store config laws id w clock (dns_service resolver dns) d e g
              (λ r. ground (arith, r, no_records)) n h v)
      ]
