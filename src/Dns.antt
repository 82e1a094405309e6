-- ===== src/Dns.antt =====
-- The DNS checks of domain/validation/dns_service.go over a resolver, whose answers are parameters.
-- Texts are ASCII. The times of the queries are left out.
use Prim.Native.String.{String}
use mailvault.Base.{
  ℕ, ◌+◌, Bool, true, false, not, ◌&&◌, ◌||◌, ◌⊎◌, inl, inr, Option, none, some, List, [], ◌∷◌,
  ◌++◌, ltb, if◌then◌else◌, Bytes, codes, same_text, to_lower, has_prefix, contains, length, ◌==◌,
  is_nil, map,
}
pub mod Records
pub mod Verified
mod Tests

-- net.MX and, with its host cleaned, validation.MXRecord.
pub record MxRecord : Type 0 where
  pub host : Bytes
  pub priority : ℕ

pub record MxValidationResult : Type 0 where
  pub valid : Bool
  pub found_records : List MxRecord
  pub expected_servers : List Bytes
  pub missing_servers : List Bytes
  pub extra_servers : List Bytes
  pub error : Option String

pub record TxtValidationResult : Type 0 where
  pub valid : Bool
  pub found_records : List Bytes
  pub expected_record : Bytes
  pub matching_record : Bytes
  pub error : Option String

-- What of ValidationConfig the service reads.
pub record DnsConfig : Type 0 where
  pub expected_mx_servers : List Bytes
  pub txt_record_prefix : Bytes

-- An entry of ValidationErrors: the text of a failed lookup, after "MX validation: " or the like.
pub data DnsError : Type 0 where
  mx_error txt_error : String → DnsError

pub record FullDnsResult : Type 0 where
  pub domain : Bytes
  pub overall_valid : Bool
  pub mx_validation : MxValidationResult
  pub txt_validation : TxtValidationResult
  pub validation_errors : List DnsError

-- The answers of net.Resolver.
pub record Resolver : Type 0 where
  pub lookup_mx : Bytes → String ⊎ List MxRecord
  pub lookup_txt : Bytes → String ⊎ List Bytes
  pub lookup_host : Bytes → Bool

-- strings.TrimSuffix(host, ".")
unfoldable pub trim_dot : Bytes → Bytes
trim_dot [] = []
trim_dot (c ∷ []) = if c == b'.' then [] else c ∷ []
trim_dot (c ∷ d ∷ s) = c ∷ trim_dot (d ∷ s)

unfoldable pub convert : List MxRecord → List MxRecord
convert [] = []
convert (mx ∷ rest) = record { host = trim_dot mx.host; priority = mx.priority } ∷ convert rest

-- A map from lower-case texts to true: the texts put in.
unfoldable pub lower_all : List Bytes → List Bytes
lower_all [] = []
lower_all (s ∷ rest) = to_lower s ∷ lower_all rest

unfoldable pub hosts : List MxRecord → List Bytes
hosts [] = []
hosts (mx ∷ rest) = mx.host ∷ hosts rest

unfoldable pub is_in : List Bytes → Bytes → Bool
is_in [] s = false
is_in (t ∷ rest) s = same_text t s || is_in rest s

-- The texts that are not in the map, up to case: the loops that find missing and extra servers.
unfoldable pub not_in : List Bytes → List Bytes → List Bytes
not_in known [] = []
not_in known (s ∷ rest) =
    let others = not_in known rest in if is_in known (to_lower s) then others else s ∷ others

is_empty {ℓ} : {A : Type ℓ} → List A → Bool
is_empty [] = true
is_empty (x ∷ xs) = false

unfoldable pub mx_result : List Bytes → String ⊎ List MxRecord → MxValidationResult
unfolding is_empty
mx_result expected (inl err) = record {
  valid = false;
  found_records = [];
  expected_servers = expected;
  missing_servers = [];
  extra_servers = [];
  error = some err;
}
mx_result expected (inr answer) =
    let found = convert answer in
    let missing = not_in (lower_all (hosts found)) expected in
    record {
      valid = is_empty missing && not (is_empty found);
      found_records = found;
      expected_servers = expected;
      missing_servers = missing;
      extra_servers = not_in (lower_all expected) (hosts found);
      error = none;
    }

-- The first record that is the expected one up to case.
unfoldable pub matching : Bytes → List Bytes → Option Bytes
matching expected [] = none
matching expected (r ∷ rest) =
    let later = matching expected rest in
    if same_text (to_lower r) (to_lower expected) then some r else later

with_match : Bytes → List Bytes → Option Bytes → TxtValidationResult
with_match expected records none = record {
  valid = false;
  found_records = records;
  expected_record = expected;
  matching_record = [];
  error = none;
}
with_match expected records (some r) = record {
  valid = true;
  found_records = records;
  expected_record = expected;
  matching_record = r;
  error = none;
}

unfoldable pub txt_result : Bytes → String ⊎ List Bytes → TxtValidationResult
unfolding with_match
txt_result expected (inl err) = record {
  valid = false;
  found_records = [];
  expected_record = expected;
  matching_record = [];
  error = some err;
}
txt_result expected (inr records) = with_match expected records (matching expected records)

unfoldable pub error_entry : (String → DnsError) → Option String → List DnsError
error_entry kind none = []
error_entry kind (some err) = kind err ∷ []

-- Keeps the records that begin with the prefix and "=", up to case.
unfoldable pub filter_mail_vault_txt_records : List Bytes → Bytes → List Bytes
filter_mail_vault_txt_records [] prefix = []
filter_mail_vault_txt_records (r ∷ rest) prefix =
    let others = filter_mail_vault_txt_records rest prefix in
    if has_prefix (to_lower r) (to_lower (prefix ++ codes "=")) then r ∷ others else others

pub data BasicError : Type 0 where
  domain_empty domain_too_long no_dot not_resolved : BasicError

module _ (resolver : Resolver) where
  unfoldable pub validate_mx_records : Bytes → List Bytes → MxValidationResult
  validate_mx_records domain expected = mx_result expected (resolver.lookup_mx domain)

  unfoldable pub validate_txt_record : Bytes → Bytes → TxtValidationResult
  validate_txt_record domain expected = txt_result expected (resolver.lookup_txt domain)

  unfoldable pub validate_full_domain : DnsConfig → Bytes → Bytes → FullDnsResult
  validate_full_domain config domain token =
      let mx = validate_mx_records domain config.expected_mx_servers in
      let txt = validate_txt_record domain (config.txt_record_prefix ++ b'=' ∷ token) in
      record {
        domain = domain;
        overall_valid = mx.valid && txt.valid;
        mx_validation = mx;
        txt_validation = txt;
        validation_errors = error_entry mx_error mx.error ++ error_entry txt_error txt.error;
      }

  -- ValidateDomainBasic: the error, if there is one.
  unfoldable pub validate_domain_basic : Bytes → Option BasicError
  validate_domain_basic domain =
      if length domain == 0
      then some domain_empty
      else if ltb 253 (length domain)
      then some domain_too_long
      else if not (contains domain b'.')
      then some no_dot
      else if resolver.lookup_host domain
      then none
      else some not_resolved
