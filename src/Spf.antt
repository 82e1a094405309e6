-- ===== src/Spf.antt =====
-- The SPF check of app/smtp/verification/spf.go, with its result types from types.go.
pub mod Record
pub mod Verdict
mod Tests
use mailvault.Base.{Bytes, ℕ, Option, List, Bool}

pub data SpfStatus : Type 0 where
  spf_none spf_neutral spf_pass spf_fail spf_soft_fail spf_temp_error spf_perm_error : SpfStatus

-- The texts that the code puts into SPFResult.Error.
pub data SpfError : Type 0 where
  no_error no_sender_ip invalid_sender record_failed depth_exceeded : SpfError
  include_no_domain include_failed no_included_record : SpfError
  mechanism_failed : Bytes → SpfError

pub record SpfResult : Type 0 where
  pub result : SpfStatus
  pub mechanism : Bytes
  pub error : SpfError

-- spfMechanism; the qualifier is a text of one byte.
pub record SpfMechanism : Type 0 where
  pub qualifier : ℕ
  pub mechanism : Bytes
  pub value : Bytes

pub data QueryType : Type 0 where
  type_txt type_a type_mx : QueryType

pub data Rr (Ip : Type 0) : Type 0 where
  txt_record : List Bytes → Rr Ip
  a_record : Ip → Rr Ip
  mx_record : Bytes → Rr Ip
  other_record : Rr Ip

-- What the check takes from the network and from the packages net, net/mail and dns: the answer to a
-- query for a domain, which is none for an error and else has the response code and the records.
pub record Net : Type 1 where
  pub Ip : Type 0
  pub Network : Type 0
  pub exchange : QueryType → Bytes → Option (ℕ × List (Rr Ip))
  pub ip_equal : Ip → Ip → Bool
  pub parse_cidr : Bytes → Option Network
  pub network_contains : Network → Ip → Bool
  pub parse_address : Bytes → Option Bytes
