-- ===== src/Spf/Verdict.antt =====
-- Evaluating an SPF record: Verify, evaluateSPF and the mechanisms of spf.go, over a network.
pub mod Safety
pub mod Cycle
use mailvault.Base.{
  ℕ, zero, suc, ◌≡◌, Bool, true, false, ◌&&◌, ◌||◌, not, List, [], ◌∷◌, ◌++◌, Option, none, some,
  ◌==◌, if◌then◌else◌, Bytes, codes, same_text, has_prefix, contains, replace_all, join, is_nil,
}
use mailvault.Spf.{
  SpfStatus, spf_none, spf_neutral, spf_pass, spf_fail, spf_soft_fail, spf_temp_error,
  spf_perm_error, SpfError, no_error, no_sender_ip, invalid_sender, record_failed, depth_exceeded,
  include_no_domain, include_failed, no_included_record, mechanism_failed, SpfResult, SpfMechanism,
  QueryType, type_txt, type_a, type_mx, Rr, txt_record, a_record, mx_record, other_record, Net,
}
use mailvault.Spf.Record.{parse_spf_record, qualifier_to_result, extract_domain_from_email}

abbrev pub verdict : SpfStatus → SpfError → SpfResult
verdict status err = record { result = status; mechanism = []; error = err }

abbrev pub is_neutral : SpfStatus → Bool
is_neutral spf_neutral = true
is_neutral _ = false

-- The loop of evaluateSPF: the first result that is not neutral.
unfoldable pub first_verdict : (SpfMechanism → SpfResult) → List SpfMechanism → SpfResult
first_verdict f [] = verdict spf_neutral no_error
first_verdict f (m ∷ ms) =
    let r = f m in let rest = first_verdict f ms in if is_neutral r.result then rest else r

-- How evaluateInclude reads the result of the record included.
unfoldable pub include_result : Bytes → SpfResult → SpfResult
include_result domain r = elim r.result [
  | spf_pass ↦ record {
    result = spf_pass;
    mechanism = codes "include:" ++ domain;
    error = no_error;
  }
  | spf_fail ↦ verdict spf_neutral no_error
  | spf_soft_fail ↦ verdict spf_neutral no_error
  | spf_neutral ↦ verdict spf_neutral no_error
  | _ ↦ r
]

module _ (net : Net) where
  open net use {Ip, exchange, ip_equal, parse_cidr, network_contains}

  find_record : List (Rr Ip) → Bytes
  find_record [] = []
  find_record (txt_record txt ∷ answer) =
      let rest = find_record answer in
      let text = join txt [] in if has_prefix text (codes "v=spf1") then text else rest
  find_record (_ ∷ answer) = find_record answer

  record_of : Option (ℕ × List (Rr Ip)) → Option Bytes
  record_of none = none
  record_of (some (rcode, answer)) = if rcode == 0 then some (find_record answer) else none

  -- getSPFRecord: none for an error, and the empty text where there is no record.
  unfoldable pub get_spf_record : Bytes → Option Bytes
  unfolding record_of find_record
  get_spf_record domain = record_of (exchange type_txt domain)

  has_address : Ip → List (Rr Ip) → Bool
  has_address ip [] = false
  has_address ip (a_record a ∷ answer) = ip_equal a ip || has_address ip answer
  has_address ip (_ ∷ answer) = has_address ip answer

  a_matches : Ip → Option (ℕ × List (Rr Ip)) → Option Bool
  a_matches ip none = none
  a_matches ip (some (rcode, answer)) = some (has_address ip answer)

  or_default : Bytes → Bytes → Bytes
  or_default [] default_domain = default_domain
  or_default (c ∷ domain) default_domain = c ∷ domain

  -- none is an error.
  unfoldable pub evaluate_a : Bytes → Bytes → Ip → Option Bool
  unfolding a_matches has_address or_default
  evaluate_a domain default_domain ip =
      a_matches ip (exchange type_a (or_default domain default_domain))

  is_match : Option Bool → Bool
  is_match (some true) = true
  is_match _ = false

  some_matches : Ip → List (Rr Ip) → Bool
  unfolding is_match
  some_matches ip [] = false
  some_matches ip (mx_record mx ∷ answer) = is_match (evaluate_a mx [] ip) || some_matches ip answer
  some_matches ip (_ ∷ answer) = some_matches ip answer

  mx_matches : Ip → Option (ℕ × List (Rr Ip)) → Option Bool
  mx_matches ip none = none
  mx_matches ip (some (rcode, answer)) = some (some_matches ip answer)

  unfoldable pub evaluate_mx : Bytes → Bytes → Ip → Option Bool
  unfolding mx_matches some_matches or_default is_match
  evaluate_mx domain default_domain ip =
      mx_matches ip (exchange type_mx (or_default domain default_domain))

  in_network : Ip → Option net.Network → Option Bool
  in_network ip none = none
  in_network ip (some network) = some (network_contains network ip)

  unfoldable pub evaluate_ip4 : Bytes → Ip → Option Bool
  unfolding in_network
  evaluate_ip4 cidr ip =
      in_network ip (parse_cidr (if contains cidr b'/' then cidr else cidr ++ codes "/32"))

  unfoldable pub evaluate_ip6 : Bytes → Ip → Option Bool
  unfolding in_network
  evaluate_ip6 cidr ip =
      in_network ip (parse_cidr (if contains cidr b'/' then cidr else cidr ++ codes "/128"))

  answered : Option (ℕ × List (Rr Ip)) → Option Bool
  answered none = none
  answered (some (rcode, [])) = some false
  answered (some (rcode, rr ∷ answer)) = some true

  unfoldable pub expand_macros : Bytes → Bytes → Bytes → Bytes
  expand_macros domain sender_domain sender =
      replace_all (replace_all domain (codes "%{d}") sender_domain) (codes "%{s}") sender

  unfoldable pub evaluate_exists : Bytes → Bytes → Bytes → Option Bool
  unfolding answered
  evaluate_exists domain sender_domain sender =
      answered (exchange type_a (expand_macros domain sender_domain sender))

  -- What a mechanism that is no include tests: none for an unknown name, and within it none for an
  -- error.
  unfoldable pub matches : SpfMechanism → Ip → Bytes → Bytes → Option (Option Bool)
  matches m ip domain sender =
      if same_text m.mechanism (codes "all")
      then some (some true)
      else if same_text m.mechanism (codes "a")
      then some (evaluate_a m.value domain ip)
      else if same_text m.mechanism (codes "mx")
      then some (evaluate_mx m.value domain ip)
      else if same_text m.mechanism (codes "ip4")
      then some (evaluate_ip4 m.value ip)
      else if same_text m.mechanism (codes "ip6")
      then some (evaluate_ip6 m.value ip)
      else if same_text m.mechanism (codes "exists")
      then some (evaluate_exists m.value domain sender)
      else none

  unfoldable pub match_result : SpfMechanism → Option (Option Bool) → SpfResult
  match_result m none = verdict spf_neutral no_error
  match_result m (some none) = verdict spf_temp_error (mechanism_failed m.mechanism)
  match_result m (some (some false)) = verdict spf_neutral no_error
  match_result m (some (some true)) = record {
    result = qualifier_to_result m.qualifier;
    mechanism = m.mechanism ++ codes ":" ++ m.value;
    error = no_error;
  }

  -- `deeper` evaluates a record for a domain one level down.
  unfoldable pub include_record : (Bytes → Bytes → SpfResult) → Bytes → Option Bytes → SpfResult
  include_record deeper domain none = verdict spf_temp_error include_failed
  include_record deeper domain (some []) = verdict spf_perm_error no_included_record
  include_record deeper domain (some (c ∷ text)) = include_result domain (deeper (c ∷ text) domain)

  unfoldable pub evaluate_include : (Bytes → Bytes → SpfResult) → Bytes → SpfResult
  unfolding include_record
  evaluate_include deeper domain = include_record deeper domain (get_spf_record domain)

  include_value : (Bytes → Bytes → SpfResult) → Bytes → SpfResult
  include_value deeper [] = verdict spf_perm_error include_no_domain
  include_value deeper (c ∷ value) = evaluate_include deeper (c ∷ value)

  unfoldable pub evaluate_mechanism :
      (Bytes → Bytes → SpfResult) → SpfMechanism → Ip → Bytes → Bytes → SpfResult
  unfolding include_value
  evaluate_mechanism deeper m ip domain sender =
      if same_text m.mechanism (codes "include")
      then include_value deeper m.value
      else match_result m (matches m ip domain sender)

  -- evaluateSPF, with 11 - depth in place of the depth: 0 is a depth beyond 10.
  unfoldable pub evaluate_spf : ℕ → Bytes → Ip → Bytes → Bytes → SpfResult
  evaluate_spf zero text ip domain sender = verdict spf_perm_error depth_exceeded
  evaluate_spf (suc left) text ip domain sender =
      first_verdict
        (λ m.
          evaluate_mechanism (λ text' domain'. evaluate_spf left text' ip domain' sender) m ip
            domain sender)
        (parse_spf_record text)

  verify_record : Ip → Bytes → Bytes → Option Bytes → SpfResult
  verify_record ip domain from none = verdict spf_temp_error record_failed
  verify_record ip domain from (some []) = verdict spf_none no_error
  verify_record ip domain from (some (c ∷ text)) = evaluate_spf 11 (c ∷ text) ip domain from

  verify_domain : Ip → Bytes → Bytes → SpfResult
  verify_domain ip from [] = verdict spf_perm_error invalid_sender
  verify_domain ip from (c ∷ domain) =
      verify_record ip (c ∷ domain) from (get_spf_record (c ∷ domain))

  -- SPFVerifier.Verify on the sender's address, if it is known, and the From text.
  unfoldable pub verify_spf : Option Ip → Bytes → SpfResult
  unfolding verify_record verify_domain
  verify_spf none from = verdict spf_none no_sender_ip
  verify_spf (some ip) from = verify_domain ip from (extract_domain_from_email net from)
