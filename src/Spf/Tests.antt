-- ===== src/Spf/Tests.antt =====
-- Runs of the SPF check on a small network, and the properties at concrete inputs.
use mailvault.Base.{
  ℕ, ◌≡◌, refl, true, false, List, [], ◌∷◌, Option, none, some, ◌==◌, if◌then◌else◌, Bytes, codes,
  same_text, to_lower, has_prefix, contains, cut, trim, trim_left, trim_right, fields, join,
}
use mailvault.Spf.{
  spf_pass, spf_fail, spf_perm_error, depth_exceeded, SpfMechanism, QueryType, type_txt, type_a,
  type_mx, Rr, txt_record, a_record, Net,
}
use mailvault.Spf.Record.{
  parse_spf_record, parse_mechanism, parse_mechanisms, is_modifier, is_qualifier,
  qualifier_to_result, extract_domain_from_email,
}
use mailvault.Spf.Verdict.{
  verdict, get_spf_record, matches, match_result, evaluate_a, evaluate_include, include_result,
  evaluate_mechanism, evaluate_spf, first_verdict, verify_spf,
}
use mailvault.Spf.Verdict.Safety.{Permitted, OneOf, verify_spf-Permitted, verify_spf_fails_by_own}

answer : QueryType → Bytes → Option (ℕ × List (Rr ℕ))
answer type_txt d =
    if same_text d (codes "a.com")
    then some (0, txt_record (codes "v=spf1 include:" ∷ codes "b.com -all" ∷ []) ∷ [])
    else if same_text d (codes "b.com")
    then some (0, txt_record (codes "v=spf1 exp=x a ~all" ∷ []) ∷ [])
    else if same_text d (codes "c.com")
    then some (0, txt_record (codes "v=spf1 include:c.com" ∷ []) ∷ [])
    else none
answer type_a d = some (0, a_record 7 ∷ [])
answer type_mx d = none

abbrev net : Net
net = record {
  Ip = ℕ;
  Network = ℕ;
  exchange = answer;
  ip_equal = ◌==◌;
  parse_cidr = λ s. none;
  network_contains = ◌==◌;
  parse_address = λ s. none;
}

verdicts :
    ((verify_spf net (some 7) (codes "Bob <bob@A.com>")).result ≡ spf_pass)
    × ((verify_spf net (some 8) (codes "Bob <bob@a.com>")).result ≡ spf_fail)
    × (verify_spf net (some 7) (codes "x@c.com") ≡ verdict spf_perm_error depth_exceeded)
unfolding verify_spf extract_domain_from_email trim trim_left trim_right to_lower contains cut
    get_spf_record answer has_prefix join evaluate_spf first_verdict parse_spf_record fields
    parse_mechanisms is_modifier parse_mechanism is_qualifier evaluate_mechanism evaluate_include
    include_result matches match_result evaluate_a qualifier_to_result
verdicts = (refl, refl, refl)

verify_spf-Permitted_example :
    (text : Bytes) × (get_spf_record net (extract_domain_from_email net (codes "Bob <bob@A.com>"))
      ≡ some text)
    × Permitted net 7
        (codes "Bob <bob@A.com>")
        text
        (extract_domain_from_email net (codes "Bob <bob@A.com>"))
verify_spf-Permitted_example = verify_spf-Permitted net 7 (codes "Bob <bob@A.com>") verdicts.0

verify_spf_fails_by_own_example :
    let domain = extract_domain_from_email net (codes "Bob <bob@a.com>") in
    (text : Bytes) × (m : SpfMechanism) × (get_spf_record net domain ≡ some text)
    × OneOf (parse_spf_record text) m
    × (same_text m.mechanism (codes "include") ≡ false)
    × (matches net m 8 domain (codes "Bob <bob@a.com>") ≡ some (some true))
    × (qualifier_to_result m.qualifier ≡ spf_fail)
verify_spf_fails_by_own_example = verify_spf_fails_by_own net 8 (codes "Bob <bob@a.com>") verdicts.1

cycle_found : get_spf_record net (codes "c.com") ≡ some (codes "v=spf1 include:c.com")
unfolding get_spf_record answer has_prefix join
cycle_found = refl

cycle_parsed :
    parse_spf_record (codes "v=spf1 include:c.com")
    ≡ record { qualifier = b'+'; mechanism = codes "include"; value = codes "c.com" } ∷ []
unfolding parse_spf_record fields parse_mechanisms is_modifier parse_mechanism is_qualifier contains
    has_prefix cut
cycle_parsed = refl

abbrev include_text : SpfMechanism
include_text = record { qualifier = b'~'; mechanism = codes "ip6"; value = codes "2001:db8::/32" }

name_and_qualifier : (is_qualifier b'~' ≡ true) × (contains (codes "ip6") b':' ≡ false)
unfolding is_qualifier contains
name_and_qualifier = (refl, refl)
