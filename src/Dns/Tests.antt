-- ===== src/Dns/Tests.antt =====
-- The checks of records at concrete answers.
use mailvault.Base.{
  ◌≡◌, ◌≢◌, refl, inl, inr, ◌↔◌, true, some, List, [], ◌∷◌, All, Bytes, codes, to_lower, has_prefix,
  contains,
}
use mailvault.Dns.{
  MxRecord, Resolver, trim_dot, validate_mx_records, validate_domain_basic, no_dot,
  filter_mail_vault_txt_records, convert, lower_all, hosts, is_in, not_in, mx_result,
}
use mailvault.Dns.Records.{Among, Serves, validate_mx_records_correct}

abbrev two_hosts : List MxRecord
two_hosts =
    record { host = codes "Mail.mailvault.sh."; priority = 10 }
    ∷ record { host = codes "old.example.com."; priority = 20 }
    ∷ []

abbrev resolver : Resolver
resolver = record {
  lookup_mx = λ name. inr two_hosts;
  lookup_txt = λ name. inl "timeout";
  lookup_host = λ name. true;
}

abbrev servers : List Bytes
servers = codes "mail.mailvault.sh" ∷ codes "mail2.mailvault.sh" ∷ []

missing_and_extra :
    ((validate_mx_records resolver (codes "a.com") servers).missing_servers
      ≡ codes "mail2.mailvault.sh" ∷ [])
    × ((validate_mx_records resolver (codes "a.com") servers).extra_servers
        ≡ codes "old.example.com" ∷ [])
unfolding validate_mx_records mx_result convert trim_dot hosts lower_all is_in not_in to_lower
missing_and_extra = (refl, refl)

filters :
    filter_mail_vault_txt_records
      (codes "v=spf1" ∷ codes "MAILVAULT-verification=t" ∷ [])
      (codes "mailvault-verification")
    ≡ codes "MAILVAULT-verification=t" ∷ []
unfolding filter_mail_vault_txt_records has_prefix to_lower
filters = refl

needs_a_dot : validate_domain_basic resolver (codes "localhost") ≡ some no_dot
unfolding validate_domain_basic contains
needs_a_dot = refl

validate_mx_records_correct_example :
    (((validate_mx_records resolver (codes "a.com") servers).valid ≡ true)
      ↔ ((two_hosts ≢ []) × All (Serves two_hosts) servers))
    × (Among
          (validate_mx_records resolver (codes "a.com") servers).missing_servers
          (codes "mail2.mailvault.sh")
        ↔ (Among servers (codes "mail2.mailvault.sh")
            × ¬ Serves two_hosts (codes "mail2.mailvault.sh")))
validate_mx_records_correct_example =
    validate_mx_records_correct resolver (codes "a.com") servers two_hosts
      (codes "mail2.mailvault.sh") refl
