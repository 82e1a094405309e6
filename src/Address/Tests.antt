-- ===== src/Address/Tests.antt =====
-- Runs of the address parser, and the properties at concrete inputs.
use mailvault.Base.{
  ◌≡◌, ◌≢◌, refl, inl, inr, [], ◌∷◌, ◌++◌, arith, Bytes, codes, to_lower, contains, cut, trim,
  trim_left, trim_right, ends_in, split,
}
use mailvault.Address.{
  ends_with_dot, not_one_at, bad_domain, all_domain_bytes, starts_with, check_domain, clean_domain,
  clean_email_address, parse_email_address,
}
use mailvault.Address.Domain.{IsDomain}
use mailvault.Address.RoundTrip.{parse_email_address-append, parse_email_address-IsDomain}

parsed :
    (parse_email_address (codes "Bob B <bob@Example.COM>") ≡ inr (codes "bob", codes "example.com"))
    × (parse_email_address (codes "bob@a@b.com") ≡ inl not_one_at)
    × (parse_email_address (codes "bob@b.com.") ≡ inl (bad_domain ends_with_dot))
    × (clean_domain (codes " Example.com>") ≡ inr (codes "example.com"))
unfolding parse_email_address clean_email_address clean_domain check_domain all_domain_bytes
    starts_with to_lower contains cut trim trim_left trim_right ends_in split
parsed = (refl, refl, refl, refl)

example-IsDomain : IsDomain (codes "example.com")
unfolding all_domain_bytes contains starts_with ends_in to_lower
example-IsDomain = record { bytes = refl; dotted = refl; edges = refl; lower = refl }

not_empty : ◌≢◌ {A = Bytes} (codes "bob") []
not_empty e = ground (arith, e)

parse_email_address-append_example :
    parse_email_address (codes "bob" ++ b'@' ∷ codes "example.com")
    ≡ inr (codes "bob", codes "example.com")
parse_email_address-append_example =
    parse_email_address-append (codes "bob") (codes "example.com") not_empty
      (refl, (refl, (refl, tt))) example-IsDomain

parse_email_address-IsDomain_example : (codes "bob" ≢ []) × IsDomain (codes "example.com")
parse_email_address-IsDomain_example =
    parse_email_address-IsDomain (codes "Bob B <bob@Example.COM>") (codes "bob")
      (codes "example.com") parsed.0
