-- ===== src/Spf/Verdict/Cycle.antt =====
-- Records of spf.go that include each other end in an error.
use mailvault.Base.{ℕ, zero, suc, ◌≡◌, refl, List, ◌∷◌, some, Bytes, codes}
use mailvault.Spf.{spf_perm_error, depth_exceeded, SpfResult, SpfMechanism, Net}
use mailvault.Spf.Record.{parse_spf_record}
use mailvault.Spf.Verdict.{
  verdict, first_verdict, include_result, get_spf_record, include_record, evaluate_include,
  include_value, evaluate_mechanism, evaluate_spf,
}

module _ (net : Net) (ip : net.Ip) (sender : Bytes) where
  include_value_exceeded :
      (deeper : Bytes → Bytes → SpfResult) (c d : ℕ) (value text : Bytes)
      → get_spf_record net (c ∷ value) ≡ some (d ∷ text)
      → deeper (d ∷ text) (c ∷ value) ≡ verdict spf_perm_error depth_exceeded
      → include_value net deeper (c ∷ value) ≡ verdict spf_perm_error depth_exceeded
  unfolding include_value evaluate_include include_record include_result
  include_value_exceeded deeper c d value text g e = rw g (rw e refl)

  -- A domain whose record begins by including the domain itself gets a permanent error at every depth
  -- that is left: the recursion ends.
  pub include_cycle :
      (left c d q : ℕ) (value text domain : Bytes) (later : List SpfMechanism)
      → get_spf_record net (c ∷ value) ≡ some (d ∷ text)
      → parse_spf_record (d ∷ text)
        ≡ record { qualifier = q; mechanism = codes "include"; value = c ∷ value } ∷ later
      → evaluate_spf net left (d ∷ text) ip domain sender ≡ verdict spf_perm_error depth_exceeded
  unfolding evaluate_spf evaluate_mechanism first_verdict
  include_cycle zero c d q value text domain later g e = refl
  include_cycle (suc left) c d q value text domain later g e =
      let below = include_cycle left c d q value text (c ∷ value) later g e in
      let here =
        include_value_exceeded (λ t v. evaluate_spf net left t ip v sender) c d value text g
          below in
      rw e (rw here refl)
