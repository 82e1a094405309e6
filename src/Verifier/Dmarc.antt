-- ===== src/Verifier/Dmarc.antt =====
-- DMARCVerifier of app/smtp/verification/dmarc.go, over the lookup of a policy.
pub mod Pass
use mailvault.Base.{
  ℕ, zero, suc, ◌-◌, ◌≡◌, refl, sym, ◌∙◌, ap, ◌⊎◌, inl, inr, ◌↔◌, Bool, true, false, ◌&&◌, ◌||◌,
  not, List, [], ◌∷◌, Option, none, some, arith, ltb, leb, ◌==◌, if◌then◌else◌, if_rule, Bool-cases,
  ℤ, pos, Bytes, same_text, to_lower, split, join, length, drop,
}
use mailvault.Spf.{SpfStatus, spf_pass, SpfResult, Net}
use mailvault.Spf.Record.{extract_domain_from_email}
use mailvault.Verifier.{
  DkimStatus, dkim_pass, DkimSignatureResult, DkimResult, DmarcStatus, dmarc_none, dmarc_pass,
  dmarc_fail, dmarc_temp_error, dmarc_perm_error, Policy, policy_none, policy_quarantine,
  policy_reject, policy_other, DmarcResult, Action, action_accept, action_quarantine, action_reject,
}

-- The record that go-msgauth reads; a strict alignment, and else a relaxed one.
pub record DmarcRecord : Type 0 where
  pub policy : Policy
  pub spf_strict : Bool
  pub dkim_strict : Bool
  pub percent : Option ℤ

-- What LookupWithOptions gives for a domain.
pub data Lookup : Type 0 where
  temp_fail no_policy other_error nil_record : Lookup
  found : DmarcRecord → Lookup

abbrev pub is_spf_pass : SpfStatus → Bool
is_spf_pass spf_pass = true
is_spf_pass _ = false

abbrev pub is_dkim_pass : DkimStatus → Bool
is_dkim_pass dkim_pass = true
is_dkim_pass _ = false

last_two : Bytes × List Bytes → Bytes → Bytes
last_two (part, []) domain = domain
last_two (part, p ∷ ps) domain =
    let parts = part ∷ p ∷ ps in join (drop (length parts - 2) parts) (b'.' ∷ [])

unfoldable pub get_organizational_domain : Bytes → Bytes
unfolding last_two
get_organizational_domain domain = last_two (split domain b'.') domain

unfoldable pub organizational_domains_match : Bytes → Bytes → Bool
organizational_domains_match domain1 domain2 =
    same_text (to_lower (get_organizational_domain domain1))
      (to_lower (get_organizational_domain domain2))

unfoldable pub is_aligned : Bool → Bytes → Bytes → Bool
is_aligned strict domain from_domain =
    if strict
    then same_text (to_lower domain) (to_lower from_domain)
    else organizational_domains_match domain from_domain

return_path_aligned : DmarcRecord → Bytes → Bytes → Bool
return_path_aligned policy [] from_domain = false
return_path_aligned policy (c ∷ domain) from_domain =
    is_aligned policy.spf_strict (c ∷ domain) from_domain

module _ (net : Net) where
  -- The code takes the From text in place of the envelope sender.
  unfoldable pub get_return_path_domain : Bytes → Bytes
  get_return_path_domain from = extract_domain_from_email net from

  unfoldable pub check_spf_alignment : Bytes → SpfResult → DmarcRecord → Bytes → Bool
  unfolding return_path_aligned
  check_spf_alignment from spf policy from_domain =
      if not (is_spf_pass spf.result)
      then false
      else return_path_aligned policy (get_return_path_domain from) from_domain

unfoldable pub some_aligned : List DkimSignatureResult → DmarcRecord → Bytes → Bool
some_aligned [] policy from_domain = false
some_aligned (s ∷ ss) policy from_domain =
    let rest = some_aligned ss policy from_domain in
    if is_dkim_pass s.status
    then (if is_aligned policy.dkim_strict s.domain from_domain then true else rest)
    else rest

unfoldable pub check_dkim_alignment : DkimResult → DmarcRecord → Bytes → Bool
check_dkim_alignment dkim policy from_domain =
    if not dkim.valid then false else some_aligned dkim.results policy from_domain

unfoldable pub evaluate_dmarc_policy : SpfResult → DkimResult → Bool → Bool → DmarcStatus
evaluate_dmarc_policy spf dkim spf_aligned dkim_aligned =
    if (spf_aligned && is_spf_pass spf.result) || (dkim_aligned && dkim.valid)
    then dmarc_pass
    else dmarc_fail

abbrev failing : DmarcStatus → DmarcResult
failing status = record {
  result = status;
  policy = policy_other;
  percentage = pos 0;
  spf_align = false;
  dkim_align = false;
}

percent_or : Option ℤ → ℤ
percent_or none = pos 100
percent_or (some percent) = percent

module _ (net : Net) (lookup : Bytes → Lookup) where
  with_policy : Bytes → SpfResult → DkimResult → Bytes → Lookup → DmarcResult
  unfolding percent_or
  with_policy from spf dkim domain temp_fail = failing dmarc_temp_error
  with_policy from spf dkim domain no_policy = failing dmarc_none
  with_policy from spf dkim domain other_error = failing dmarc_perm_error
  with_policy from spf dkim domain nil_record = failing dmarc_none
  with_policy from spf dkim domain (found policy) =
      let spf_aligned = check_spf_alignment net from spf policy domain in
      let dkim_aligned = check_dkim_alignment dkim policy domain in
      record {
        result = evaluate_dmarc_policy spf dkim spf_aligned dkim_aligned;
        policy = policy.policy;
        percentage = percent_or policy.percent;
        spf_align = spf_aligned;
        dkim_align = dkim_aligned;
      }

  verify_from : Bytes → SpfResult → DkimResult → Bytes → DmarcResult
  verify_from from spf dkim [] = failing dmarc_perm_error
  verify_from from spf dkim (c ∷ domain) =
      with_policy from spf dkim (c ∷ domain) (lookup (c ∷ domain))

  -- DMARCVerifier.Verify
  unfoldable pub verify_dmarc : Bytes → SpfResult → DkimResult → DmarcResult
  unfolding verify_from with_policy
  verify_dmarc from spf dkim = verify_from from spf dkim (extract_domain_from_email net from)

unfoldable pub get_policy_action : DmarcRecord → DmarcStatus → Action
get_policy_action policy dmarc_fail = elim policy.policy [
  | policy_reject ↦ action_reject
  | policy_quarantine ↦ action_quarantine
  | _ ↦ action_accept
]
get_policy_action policy _ = action_accept
