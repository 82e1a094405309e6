-- ===== src/Verifier/Dmarc/Pass.antt =====
-- When DMARC passes in app/smtp/verification/dmarc.go.
use mailvault.Base.{
  ℕ, ◌≡◌, ◌≢◌, refl, sym, ◌∙◌, ap, subst, ◌⊎◌, inl, inr, ◌↔◌, Bool, true, false, List, [], ◌∷◌,
  arith, if_rule, Bool-cases, Bytes, same_text_refl, to_lower,
}
use mailvault.Spf.{SpfResult, Net}
use mailvault.Spf.Record.{extract_domain_from_email}
use mailvault.Verifier.{DkimSignatureResult, DkimResult, dmarc_pass}
use mailvault.Verifier.Dmarc.{
  DmarcRecord, Lookup, temp_fail, no_policy, other_error, nil_record, found, is_spf_pass,
  is_dkim_pass, get_organizational_domain, organizational_domains_match, is_aligned,
  check_spf_alignment, some_aligned, check_dkim_alignment, evaluate_dmarc_policy, with_policy,
  verify_from, verify_dmarc, get_return_path_domain,
}

is_aligned_refl : (strict : Bool) (d : Bytes) → is_aligned strict d d ≡ true
unfolding is_aligned organizational_domains_match
is_aligned_refl true d = same_text_refl (to_lower d)
is_aligned_refl false d = same_text_refl (to_lower (get_organizational_domain d))

-- A signature that passes and whose domain is aligned with that of the sender.
pub data Signed (policy : DmarcRecord) (domain : Bytes) : List DkimSignatureResult → Type 0 where
  by_this :
      {ss : List DkimSignatureResult} (s : DkimSignatureResult)
      → is_dkim_pass s.status ≡ true
      → is_aligned policy.dkim_strict s.domain domain ≡ true
      → Signed policy domain (s ∷ ss)
  by_later :
      {ss : List DkimSignatureResult} (s : DkimSignatureResult)
      → Signed policy domain ss
      → Signed policy domain (s ∷ ss)

some_aligned-Signed :
    (policy : DmarcRecord) (domain : Bytes) (ss : List DkimSignatureResult)
    → (some_aligned ss policy domain ≡ true) ↔ Signed policy domain ss
unfolding some_aligned
some_aligned-Signed policy domain ss = (signed ss, aligned ss)
  where
    signed :
        (ss : List DkimSignatureResult)
        → some_aligned ss policy domain ≡ true
        → Signed policy domain ss
    signed [] e = absurd (ground (arith, e))
    signed (s ∷ ss) e =
        if_rule (λ b. b ≡ true → Signed policy domain (s ∷ ss)) (is_dkim_pass s.status)
          (λ p.
            if_rule (λ b. b ≡ true → Signed policy domain (s ∷ ss))
              (is_aligned policy.dkim_strict s.domain domain) (λ a f. by_this s p a)
              (λ _ f. by_later s (signed ss f)))
          (λ _ f. by_later s (signed ss f)) e

    aligned :
        (ss : List DkimSignatureResult)
        → Signed policy domain ss
        → some_aligned ss policy domain ≡ true
    aligned _ (by_this s p a) = rw p (rw a refl)
    aligned _ (by_later {ss} s later) = ground (arith, aligned ss later)

module _ (net : Net) (lookup : Bytes → Lookup) (from : Bytes) (spf : SpfResult)
    (dkim : DkimResult) where
  -- What a pass comes from, for the domain of the From text.
  abbrev pub Vouched : Bytes → Type 0
  Vouched domain =
      (domain ≢ [])
      × ((policy : DmarcRecord) × (lookup domain ≡ found policy)
          × ((is_spf_pass spf.result ≡ true)
              ⊎ ((dkim.valid ≡ true) × Signed policy domain dkim.results)))

  policy_pass :
      (policy : DmarcRecord) (spf_aligned : Bool) (domain : Bytes)
      → spf_aligned ≡ is_spf_pass spf.result
      → (evaluate_dmarc_policy spf dkim spf_aligned (check_dkim_alignment dkim policy domain)
          ≡ dmarc_pass)
        ↔ ((is_spf_pass spf.result ≡ true)
            ⊎ ((dkim.valid ≡ true) × Signed policy domain dkim.results))
  unfolding evaluate_dmarc_policy check_dkim_alignment
  policy_pass policy spf_aligned domain e = (
    λ h. elim (Bool-cases (is_spf_pass spf.result)) [
      | inl y ↦ inl y
      | inr n ↦ elim (Bool-cases (some_aligned dkim.results policy domain)) [
        | inl a ↦
            inr (ground (arith, h, e, n), (some_aligned-Signed policy domain dkim.results).0 a)
        | inr b ↦ absurd (ground (arith, h, e, n, b))
      ]
    ],
    λ o. elim o [
      | inl y ↦ ground (arith, e, y)
      | inr (v, signed) ↦
          ground (arith, v, (some_aligned-Signed policy domain dkim.results).1 signed)
    ],
  )

  -- The From text stands in for the envelope sender, so the SPF alignment is that of a domain with
  -- itself.
  spf_alignment :
      (policy : DmarcRecord) (c : ℕ) (domain : Bytes)
      → extract_domain_from_email net from ≡ c ∷ domain
      → check_spf_alignment net from spf policy (c ∷ domain) ≡ is_spf_pass spf.result
  unfolding check_spf_alignment get_return_path_domain
  spf_alignment policy c domain e =
      rw e (ground (arith, is_aligned_refl policy.spf_strict (c ∷ domain)))

  looked_up :
      (c : ℕ) (domain : Bytes)
      → extract_domain_from_email net from ≡ c ∷ domain
      → (o : Lookup) → lookup (c ∷ domain) ≡ o
      → ((with_policy net lookup from spf dkim (c ∷ domain) o).result ≡ dmarc_pass)
        ↔ Vouched (c ∷ domain)
  unfolding with_policy
  looked_up c domain e temp_fail l =
      (λ h. absurd (ground (arith, h)), λ v. absurd (ground (arith, l, v.1.1)))
  looked_up c domain e no_policy l =
      (λ h. absurd (ground (arith, h)), λ v. absurd (ground (arith, l, v.1.1)))
  looked_up c domain e other_error l =
      (λ h. absurd (ground (arith, h)), λ v. absurd (ground (arith, l, v.1.1)))
  looked_up c domain e nil_record l =
      (λ h. absurd (ground (arith, h)), λ v. absurd (ground (arith, l, v.1.1)))
  looked_up c domain e (found policy) l =
      let pp = policy_pass policy _ (c ∷ domain) (spf_alignment policy c domain e) in
      (
        λ h. ((λ n. ground (arith, n)), (policy, l, pp.0 h)),
        λ v.
            let same : v.1.0 ≡ policy = ap (policy_of policy) (sym v.1.1 ∙ l) in
            pp.1 (
              subst
                (λ p.
                  (is_spf_pass spf.result ≡ true)
                  ⊎ ((dkim.valid ≡ true) × Signed p (c ∷ domain) dkim.results))
                same v.1.2),
      )
    where
      policy_of : DmarcRecord → Lookup → DmarcRecord
      policy_of p (found r) = r
      policy_of p _ = p

  verified :
      (domain : Bytes)
      → extract_domain_from_email net from ≡ domain
      → ((verify_from net lookup from spf dkim domain).result ≡ dmarc_pass) ↔ Vouched domain
  unfolding verify_from
  verified [] e = (λ h. absurd (ground (arith, h)), λ v. absurd (v.0 refl))
  verified (c ∷ domain) e = looked_up c domain e (lookup (c ∷ domain)) refl

  -- A message passes DMARC exactly when its From text has a domain with a policy, and SPF passed or a
  -- DKIM signature passed whose domain is aligned with that domain as the policy asks. That SPF passed
  -- is enough: its domain is never compared with another.
  pub verify_dmarc_passes :
      ((verify_dmarc net lookup from spf dkim).result ≡ dmarc_pass)
      ↔ Vouched (extract_domain_from_email net from)
  unfolding verify_dmarc
  verify_dmarc_passes = verified (extract_domain_from_email net from) refl
