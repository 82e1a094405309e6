-- ===== src/Verifier/Tests.antt =====
-- Runs of DMARC and the risk score, and the properties at concrete inputs.
use mailvault.Base.{
  ℕ, ◌+◌, ◌-◌, ◌*◌, ◌/◌, ◌≡◌, ◌↔◌, refl, ◌⊎◌, true, false, [], ◌∷◌, none, arith, leb, ◌==◌,
  if◌then◌else◌, Bytes, codes, same_text, pos,
}
use mailvault.Spf.{SpfStatus, SpfResult, spf_pass, spf_soft_fail, spf_none, no_error, Net}
use mailvault.Spf.Record.{extract_domain_from_email}
use mailvault.Verifier.{
  DkimResult, dkim_pass, DmarcStatus, DmarcResult, dmarc_pass, dmarc_none, policy_reject,
  policy_other, reputation_good, reputation_suspicious, reputation_bad, action_reject,
  action_accept,
}
use mailvault.Verifier.Dmarc.{Lookup, found, no_policy, verify_dmarc}
use mailvault.Verifier.Dmarc.Pass.{Vouched, verify_dmarc_passes}
use mailvault.Verifier.Risk.{
  Floats, VerificationConfig, VerificationResult, risk_score, determine_action,
  risk_score_to_action, spf_risk, dkim_risk, dmarc_risk, ip_risk, domain_risk, score_risk,
  content_risk, blacklist_risk,
}
use mailvault.Verifier.Risk.Actions.{is_hard_failure, determine_action-reject}
use mailvault.Verifier.Risk.Monotone.{IsOrdered, risk_score_mono}

abbrev net : Net
net = record {
  Ip = ℕ;
  Network = ℕ;
  exchange = λ t d. none;
  ip_equal = ◌==◌;
  parse_cidr = λ s. none;
  network_contains = ◌==◌;
  parse_address = λ s. none;
}

abbrev lookup : Bytes → Lookup
lookup domain =
    if same_text domain (codes "a.com")
    then found
        (record { policy = policy_reject; spf_strict = true; dkim_strict = false; percent = none })
    else no_policy

abbrev spf_of : SpfStatus → SpfResult
spf_of status = record { result = status; mechanism = []; error = no_error }

abbrev signed : DkimResult
signed = record {
  results = record { domain = codes "mail.a.com"; status = dkim_pass } ∷ [];
  valid = true;
}

verify_dmarc_passes_example :
    ((verify_dmarc net lookup (codes "x@a.com") (spf_of spf_none) signed).result ≡ dmarc_pass)
    ↔ Vouched net lookup
        (codes "x@a.com")
        (spf_of spf_none)
        signed
        (extract_domain_from_email net (codes "x@a.com"))
verify_dmarc_passes_example =
    verify_dmarc_passes net lookup (codes "x@a.com") (spf_of spf_none) signed

-- Scores in hundredths.
abbrev hundredths : Floats
hundredths = record {
  Float = ℕ;
  literal = λ n. n;
  of_count = λ n. 100 * n;
  plus = ◌+◌;
  minus = ◌-◌;
  times = λ x y. x * y / 100;
  at_least = λ x y. leb y x;
}

hundredths-IsOrdered : IsOrdered hundredths
hundredths-IsOrdered = record {
  reflexive = λ x. ground arith;
  transitive = λ x y z h k. ground arith;
  plus_left = λ x y z h. ground arith;
  plus_literal = λ x m n h. ground arith;
  plus_positive = λ x n. ground arith;
}

abbrev config : VerificationConfig hundredths
config = record {
  enable_spf = true;
  enable_dkim = true;
  enable_dmarc = true;
  enable_reputation = true;
  enable_content = true;
  spam_threshold = 70;
  reject_on_fail = true;
  quarantine_mode = false;
}

abbrev dmarc_of : DmarcStatus → DmarcResult
dmarc_of status = record {
  result = status;
  policy = policy_other;
  percentage = pos 0;
  spf_align = false;
  dkim_align = false;
}

abbrev good : VerificationResult hundredths
good = record {
  spf = spf_of spf_pass;
  dkim = signed;
  dmarc = dmarc_of dmarc_pass;
  reputation = record {
    ip_reputation = reputation_good;
    domain_reputation = reputation_good;
    blacklisted = [];
    score = 70;
    error = [];
  };
  spam_score = 10;
}

abbrev bad : VerificationResult hundredths
bad = record {
  spf = spf_of spf_soft_fail;
  dkim = signed;
  dmarc = dmarc_of dmarc_none;
  reputation = record {
    ip_reputation = reputation_suspicious;
    domain_reputation = reputation_bad;
    blacklisted = [];
    score = 70;
    error = [];
  };
  spam_score = 10;
}

scores :
    (risk_score hundredths config good ≡ 13)
    × (risk_score hundredths config bad ≡ 83)
    × (determine_action hundredths config good ≡ action_accept)
    × (determine_action hundredths config bad ≡ action_reject)
unfolding risk_score spf_risk dkim_risk dmarc_risk ip_risk domain_risk score_risk content_risk
    blacklist_risk determine_action risk_score_to_action
scores = (refl, refl, refl, refl)

determine_action-reject_example : (determine_action hundredths config bad ≡ action_reject) ↔ (
    (config.reject_on_fail ≡ true)
    × ((is_hard_failure hundredths bad ≡ true)
        ⊎ ((leb 70 (risk_score hundredths config bad) ≡ true) × (config.quarantine_mode ≡ false))))
determine_action-reject_example = determine_action-reject hundredths config bad

risk_score_mono_example :
    leb (risk_score hundredths config good) (risk_score hundredths config bad) ≡ true
risk_score_mono_example = risk_score_mono hundredths hundredths-IsOrdered config good bad (record {
  spf = tt;
  dkim = tt;
  dmarc = tt;
  ip = tt;
  domain = tt;
  score = refl;
  content = refl;
  lists = refl;
})
