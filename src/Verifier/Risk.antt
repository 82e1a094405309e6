-- ===== src/Verifier/Risk.antt =====
-- Verifier of app/smtp/verification/verifier.go: the checks that are switched on, the risk score and
-- the action. The score is a float64; its operations are a parameter.
use mailvault.Base.{
  ℕ, zero, suc, Bool, true, false, ◌&&◌, ◌||◌, not, List, [], ◌∷◌, Option, none, some, ltb, leb,
  ◌==◌, if◌then◌else◌, length, Bytes, pos,
}
use mailvault.Spf.{
  SpfStatus, spf_none, spf_neutral, spf_pass, spf_fail, spf_soft_fail, spf_temp_error,
  spf_perm_error, no_error, SpfResult, Net,
}
use mailvault.Spf.Verdict.{verify_spf}
use mailvault.Verifier.{
  DkimResult, DmarcStatus, dmarc_none, dmarc_fail, dmarc_temp_error, dmarc_perm_error, Policy,
  policy_reject, policy_other, DmarcResult, Reputation, reputation_unknown, reputation_suspicious,
  reputation_bad, Action, action_accept, action_quarantine, action_reject, action_temp_fail,
}
use mailvault.Verifier.Dmarc.{Lookup, verify_dmarc}
pub mod Actions
pub mod Monotone

-- float64: the literals with two decimals, counted in hundredths, float64(n) of an int, and the
-- operations that the score uses.
pub record Floats : Type 1 where
  pub Float : Type 0
  pub literal : ℕ → Float
  pub of_count : ℕ → Float
  pub plus : Float → Float → Float
  pub minus : Float → Float → Float
  pub times : Float → Float → Float
  pub at_least : Float → Float → Bool

module _ (fl : Floats) where
  open fl use {Float, literal, of_count, plus, minus, times, at_least}

  pub record VerificationConfig : Type 0 where
    pub enable_spf : Bool
    pub enable_dkim : Bool
    pub enable_dmarc : Bool
    pub enable_reputation : Bool
    pub enable_content : Bool
    pub spam_threshold : Float
    pub reject_on_fail : Bool
    pub quarantine_mode : Bool

  pub record ReputationResult : Type 0 where
    pub ip_reputation : Reputation
    pub domain_reputation : Reputation
    pub blacklisted : List Bytes
    pub score : Float
    pub error : Bytes

  -- The fields that the action depends on; the content is its spam score.
  pub record VerificationResult : Type 0 where
    pub spf : SpfResult
    pub dkim : DkimResult
    pub dmarc : DmarcResult
    pub reputation : ReputationResult
    pub spam_score : Float

  unfoldable pub spf_risk : SpfStatus → Float → Float
  spf_risk spf_fail risk = plus risk (literal 30)
  spf_risk spf_soft_fail risk = plus risk (literal 10)
  spf_risk spf_temp_error risk = plus risk (literal 5)
  spf_risk spf_perm_error risk = plus risk (literal 5)
  spf_risk _ risk = risk

  unfoldable pub dkim_risk : Bool → Float → Float
  dkim_risk fails risk = if fails then plus risk (literal 20) else risk

  unfoldable pub dmarc_risk : DmarcStatus → Float → Float
  dmarc_risk dmarc_fail risk = plus risk (literal 40)
  dmarc_risk dmarc_temp_error risk = plus risk (literal 10)
  dmarc_risk dmarc_perm_error risk = plus risk (literal 10)
  dmarc_risk _ risk = risk

  unfoldable pub ip_risk : Reputation → Float → Float
  ip_risk reputation_bad risk = plus risk (literal 50)
  ip_risk reputation_suspicious risk = plus risk (literal 20)
  ip_risk _ risk = risk

  unfoldable pub domain_risk : Reputation → Float → Float
  domain_risk reputation_bad risk = plus risk (literal 40)
  domain_risk reputation_suspicious risk = plus risk (literal 15)
  domain_risk _ risk = risk

  unfoldable pub score_risk : Float → Float → Float
  score_risk score risk = plus risk (times (minus (literal 100) score) (literal 30))

  unfoldable pub content_risk : Bool → Float → Float → Float
  content_risk enabled score risk = if enabled then plus risk (times score (literal 40)) else risk

  unfoldable pub blacklist_risk : ℕ → Float → Float
  blacklist_risk count risk =
      if ltb 0 count then plus risk (times (of_count count) (literal 20)) else risk

  -- The score that determineAction adds up.
  unfoldable pub risk_score : VerificationConfig → VerificationResult → Float
  risk_score config r =
      let by_spf = spf_risk r.spf.result (literal 0) in
      let by_dkim = dkim_risk (config.enable_dkim && not r.dkim.valid) by_spf in
      let by_dmarc = dmarc_risk r.dmarc.result by_dkim in
      let by_ip = ip_risk r.reputation.ip_reputation by_dmarc in
      let by_domain = domain_risk r.reputation.domain_reputation by_ip in
      let by_score = score_risk r.reputation.score by_domain in
      let by_content = content_risk config.enable_content r.spam_score by_score in
      blacklist_risk (length r.reputation.blacklisted) by_content

  abbrev pub is_spf_fail : SpfStatus → Bool
  is_spf_fail spf_fail = true
  is_spf_fail _ = false

  abbrev pub is_spf_temp_error : SpfStatus → Bool
  is_spf_temp_error spf_temp_error = true
  is_spf_temp_error _ = false

  abbrev pub is_dmarc_fail : DmarcStatus → Bool
  is_dmarc_fail dmarc_fail = true
  is_dmarc_fail _ = false

  abbrev pub is_dmarc_temp_error : DmarcStatus → Bool
  is_dmarc_temp_error dmarc_temp_error = true
  is_dmarc_temp_error _ = false

  abbrev pub is_reject_policy : Policy → Bool
  is_reject_policy policy_reject = true
  is_reject_policy _ = false

  abbrev pub has_text : Bytes → Bool
  has_text [] = false
  has_text (c ∷ s) = true

  past_failures : VerificationConfig → Float → VerificationResult → Action
  past_failures config risk r =
      if at_least risk config.spam_threshold
      then (if config.quarantine_mode
          then action_quarantine
          else if config.reject_on_fail
          then action_reject
          else action_quarantine)
      else if at_least risk (literal 50)
      then action_quarantine
      else if is_spf_temp_error r.spf.result
          || is_dmarc_temp_error r.dmarc.result
          || has_text r.reputation.error
      then action_temp_fail
      else action_accept

  unfoldable pub risk_score_to_action : VerificationConfig → Float → VerificationResult → Action
  unfolding past_failures
  risk_score_to_action config risk r =
      if config.reject_on_fail
      then (if is_spf_fail r.spf.result
          then action_reject
          else if is_dmarc_fail r.dmarc.result && is_reject_policy r.dmarc.policy
          then action_reject
          else if leb 3 (length r.reputation.blacklisted)
          then action_reject
          else past_failures config risk r)
      else past_failures config risk r

  unfoldable pub determine_action : VerificationConfig → VerificationResult → Action
  determine_action config r = risk_score_to_action config (risk_score config r) r

  -- VerifyEmail, on the sender's address and the From text. The DKIM, reputation and content checks are
  -- given by their results.
  unfoldable pub verify_email :
      (net : Net)
      → (Bytes → Lookup)
      → VerificationConfig
      → Option net.Ip
      → Bytes
      → DkimResult
      → ReputationResult
      → Float
      → VerificationResult × Action
  verify_email net lookup config ip from dkim reputation content =
      let spf =
        if config.enable_spf
        then verify_spf net ip from
        else record { result = spf_none; mechanism = []; error = no_error } in
      let dkim' = if config.enable_dkim then dkim else record { results = []; valid = false } in
      let dmarc = if config.enable_dmarc then verify_dmarc net lookup from spf dkim' else record {
        result = dmarc_none;
        policy = policy_other;
        percentage = pos 0;
        spf_align = false;
        dkim_align = false;
      } in
      let reputation' = if config.enable_reputation then reputation else record {
        ip_reputation = reputation_unknown;
        domain_reputation = reputation_unknown;
        blacklisted = [];
        score = literal 50;
        error = [];
      } in
      let r : VerificationResult = record {
        spf = spf;
        dkim = dkim';
        dmarc = dmarc;
        reputation = reputation';
        spam_score = if config.enable_content then content else literal 0;
      } in
      (r, determine_action config r)
