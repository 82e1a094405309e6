-- ===== src/Verifier/Risk/Actions.antt =====
-- Which messages Verifier of app/smtp/verification/verifier.go rejects, and which it accepts.
use mailvault.Base.{◌≡◌, ◌⊎◌, ◌↔◌, Bool, true, false, ◌&&◌, ◌||◌, leb, arith, length}
use mailvault.Verifier.{action_accept, action_reject}
use mailvault.Verifier.Risk.{
  Floats, VerificationConfig, VerificationResult, risk_score, risk_score_to_action,
  determine_action, is_spf_fail, is_spf_temp_error, is_dmarc_fail, is_dmarc_temp_error,
  is_reject_policy, has_text,
}

module _ (fl : Floats) where
  open fl use {at_least, literal}

  -- A hard SPF fail, a DMARC fail under the policy to reject, or three blacklists.
  abbrev pub is_hard_failure : VerificationResult fl → Bool
  is_hard_failure r =
      is_spf_fail fl r.spf.result
      || is_dmarc_fail fl r.dmarc.result && is_reject_policy fl r.dmarc.policy
      || leb 3 (length r.reputation.blacklisted)

  abbrev pub is_temporary : VerificationResult fl → Bool
  is_temporary r =
      is_spf_temp_error fl r.spf.result
      || is_dmarc_temp_error fl r.dmarc.result
      || has_text fl r.reputation.error

  -- A message is rejected exactly when the configuration says to reject and either the failure is a
  -- hard one or the score reaches the threshold and is not to be quarantined.
  pub determine_action-reject :
      (config : VerificationConfig fl) (r : VerificationResult fl)
      → (determine_action fl config r ≡ action_reject) ↔ (
          (config.reject_on_fail ≡ true)
          × ((is_hard_failure r ≡ true)
              ⊎ ((at_least (risk_score fl config r) config.spam_threshold ≡ true)
                  × (config.quarantine_mode ≡ false))))
  unfolding determine_action risk_score_to_action
  determine_action-reject config r = ground arith

  -- A message is accepted exactly when it has no hard failure that the configuration rejects, its score
  -- is below the threshold and below 0.5, and no check failed for a time only.
  pub determine_action-accept :
      (config : VerificationConfig fl) (r : VerificationResult fl)
      → (determine_action fl config r ≡ action_accept) ↔ (
          ((config.reject_on_fail && is_hard_failure r) ≡ false)
          × (at_least (risk_score fl config r) config.spam_threshold ≡ false)
          × (at_least (risk_score fl config r) (literal 50) ≡ false)
          × (is_temporary r ≡ false))
  unfolding determine_action risk_score_to_action
  determine_action-accept config r = ground arith
