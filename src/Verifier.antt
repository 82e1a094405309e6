-- ===== src/Verifier.antt =====
-- The verdict on an incoming message: DMARC and the risk score of app/smtp/verification, with the
-- result types of types.go.
use Prim.Native.String.{String}
use mailvault.Base.{ℕ, Bool, List, ℤ, Bytes}
use mailvault.Spf.{SpfResult}
pub mod Dmarc
pub mod Risk
mod Tests

pub data DkimStatus : Type 0 where
  dkim_none dkim_pass dkim_fail dkim_policy dkim_neutral dkim_temp_error dkim_perm_error :
      DkimStatus

pub record DkimSignatureResult : Type 0 where
  pub domain : Bytes
  pub status : DkimStatus

pub record DkimResult : Type 0 where
  pub results : List DkimSignatureResult
  pub valid : Bool

pub data DmarcStatus : Type 0 where
  dmarc_none dmarc_pass dmarc_fail dmarc_temp_error dmarc_perm_error : DmarcStatus

-- The Policy of a record is one of three texts, or any other; a result without a policy has the empty
-- text, which is an other one.
pub data Policy : Type 0 where
  policy_none policy_quarantine policy_reject policy_other : Policy

pub record DmarcResult : Type 0 where
  pub result : DmarcStatus
  pub policy : Policy
  pub percentage : ℤ
  pub spf_align : Bool
  pub dkim_align : Bool

pub data Reputation : Type 0 where
  reputation_unknown reputation_good reputation_suspicious reputation_bad : Reputation

pub data Action : Type 0 where
  action_accept action_quarantine action_reject action_temp_fail : Action
