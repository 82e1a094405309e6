-- ===== src/Verifier/Risk/Monotone.antt =====
-- Worse verdicts never lower the risk score of app/smtp/verification/verifier.go.
use mailvault.Base.{
  ℕ, ◌≡◌, ◌≤◌, Bool, true, false, ◌&&◌, not, arith, ltb, if◌then◌else◌, length, Option, none, some,
}
use mailvault.Spf.{SpfStatus, spf_fail, spf_soft_fail, spf_temp_error, spf_perm_error}
use mailvault.Verifier.{
  DmarcStatus, dmarc_fail, dmarc_temp_error, dmarc_perm_error, Reputation, reputation_suspicious,
  reputation_bad,
}
use mailvault.Verifier.Risk.{
  Floats, VerificationConfig, VerificationResult, spf_risk, dkim_risk, dmarc_risk, ip_risk,
  domain_risk, score_risk, content_risk, blacklist_risk, risk_score,
}

-- What the argument needs of the numbers, which are no NaN: `at_least` is an order, a sum grows with
-- either number, and a literal grows with its digits.
pub record IsOrdered (fl : Floats) : Type 0 where
  pub reflexive : (x : fl.Float) → fl.at_least x x ≡ true
  pub transitive :
      (x y z : fl.Float) → fl.at_least x y ≡ true → fl.at_least y z ≡ true → fl.at_least x z ≡ true
  pub plus_left :
      (x y z : fl.Float) → fl.at_least x y ≡ true → fl.at_least (fl.plus x z) (fl.plus y z) ≡ true
  pub plus_literal :
      (x : fl.Float) (m n : ℕ)
      → m ≤ n
      → fl.at_least (fl.plus x (fl.literal n)) (fl.plus x (fl.literal m)) ≡ true
  pub plus_positive : (x : fl.Float) (n : ℕ) → fl.at_least (fl.plus x (fl.literal n)) x ≡ true

-- The penalty of each verdict in hundredths, none for one that adds nothing.
abbrev pub spf_penalty : SpfStatus → Option ℕ
spf_penalty spf_fail = some 30
spf_penalty spf_soft_fail = some 10
spf_penalty spf_temp_error = some 5
spf_penalty spf_perm_error = some 5
spf_penalty _ = none

abbrev pub dmarc_penalty : DmarcStatus → Option ℕ
dmarc_penalty dmarc_fail = some 40
dmarc_penalty dmarc_temp_error = some 10
dmarc_penalty dmarc_perm_error = some 10
dmarc_penalty _ = none

abbrev pub ip_penalty : Reputation → Option ℕ
ip_penalty reputation_bad = some 50
ip_penalty reputation_suspicious = some 20
ip_penalty _ = none

abbrev pub domain_penalty : Reputation → Option ℕ
domain_penalty reputation_bad = some 40
domain_penalty reputation_suspicious = some 15
domain_penalty _ = none

abbrev pub dkim_penalty : Bool → Option ℕ
dkim_penalty fails = if fails then some 20 else none

abbrev pub NoMore : Option ℕ → Option ℕ → Type 0
NoMore none q = Unit
NoMore (some m) none = ⊥
NoMore (some m) (some n) = m ≤ n

module _ (fl : Floats) (laws : IsOrdered fl) where
  open fl use {Float, literal, plus, at_least}

  raise : Option ℕ → Float → Float
  raise none x = x
  raise (some n) x = plus x (literal n)

  raise_mono :
      (p q : Option ℕ) (x y : Float)
      → NoMore p q
      → at_least y x ≡ true
      → at_least (raise q y) (raise p x) ≡ true
  unfolding raise
  raise_mono none none x y l h = h
  raise_mono none (some n) x y l h =
      laws.transitive (plus y (literal n)) y x (laws.plus_positive y n) h
  raise_mono (some m) none x y l h = absurd l
  raise_mono (some m) (some n) x y l h =
      laws.transitive (plus y (literal n)) (plus y (literal m)) (plus x (literal m))
        (laws.plus_literal y m n l) (laws.plus_left y x (literal m) h)

  spf_risk-raise : (v : SpfStatus) (x : Float) → spf_risk fl v x ≡ raise (spf_penalty v) x
  unfolding spf_risk raise
  spf_risk-raise v x = ground arith

  spf_risk_mono :
      (v w : SpfStatus) (x y : Float)
      → NoMore (spf_penalty v) (spf_penalty w)
      → at_least y x ≡ true
      → at_least (spf_risk fl w y) (spf_risk fl v x) ≡ true
  spf_risk_mono v w x y l h =
      rw (spf_risk-raise v x, spf_risk-raise w y)
        (raise_mono (spf_penalty v) (spf_penalty w) x y l h)

  dkim_risk-raise : (v : Bool) (x : Float) → dkim_risk fl v x ≡ raise (dkim_penalty v) x
  unfolding dkim_risk raise
  dkim_risk-raise v x = ground arith

  dkim_risk_mono :
      (v w : Bool) (x y : Float)
      → NoMore (dkim_penalty v) (dkim_penalty w)
      → at_least y x ≡ true
      → at_least (dkim_risk fl w y) (dkim_risk fl v x) ≡ true
  dkim_risk_mono v w x y l h =
      rw (dkim_risk-raise v x, dkim_risk-raise w y)
        (raise_mono (dkim_penalty v) (dkim_penalty w) x y l h)

  dmarc_risk-raise : (v : DmarcStatus) (x : Float) → dmarc_risk fl v x ≡ raise (dmarc_penalty v) x
  unfolding dmarc_risk raise
  dmarc_risk-raise v x = ground arith

  dmarc_risk_mono :
      (v w : DmarcStatus) (x y : Float)
      → NoMore (dmarc_penalty v) (dmarc_penalty w)
      → at_least y x ≡ true
      → at_least (dmarc_risk fl w y) (dmarc_risk fl v x) ≡ true
  dmarc_risk_mono v w x y l h =
      rw (dmarc_risk-raise v x, dmarc_risk-raise w y)
        (raise_mono (dmarc_penalty v) (dmarc_penalty w) x y l h)

  ip_risk-raise : (v : Reputation) (x : Float) → ip_risk fl v x ≡ raise (ip_penalty v) x
  unfolding ip_risk raise
  ip_risk-raise v x = ground arith

  ip_risk_mono :
      (v w : Reputation) (x y : Float)
      → NoMore (ip_penalty v) (ip_penalty w)
      → at_least y x ≡ true
      → at_least (ip_risk fl w y) (ip_risk fl v x) ≡ true
  ip_risk_mono v w x y l h =
      rw (ip_risk-raise v x, ip_risk-raise w y) (raise_mono (ip_penalty v) (ip_penalty w) x y l h)

  domain_risk-raise : (v : Reputation) (x : Float) → domain_risk fl v x ≡ raise (domain_penalty v) x
  unfolding domain_risk raise
  domain_risk-raise v x = ground arith

  domain_risk_mono :
      (v w : Reputation) (x y : Float)
      → NoMore (domain_penalty v) (domain_penalty w)
      → at_least y x ≡ true
      → at_least (domain_risk fl w y) (domain_risk fl v x) ≡ true
  domain_risk_mono v w x y l h =
      rw (domain_risk-raise v x, domain_risk-raise w y)
        (raise_mono (domain_penalty v) (domain_penalty w) x y l h)

  -- The same verdict on the content, the same reputation score and as many blacklists, and no verdict
  -- of the other checks with a greater penalty.
  pub record NoWorse (config : VerificationConfig fl) (r s : VerificationResult fl) : Type 0 where
    pub spf : NoMore (spf_penalty r.spf.result) (spf_penalty s.spf.result)
    pub dkim :
        NoMore
          (dkim_penalty (config.enable_dkim && not r.dkim.valid))
          (dkim_penalty (config.enable_dkim && not s.dkim.valid))
    pub dmarc : NoMore (dmarc_penalty r.dmarc.result) (dmarc_penalty s.dmarc.result)
    pub ip : NoMore (ip_penalty r.reputation.ip_reputation) (ip_penalty s.reputation.ip_reputation)
    pub domain :
        NoMore
          (domain_penalty r.reputation.domain_reputation)
          (domain_penalty s.reputation.domain_reputation)
    pub score : r.reputation.score ≡ s.reputation.score
    pub content : r.spam_score ≡ s.spam_score
    pub lists : length r.reputation.blacklisted ≡ length s.reputation.blacklisted

  score_risk_mono :
      (a b x y : Float)
      → a ≡ b
      → at_least y x ≡ true
      → at_least (score_risk fl b y) (score_risk fl a x) ≡ true
  unfolding score_risk
  score_risk_mono a b x y e h = rw e (laws.plus_left y x _ h)

  content_risk_mono :
      (on : Bool) (a b x y : Float)
      → a ≡ b
      → at_least y x ≡ true
      → at_least (content_risk fl on b y) (content_risk fl on a x) ≡ true
  unfolding content_risk
  content_risk_mono true a b x y e h = rw e (laws.plus_left y x _ h)
  content_risk_mono false a b x y e h = h

  blacklist_risk_mono :
      (a b : ℕ) (x y : Float)
      → a ≡ b
      → at_least y x ≡ true
      → at_least (blacklist_risk fl b y) (blacklist_risk fl a x) ≡ true
  unfolding blacklist_risk
  blacklist_risk_mono a b x y e h = rw e (go (ltb 0 b))
    where
      go :
          (on : Bool)
          → at_least
              (if on then plus y (fl.times (fl.of_count b) (literal 20)) else y)
              (if on then plus x (fl.times (fl.of_count b) (literal 20)) else x)
            ≡ true
      go true = laws.plus_left y x _ h
      go false = h

  -- The score of a result is at least that of one that is no worse: for numbers in the order of which
  -- sums grow with their parts, a greater penalty of the SPF, DKIM, DMARC or reputation verdicts never
  -- lowers it, the rest being the same.
  pub risk_score_mono :
      (config : VerificationConfig fl) (r s : VerificationResult fl)
      → NoWorse config r s
      → at_least (risk_score fl config s) (risk_score fl config r) ≡ true
  unfolding risk_score
  risk_score_mono config r s n = blacklist_risk_mono _ _ _ _ n.lists (
      content_risk_mono _ _ _ _ _ n.content (
        score_risk_mono _ _ _ _ n.score (
          domain_risk_mono _ _ _ _ n.domain (
            ip_risk_mono _ _ _ _ n.ip (
              dmarc_risk_mono _ _ _ _ n.dmarc (
                dkim_risk_mono _ _ _ _ n.dkim
                  (spf_risk_mono _ _ _ _ n.spf (laws.reflexive (literal 0)))))))))
