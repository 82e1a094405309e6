-- ===== src/Spf/Verdict/Safety.antt =====
-- Where the verdicts of the SPF check come from.
use mailvault.Base.{
  ℕ, zero, suc, ◌≡◌, ◌≢◌, refl, sym, ◌∙◌, ap, ◌⊎◌, inl, inr, Bool, true, false, List, [], ◌∷◌, ◌++◌,
  Option, none, some, arith, if_rule, Bool-cases, All, Bytes, codes, same_text,
}
use mailvault.Spf.{
  SpfStatus, spf_neutral, spf_pass, spf_fail, spf_soft_fail, no_error, SpfResult, SpfMechanism, Net,
}
use mailvault.Spf.Record.{parse_spf_record, qualifier_to_result, extract_domain_from_email}
use mailvault.Spf.Verdict.{
  verdict, is_neutral, first_verdict, include_result, get_spf_record, matches, match_result,
  include_record, evaluate_include, include_value, evaluate_mechanism, evaluate_spf, verify_record,
  verify_domain, verify_spf,
}

-- How the loop over mechanisms ends: at the first whose result is not neutral, or at none.
abbrev Decided : (SpfMechanism → SpfResult) → List SpfMechanism → SpfResult → Type 0
Decided f ms r =
    (All (λ m. is_neutral (f m).result ≡ true) ms × (r ≡ verdict spf_neutral no_error))
    ⊎ ((before : List SpfMechanism) × (m : SpfMechanism) × (later : List SpfMechanism) × (ms
          ≡ before ++ m ∷ later)
        × All (λ m. is_neutral (f m).result ≡ true) before
        × (is_neutral (f m).result ≡ false)
        × (r ≡ f m))

first_verdict-Decided :
    (f : SpfMechanism → SpfResult) (ms : List SpfMechanism) → Decided f ms (first_verdict f ms)
unfolding first_verdict
first_verdict-Decided f [] = inl (tt, refl)
first_verdict-Decided f (m ∷ ms) =
    if_rule (Decided f (m ∷ ms)) (is_neutral (f m).result)
      (λ y. elim (first_verdict-Decided f ms) [
        | inl (all, e) ↦ inl ((y, all), e)
        | inr (before, m', later, e, all, n, r) ↦
            inr (m ∷ before, m', later, ap (◌∷◌ m) e, (y, all), n, r)
      ])
      (λ n. inr ([], m, ms, refl, tt, n, refl))

neutral-pass : (r : SpfResult) → r.result ≡ spf_pass → is_neutral r.result ≡ true → ⊥
neutral-pass r e n = ground (arith, n, e)

-- A mechanism of the list, told by what stands before and after it.
abbrev pub OneOf : List SpfMechanism → SpfMechanism → Type 0
OneOf ms m = (before : List SpfMechanism) × (later : List SpfMechanism) × (ms ≡ before ++ m ∷ later)

-- The result of the loop is that of one of the mechanisms, unless it is neutral.
first_verdict-OneOf :
    (f : SpfMechanism → SpfResult) (ms : List SpfMechanism)
    → is_neutral (first_verdict f ms).result ≡ false
    → (m : SpfMechanism) × OneOf ms m × (first_verdict f ms ≡ f m)
first_verdict-OneOf f ms n = elim (first_verdict-Decided f ms) [
  | inl (all, e) ↦ absurd (ground (arith, n, ap (λ (r : SpfResult). is_neutral r.result) e))
  | inr (before, m, later, e, all, k, r) ↦ (m, (before, later, e), r)
]

include_result-pass :
    (d : Bytes) (r : SpfResult) → (include_result d r).result ≡ spf_pass → r.result ≡ spf_pass
unfolding include_result
include_result-pass d r h = ground (arith, h)

-- An included record never makes the including one fail.
include_result-safe :
    (d : Bytes) (r : SpfResult)
    → ((include_result d r).result ≢ spf_fail) × ((include_result d r).result ≢ spf_soft_fail)
unfolding include_result
include_result-safe d r = (λ e. ground (arith, e), λ e. ground (arith, e))

module _ (net : Net) (ip : net.Ip) (sender : Bytes) where
  -- What an SPF pass rests on, for a record of a domain: a mechanism of the record that matches the
  -- address and has the qualifier "+", or one that includes a record of which the same holds.
  pub data Permitted : Bytes → Bytes → Type 0 where
    by_mechanism :
        {text domain : Bytes} (m : SpfMechanism)
        → OneOf (parse_spf_record text) m
        → matches net m ip domain sender ≡ some (some true)
        → qualifier_to_result m.qualifier ≡ spf_pass
        → Permitted text domain
    by_include :
        {text domain : Bytes} (m : SpfMechanism) (included : Bytes)
        → OneOf (parse_spf_record text) m
        → same_text m.mechanism (codes "include") ≡ true
        → get_spf_record net m.value ≡ some included
        → Permitted included m.value
        → Permitted text domain

  match_result-pass :
      (m : SpfMechanism) (o : Option (Option Bool)) (status : SpfStatus)
      → (match_result net m o).result ≡ status
      → (status ≡ spf_pass) ⊎ (status ≡ spf_fail)
      → (o ≡ some (some true)) × (qualifier_to_result m.qualifier ≡ status)
  unfolding match_result
  match_result-pass m none s e k = absurd (ground (arith, e, k))
  match_result-pass m (some none) s e k = absurd (ground (arith, e, k))
  match_result-pass m (some (some false)) s e k = absurd (ground (arith, e, k))
  match_result-pass m (some (some true)) s e k = (refl, e)

  -- An include that passes found a record that passes one level down.
  included-pass :
      (deeper : Bytes → Bytes → SpfResult) (value : Bytes)
      → (include_value net deeper value).result ≡ spf_pass
      → (text : Bytes) × (get_spf_record net value ≡ some text)
        × ((deeper text value).result ≡ spf_pass)
  unfolding include_value evaluate_include
  included-pass deeper [] h = absurd (ground (arith, h))
  included-pass deeper (c ∷ value) h = go (get_spf_record net (c ∷ value)) refl h
    where
      go :
          (o : Option Bytes)
          → get_spf_record net (c ∷ value) ≡ o
          → (include_record net deeper (c ∷ value) o).result ≡ spf_pass
          → (text : Bytes) × (get_spf_record net (c ∷ value) ≡ some text)
            × ((deeper text (c ∷ value)).result ≡ spf_pass)
      go none e h = absurd (ground (arith, h))
      go (some []) e h = absurd (ground (arith, h))
      go (some (d ∷ text)) e h = (d ∷ text, e, include_result-pass (c ∷ value) _ h)

  include_value-safe :
      (deeper : Bytes → Bytes → SpfResult) (value : Bytes)
      → (include_value net deeper value).result ≢ spf_fail
  unfolding include_value evaluate_include include_record
  include_value-safe deeper [] = λ h. ground (arith, h)
  include_value-safe deeper (c ∷ value) = go (get_spf_record net (c ∷ value))
    where
      go : (o : Option Bytes) → (include_record net deeper (c ∷ value) o).result ≢ spf_fail
      go none = λ h. ground (arith, h)
      go (some []) = λ h. ground (arith, h)
      go (some (d ∷ text)) = (include_result-safe (c ∷ value) _).0

  evaluate_spf-Permitted :
      (left : ℕ) (text domain : Bytes)
      → (evaluate_spf net left text ip domain sender).result ≡ spf_pass
      → Permitted text domain
  unfolding evaluate_spf evaluate_mechanism include_record
  evaluate_spf-Permitted zero text domain h = absurd (ground (arith, h))
  evaluate_spf-Permitted (suc left) text domain h =
      let (m, one, e) = first_verdict-OneOf f (parse_spf_record text) (rw h refl) in
      by_one m one (ap (λ (r : SpfResult). r.result) (sym e) ∙ h) (evaluate_spf-Permitted left)
    where
      deeper : Bytes → Bytes → SpfResult
      deeper text' domain' = evaluate_spf net left text' ip domain' sender

      f : SpfMechanism → SpfResult
      f m = evaluate_mechanism net deeper m ip domain sender

      by_one :
          (m : SpfMechanism)
          → OneOf (parse_spf_record text) m
          → (f m).result ≡ spf_pass
          → ((t d : Bytes) → (deeper t d).result ≡ spf_pass → Permitted t d)
          → Permitted text domain
      by_one m one p below = elim (Bool-cases (same_text m.mechanism (codes "include"))) [
        | inl y ↦
            let (t, g, q) = included-pass deeper m.value (rw y at p) in
            by_include m t one y g (below t m.value q)
        | inr n ↦
            let (o, q) =
              match_result-pass m (matches net m ip domain sender) spf_pass (rw n at p)
                (inl refl) in
            by_mechanism m one o q
      ]

  -- A record that fails does so by a mechanism of its own with the qualifier "-" that matches: no
  -- record that it includes can make it fail.
  fails_by_own :
      (left : ℕ) (text domain : Bytes)
      → (evaluate_spf net left text ip domain sender).result ≡ spf_fail
      → (m : SpfMechanism) × OneOf (parse_spf_record text) m
        × (same_text m.mechanism (codes "include") ≡ false)
        × (matches net m ip domain sender ≡ some (some true))
        × (qualifier_to_result m.qualifier ≡ spf_fail)
  unfolding evaluate_spf evaluate_mechanism
  fails_by_own zero text domain h = absurd (ground (arith, h))
  fails_by_own (suc left) text domain h =
      let (m, one, e) = first_verdict-OneOf f (parse_spf_record text) (rw h refl) in
      let p : (f m).result ≡ spf_fail = ap (λ (r : SpfResult). r.result) (sym e) ∙ h in
      elim (Bool-cases (same_text m.mechanism (codes "include"))) [
        | inl y ↦ absurd (include-safe m.value (rw y at p))
        | inr n ↦
            let (o, q) =
              match_result-pass m (matches net m ip domain sender) spf_fail (rw n at p)
                (inr refl) in
            (m, one, n, o, q)
      ]
    where
      deeper : Bytes → Bytes → SpfResult
      deeper text' domain' = evaluate_spf net left text' ip domain' sender

      f : SpfMechanism → SpfResult
      f m = evaluate_mechanism net deeper m ip domain sender

      include-safe : (value : Bytes) → (include_value net deeper value).result ≢ spf_fail
      include-safe value = include_value-safe deeper value

  -- What holds of a result of Verify that comes from a record holds at the domain of the sender.
  verify_record-cases :
      (domain : Bytes) (o : Option Bytes) (status : SpfStatus)
      → (status ≡ spf_pass) ⊎ (status ≡ spf_fail)
      → (verify_record net ip domain sender o).result ≡ status
      → (text : Bytes) × (o ≡ some text)
        × ((evaluate_spf net 11 text ip domain sender).result ≡ status)
  unfolding verify_record
  verify_record-cases domain none s k h = absurd (ground (arith, h, k))
  verify_record-cases domain (some []) s k h = absurd (ground (arith, h, k))
  verify_record-cases domain (some (c ∷ text)) s k h = (c ∷ text, refl, h)

  verify_domain-cases :
      (domain : Bytes) (status : SpfStatus)
      → (status ≡ spf_pass) ⊎ (status ≡ spf_fail)
      → (verify_domain net ip sender domain).result ≡ status
      → (text : Bytes) × (get_spf_record net domain ≡ some text)
        × ((evaluate_spf net 11 text ip domain sender).result ≡ status)
  unfolding verify_domain
  verify_domain-cases [] s k h = absurd (ground (arith, h, k))
  verify_domain-cases (c ∷ domain) s k h = verify_record-cases (c ∷ domain) _ s k h

  -- A pass of the SPF check on a known address rests on a record of the sender's domain that permits
  -- the address: by a matching mechanism with the qualifier "+", its own or one of a record that it
  -- includes at some depth.
  pub verify_spf-Permitted :
      (verify_spf net (some ip) sender).result ≡ spf_pass
      → (text : Bytes) × (get_spf_record net (extract_domain_from_email net sender) ≡ some text)
        × Permitted text (extract_domain_from_email net sender)
  unfolding verify_spf
  verify_spf-Permitted h =
      let (t, g, e) = verify_domain-cases _ spf_pass (inl refl) h in
      (t, g, evaluate_spf-Permitted 11 t _ e)

  -- A fail of the SPF check on a known address comes from the record of the sender's own domain: a
  -- mechanism of it that is no include matches and has the qualifier "-".
  pub verify_spf_fails_by_own :
      (verify_spf net (some ip) sender).result ≡ spf_fail
      → (text : Bytes) × (m : SpfMechanism) × (get_spf_record net
            (extract_domain_from_email net sender)
          ≡ some text)
        × OneOf (parse_spf_record text) m
        × (same_text m.mechanism (codes "include") ≡ false)
        × (matches net m ip (extract_domain_from_email net sender) sender ≡ some (some true))
        × (qualifier_to_result m.qualifier ≡ spf_fail)
  unfolding verify_spf
  verify_spf_fails_by_own h =
      let (t, g, e) = verify_domain-cases _ spf_fail (inr refl) h in
      let (m, one, n, o, q) = fails_by_own 11 t _ e in (t, m, g, one, n, o, q)
