-- ===== src/Session/Answer.antt =====
-- What Data of app/smtp/session.go answers to the sender of a message.
use mailvault.Base.{ℕ, ◌≡◌, refl, subst, true, List, [], ◌∷◌, none, some, Option, All, Bytes}
use mailvault.Verifier.{Action, action_accept, action_quarantine, action_reject, action_temp_fail}
use mailvault.Session.{
  Session, SessionError, code_of, Backend, filter_error, check_domain_of, filter_message,
  find_address, process_parsed, process_email, process_all, data_command,
}
use mailvault.Session.Outcome.{
  Refused, no_address, no_domain, no_verified_domain, filtered, no_mailbox,
}

-- Each recipient has a reason to be refused before anything is stored.
abbrev pub AllRefused : (backend : Backend) → backend.World → List Bytes → Bytes → Type 0
AllRefused backend w recipients body =
    All (λ r. (err : SessionError) × Refused backend r body w err) recipients

-- processEmail gives an SMTP error for the recipient, and leaves the state as it is.
abbrev pub IsAnsweredError : (backend : Backend) → backend.World → Bytes → Bytes → Type 0
IsAnsweredError backend w body recipient =
    (err : SessionError) × (code : ℕ) × (process_email backend w recipient body ≡ (w, some err))
    × (code_of err ≡ some code)

-- An error that is an SMTP error has a code.
abbrev Coded : Option SessionError → Type 0
Coded none = Unit
Coded (some err) = (code : ℕ) × (code_of err ≡ some code)

filter_error-code :
    (a : Action) (err : SessionError)
    → filter_error a ≡ some err
    → (code : ℕ) × (code_of err ≡ some code)
unfolding filter_error
filter_error-code action_reject err h = subst Coded h (550, refl)
filter_error-code action_temp_fail err h = subst Coded h (451, refl)
filter_error-code action_quarantine err h = subst Coded h tt
filter_error-code action_accept err h = subst Coded h tt

module _ (backend : Backend) (w : backend.World) (body : Bytes) where
  Refused-IsAnsweredError :
      (recipient : Bytes) (err : SessionError)
      → Refused backend recipient body w err
      → IsAnsweredError backend w body recipient
  unfolding process_email process_parsed check_domain_of filter_message find_address
  Refused-IsAnsweredError recipient err (no_address e h) = (err, 550, rw h refl, refl)
  Refused-IsAnsweredError recipient err (no_domain l n h g) = (err, 550, rw (h, g) refl, refl)
  Refused-IsAnsweredError recipient err (no_verified_domain l n d h g v) =
      (err, 550, rw (h, g, v) refl, refl)
  Refused-IsAnsweredError recipient err (filtered _ l d ((n, h, g), v) f) =
      let (code, c) = filter_error-code _ err f in (err, code, rw (h, g, v, f) refl, c)
  Refused-IsAnsweredError recipient err (no_mailbox l d ((n, h, g), v) f a closed) =
      (err, 550, rw (h, g, v, f, a, closed) refl, refl)

  all_answered :
      (recipients : List Bytes)
      → AllRefused backend w recipients body
      → All (IsAnsweredError backend w body) recipients
  all_answered [] a = tt
  all_answered (r ∷ rest) a = (Refused-IsAnsweredError r a.0.0 a.0.1, all_answered rest a.1)

  process_all_refused :
      (n : ℕ) (recipients : List Bytes)
      → All (IsAnsweredError backend w body) recipients
      → process_all backend w n recipients body ≡ (w, n)
  unfolding process_all
  process_all_refused n [] a = refl
  process_all_refused n (r ∷ rest) a = rw a.0.2 (process_all_refused n rest a.1)

  -- A message each of whose recipients is refused before anything is stored, because it is no address,
  -- its domain is not configured or not verified, the verifier does not let the message pass, or it has
  -- no mailbox in a domain that makes none: processEmail gives an SMTP error with a code for each and the
  -- state is as it was, and yet Data returns nil, so that the sender is told that it was delivered.
  pub refused_message_acknowledged :
      (s : Session)
      → AllRefused backend w s.to body
      → All (IsAnsweredError backend w body) s.to
        × (data_command backend w s (some body) ≡ (w, true, 0))
  unfolding data_command
  refused_message_acknowledged s a =
      let answered = all_answered s.to a in
      (answered, rw (process_all_refused 0 s.to answered) refl)
