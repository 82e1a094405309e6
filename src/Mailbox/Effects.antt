-- ===== src/Mailbox/Effects.antt =====
-- What ProcessIncomingEmail of domain/email/usecase.go stores and starts.
use mailvault.Base.{
  ℕ, ◌≡◌, ◌≢◌, refl, ◌⊎◌, inl, inr, Bool, true, false, ◌&&◌, not, List, [], ◌∷◌, ◌++◌, Option, none,
  some, arith, ◌==◌, if_rule, Bool-cases, Bytes, length, ltb,
}
use mailvault.Mailbox.{
  EmailAddress, ReceivedEmail, OwnedDomain, MailboxError, id_required, from_required, body_required,
  create_failed, Repositories, is_empty, has_forwarding, is_valid_received, outcome,
}
use mailvault.Mailbox.Received.{
  Task, notify, forward, IncomingEmail, Hooks, new_received, some_text, domain_name_of,
  full_address, recipient, notifications, forwardings, stored, process_incoming_email,
}

some_forwards : (enabled : Bool) (to : List Bytes) → (enabled && ltb 0 (length to)) ≡ true → to ≢ []
some_forwards true [] h = absurd (ground (arith, h))
some_forwards true (a ∷ to) h = λ e. ground (arith, e)
some_forwards false to h = absurd (ground (arith, h))

no_forwards :
    (enabled : Bool) (to : List Bytes)
    → (enabled && ltb 0 (length to)) ≡ false
    → (enabled ≡ false) ⊎ (to ≡ [])
no_forwards true [] h = inr refl
no_forwards true (a ∷ to) h = absurd (ground (arith, h))
no_forwards false to h = inl refl

is_empty-false : (s : Bytes) → is_empty s ≡ false → s ≢ []
unfolding is_empty
is_empty-false [] h = absurd (ground (arith, h))
is_empty-false (c ∷ s) h = λ e. ground (arith, e)

nonempty-is_empty : (s : Bytes) → s ≢ [] → is_empty s ≡ false
unfolding is_empty
nonempty-is_empty [] n = absurd (n refl)
nonempty-is_empty (c ∷ s) n = refl

-- An input with a mailbox, a sender and a body.
pub record IsComplete (req : IncomingEmail) : Type 0 where
  pub to : req.email_address_id ≢ 0
  pub from : req.from_address ≢ []
  pub body : req.body ≢ []

-- The name of a domain, and the text of an address at it, when they are known; the text at no domain
-- ends in "@".
pub data IsNameOf : Option OwnedDomain → Bytes → Type 0 where
  no_name : IsNameOf none []
  name_of : (d : OwnedDomain) → IsNameOf (some d) d.domain

pub data IsAddressAt (name : Bytes) : Option EmailAddress → Bytes → Type 0 where
  no_mailbox : IsAddressAt name none []
  mailbox_at : (a : EmailAddress) → IsAddressAt name (some a) (a.local_part ++ b'@' ∷ name)

-- An empty subject is stored as none.
pub data IsSubjectOf : Bytes → Option Bytes → Type 0 where
  no_subject : IsSubjectOf [] none
  subject_of : (s : Bytes) → s ≢ [] → IsSubjectOf s (some s)

-- The row carries the input, under the id drawn and the time.
pub record IsRowOf (drawn at : ℕ) (req : IncomingEmail) (row : ReceivedEmail) : Type 0 where
  pub id : row.id ≡ drawn
  pub received_at : row.received_at ≡ at
  pub subject : IsSubjectOf req.subject row.subject
  pub domain_name : IsNameOf req.domain row.domain_name
  pub email_address : IsAddressAt row.domain_name req.email_address row.email_address
  pub to : row.email_address_id ≡ some req.email_address_id
  pub from : row.from_address ≡ req.from_address
  pub body : row.encrypted_body ≡ req.body

module _ (hooks : Hooks) (req : IncomingEmail) where
  -- The notifier is told once if there is one and the domain and the mailbox are known.
  pub data Notified (row : ReceivedEmail) : List Task → Type 0 where
    told :
        (d : OwnedDomain) (a : EmailAddress)
        → hooks.webhook_notifier ≡ true
        → req.domain ≡ some d
        → req.email_address ≡ some a
        → Notified row (notify row d a req.auto_created ∷ [])
    not_told :
        (hooks.webhook_notifier ≡ false) ⊎ ((req.domain ≡ none) ⊎ (req.email_address ≡ none))
        → Notified row []

  -- The recipient that the forwarder is told: the address of the mailbox, or none without a domain.
  pub data IsOriginal (a : EmailAddress) : Bytes → Type 0 where
    nowhere : req.domain ≡ none → IsOriginal a []
    at_domain :
        (d : OwnedDomain) → req.domain ≡ some d → IsOriginal a (a.local_part ++ b'@' ∷ d.domain)

  -- The forwarder gets the message once, if there is one and the mailbox forwards to somebody.
  pub data Forwarded : List Task → Type 0 where
    relayed :
        (a : EmailAddress) (original : Bytes)
        → hooks.email_forwarder ≡ true
        → req.email_address ≡ some a
        → a.forwarding_enabled ≡ true
        → a.forward_addresses ≢ []
        → IsOriginal a original
        → Forwarded (forward req.from_address original req.subject a.forward_addresses ∷ [])
    kept :
        (hooks.email_forwarder ≡ false)
          ⊎ ((req.email_address ≡ none)
              ⊎ ((a : EmailAddress) × (req.email_address ≡ some a)
                  × ((a.forwarding_enabled ≡ false) ⊎ (a.forward_addresses ≡ []))))
        → Forwarded []

  notifications-Notified :
      (row : ReceivedEmail) (b : Bool) (domain : Option OwnedDomain) (address : Option EmailAddress)
      → hooks.webhook_notifier ≡ b
      → req.domain ≡ domain
      → req.email_address ≡ address
      → Notified row (notifications b row req.auto_created domain address)
  unfolding notifications
  notifications-Notified row false domain address n e f = not_told (inl n)
  notifications-Notified row true none address n e f = not_told (inr (inl e))
  notifications-Notified row true (some d) none n e f = not_told (inr (inr f))
  notifications-Notified row true (some d) (some a) n e f = told d a n e f

  recipient-IsOriginal :
      (a : EmailAddress) (domain : Option OwnedDomain)
      → req.domain ≡ domain
      → IsOriginal a (recipient domain a)
  unfolding recipient
  recipient-IsOriginal a none e = nowhere e
  recipient-IsOriginal a (some d) e = at_domain d e

  forwardings-Forwarded :
      (b : Bool) (address : Option EmailAddress)
      → hooks.email_forwarder ≡ b
      → req.email_address ≡ address
      → Forwarded (forwardings b req address)
  unfolding forwardings has_forwarding
  forwardings-Forwarded false address n e = kept (inl n)
  forwardings-Forwarded true none n e = kept (inr (inl e))
  forwardings-Forwarded true (some a) n e =
      if_rule Forwarded (a.forwarding_enabled && ltb 0 (length a.forward_addresses))
        (λ h.
          relayed a _ n e (ground (arith, h)) (some_forwards _ _ h)
            (recipient-IsOriginal a req.domain refl))
        (λ h. kept (inr (inr (a, e, no_forwards _ _ h))))

some_text-IsSubjectOf : (s : Bytes) → IsSubjectOf s (some_text s)
unfolding some_text is_empty
some_text-IsSubjectOf [] = no_subject
some_text-IsSubjectOf (c ∷ s) = subject_of (c ∷ s) (λ e. ground (arith, e))

domain_name_of-IsNameOf : (domain : Option OwnedDomain) → IsNameOf domain (domain_name_of domain)
unfolding domain_name_of
domain_name_of-IsNameOf none = no_name
domain_name_of-IsNameOf (some d) = name_of d

full_address-IsAddressAt :
    (name : Bytes) (address : Option EmailAddress)
    → IsAddressAt name address (full_address address name)
unfolding full_address
full_address-IsAddressAt name none = no_mailbox
full_address-IsAddressAt name (some a) = mailbox_at a

module _ (repos : Repositories) (w : repos.World) (hooks : Hooks) (id now : ℕ)
    (req : IncomingEmail) where
  -- The endings of ProcessIncomingEmail: the world, the error and the tasks that it leaves.
  pub data Processed : repos.World → Option MailboxError → List Task → Type 0 where
    refused : (err : MailboxError) → ¬ IsComplete req → Processed w (some err) []
    unstored :
        (row : ReceivedEmail)
        → IsComplete req
        → IsRowOf id now req row
        → (repos.create_received w row).1 ≡ false
        → Processed (repos.create_received w row).0 (some create_failed) []
    received :
        (row : ReceivedEmail) {told relayed : List Task}
        → IsComplete req
        → IsRowOf id now req row
        → (repos.create_received w row).1 ≡ true
        → Notified hooks req row told
        → Forwarded hooks req relayed
        → Processed (repos.create_received w row).0 none (told ++ relayed)

  abbrev ProcessedResult : repos.World × Option MailboxError × List Task → Type 0
  ProcessedResult (w', err, tasks) = Processed w' err tasks

  stored-Processed :
      (row : ReceivedEmail)
      → IsComplete req
      → IsRowOf id now req row
      → ProcessedResult
          (stored repos hooks row req (outcome create_failed row (repos.create_received w row)))
  unfolding stored outcome
  stored-Processed row c r = elim (Bool-cases (repos.create_received w row).1) [
    | inl ok ↦ rw ok (
        received row c r ok (notifications-Notified hooks req row _ _ _ refl refl refl)
          (forwardings-Forwarded hooks req _ _ refl refl))
    | inr failed ↦ rw failed (unstored row c r failed)
  ]

  -- ProcessIncomingEmail refuses an input without a mailbox, a sender or a body and then changes and
  -- starts nothing. Else it stores one row that carries the input, its subject and the address of the
  -- mailbox included; if that fails it starts nothing, and if not it tells the notifier of the row once,
  -- if there is one and the domain and mailbox are known, and hands the message once to the forwarder,
  -- with the address of the mailbox, if there is one and the mailbox forwards to somebody.
  pub process_incoming_email-Processed :
      let r = process_incoming_email repos w hooks id now req in Processed r.0 r.1 r.2
  unfolding process_incoming_email is_valid_received new_received
  process_incoming_email-Processed =
      if_rule ProcessedResult (req.email_address_id == 0)
        (λ h. refused id_required (λ c. ground (arith, c.to)))
        λ to.
          if_rule ProcessedResult (is_empty req.from_address)
            (λ h. refused from_required (λ c. ground (arith, nonempty-is_empty _ c.from)))
            λ from.
              if_rule ProcessedResult (is_empty req.body)
                (λ h. refused body_required (λ c. ground (arith, nonempty-is_empty _ c.body)))
                λ body.
                  if_rule ProcessedResult (not (is_valid_received (new_received id now req)))
                    (λ h. absurd (ground (arith, from, body, h)))
                    λ _.
                      stored-Processed (new_received id now req)
                        (record {
                          to = ground (arith, to);
                          from = is_empty-false _ from;
                          body = is_empty-false _ body;
                        })
                        (record {
                          id = refl;
                          received_at = refl;
                          subject = some_text-IsSubjectOf req.subject;
                          domain_name = domain_name_of-IsNameOf req.domain;
                          email_address = full_address-IsAddressAt _ req.email_address;
                          to = refl;
                          from = refl;
                          body = refl;
                        })
