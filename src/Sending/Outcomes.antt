-- ===== src/Sending/Outcomes.antt =====
-- What SendEmail, ResendEmail and ProcessRetryQueue leave in the repository.
use Prim.Native.String.{String}
use mailvault.Base.{
  ℕ, suc, ◌≡◌, refl, ◌≢◌, ◌⊎◌, inl, inr, Bool, true, false, not, List, [], ◌∷◌, Option, none, some,
  arith, if◌then◌else◌, if_rule, pos, z_ltb, is_blank, Bool-cases, ℕ_discrete, sym, ◌∙◌, subst,
}
use mailvault.Sending.Entity.{SentEmail, failed, pending, sent, can_retry, mark_as_sent}
use mailvault.Sending.Retry.{validate-is_valid, mark_as_failed_counts}
use mailvault.Sending.UseCase.{
  SendEmailRequest, RequestError, validate, new_sent_email, invalid_request, create_failed,
  get_failed, not_retriable, sender_failed, Outside, Clock, Sent, answer, error, response, finish,
  send_created, send_checked, send_email, resend_found, resend_email, retry_each, process_rows,
  process_retry_queue,
}

-- What the use case relies on: an update that goes well stores the row and leaves the others, one that
-- fails leaves all rows, and the sender leaves them too (its contract in sender.go).
pub record IsOutside (out : Outside) : Type 0 where
  pub get-update :
      (w : out.World) (e : SentEmail)
      → (out.update w e).1 ≡ true
      → out.get (out.update w e).0 e.id ≡ some e
  pub get-update_ne :
      (w : out.World) (e : SentEmail) (id : ℕ)
      → id ≢ e.id
      → out.get (out.update w e).0 id ≡ out.get w id
  pub get-update_failed :
      (w : out.World) (e : SentEmail) (id : ℕ)
      → (out.update w e).1 ≡ false
      → out.get (out.update w e).0 id ≡ out.get w id
  pub get-send :
      (w : out.World) (e : SentEmail) (id : ℕ) → out.get (out.send w e).0 id ≡ out.get w id

module _ (out : Outside) where
  -- The world after an update of the row, in which the row stands unless the update failed.
  abbrev pub Stored : out.World → SentEmail → out.World → Type 0
  Stored w row w' =
      (w' ≡ (out.update w row).0) × ((out.update w row).1 ≡ true → out.get w' row.id ≡ some row)

  -- How the sender's answer r about the row e ends up: in the row, and in the response.
  pub data Finished (e : SentEmail) (r : out.World × (String ⊎ String))
      : out.World × Sent → Type 0 where
    went_out :
        {w : out.World} (row : SentEmail) (id : String)
        → r.1 ≡ inl id
        → Stored r.0 row w
        → (row.status ≡ sent)
          × (row.id ≡ e.id)
          × (row.max_retries ≡ e.max_retries)
          × (row.retry_count ≡ e.retry_count)
          × (row.error_message ≡ none)
          × (row.smtp_message_id ≡ some (if is_blank id then e.message_id else id))
        → Finished e r (w, answer (response row))
    stayed :
        {w : out.World} (row : SentEmail) (message : String)
        → r.1 ≡ inr message
        → Stored r.0 row w
        → (row.status ≡ failed)
          × (row.id ≡ e.id)
          × (row.max_retries ≡ e.max_retries)
          × (row.retry_count ≡ suc e.retry_count)
          × (row.error_message ≡ some message)
        → Finished e r (w, error (sender_failed message))

  -- How SendEmail ends on a request.
  pub data Ending (w : out.World) (e : SentEmail) (req : SendEmailRequest)
      : out.World × Sent → Type 0 where
    refused :
        (err : RequestError)
        → validate req ≡ some err
        → Ending w e req (w, error (invalid_request err))
    uncreated :
        {v : out.World}
        → validate req ≡ none
        → out.create w e ≡ (v, false)
        → Ending w e req (v, error create_failed)
    dispatched :
        {v : out.World} {r : out.World × Sent}
        → validate req ≡ none
        → out.create w e ≡ (v, true)
        → Finished e (out.send v e) r
        → Ending w e req r

  -- How ResendEmail ends on an id.
  pub data Resent (w : out.World) (id : ℕ) : out.World × Sent → Type 0 where
    missing : out.get w id ≡ none → Resent w id (w, error get_failed)
    exhausted :
        (e : SentEmail)
        → out.get w id ≡ some e
        → can_retry e ≡ false
        → Resent w id (w, error not_retriable)
    retried :
        {r : out.World × Sent} (e : SentEmail)
        → out.get w id ≡ some e
        → can_retry e ≡ true
        → (let again = record e { status = pending } in Finished again (out.send w again) r)
        → Resent w id r

  -- Every row stands under its id, and its retries do not pass its bound.
  abbrev pub Bounded : out.World → Type 0
  Bounded w =
      (id : ℕ) (e : SentEmail)
      → out.get w id ≡ some e
      → (e.id ≡ id) × (z_ltb e.max_retries (pos e.retry_count) ≡ false)

  module _ (laws : IsOutside out) where
    stored : (w : out.World) (row : SentEmail) → Stored w row (out.update w row).0
    stored w row = (refl, laws.get-update w row)

    finish-Finished :
        (clock : Clock) (e : SentEmail) (r : out.World × (String ⊎ String))
        → Finished e r (finish out clock e r)
    unfolding finish mark_as_sent
    finish-Finished clock e (w, inl id) =
        went_out _ id refl (stored w _) (refl, refl, refl, refl, refl, refl)
    finish-Finished clock e (w, inr message) =
        let (status, count, text, id, bound, again, kept) =
          mark_as_failed_counts e clock.marked clock.retried message in
        stayed _ message refl (stored w _) (status, id, bound, count, text)

    -- SendEmail refuses an invalid request and reports a row that cannot be created, in the world as
    -- it is then. Else it asks the sender once, and leaves the row sent, with the sender's message id
    -- or by default its own, or failed, with one retry counted, unless that last update fails.
    pub send_email-Ending :
        (w : out.World) (id : ℕ) (clock : Clock) (req : SendEmailRequest)
        → Ending w (new_sent_email id clock.created req) req (send_email out w id clock req)
    unfolding send_email
    send_email-Ending w id clock req = go (validate req) refl
      where
        e : SentEmail
        e = new_sent_email id clock.created req

        created :
            validate req ≡ none
            → (r : out.World × Bool) → out.create w e ≡ r
            → Ending w e req (send_created out clock e r)
        created ok (v, false) q = uncreated ok q
        created ok (v, true) q = dispatched ok q (finish-Finished clock e (out.send v e))

        go :
            (v : Option RequestError)
            → validate req ≡ v
            → Ending w e req (send_checked out clock e w v)
        go (some err) q = refused err q
        go none q = rw (validate-is_valid req id clock.created q) (created q (out.create w e) refl)

    -- ResendEmail touches nothing for a row that is missing, not failed or out of retries. Else it
    -- asks the sender once, and leaves the row sent, or failed with one retry more counted, unless
    -- that last update fails.
    pub resend_email-Resent :
        (w : out.World) (clock : Clock) (id : ℕ) → Resent w id (resend_email out w clock id)
    unfolding resend_email
    resend_email-Resent w clock id = go (out.get w id) refl
      where
        go : (o : Option SentEmail) → out.get w id ≡ o → Resent w id (resend_found out w clock o)
        go none q = missing q
        go (some e) q =
            if_rule (Resent w id) (not (can_retry e)) (λ n. exhausted e q (ground arith))
              λ y.
                let again = record e { status = pending } in
                retried e q (ground arith) (finish-Finished clock again (out.send w again))

    update-Bounded :
        (w : out.World) (row : SentEmail)
        → Bounded w
        → z_ltb row.max_retries (pos row.retry_count) ≡ false
        → Bounded (out.update w row).0
    update-Bounded w row b h id e q = elim (Bool-cases (out.update w row).1) [
      | inl good ↦ elim (ℕ_discrete id row.id) [
        | yes same ↦
            let now : out.get (out.update w row).0 id ≡ some row =
              rw same (laws.get-update w row good) in
            let it : row ≡ e = cc in
            subst
              (λ (x : SentEmail). (x.id ≡ id) × (z_ltb x.max_retries (pos x.retry_count) ≡ false))
              it (sym same, h)
        | no other ↦ b id e (sym (laws.get-update_ne w row id other) ∙ q)
      ]
      | inr bad ↦ b id e (sym (laws.get-update_failed w row id bad) ∙ q)
    ]

    send-Bounded : (w : out.World) (e : SentEmail) → Bounded w → Bounded (out.send w e).0
    send-Bounded w e b id x q = b id x (sym (laws.get-send w e id) ∙ q)

    Finished-Bounded :
        (e : SentEmail) (w : out.World)
        → Bounded w
        → z_ltb e.max_retries (pos e.retry_count) ≡ false
        → z_ltb (pos e.retry_count) e.max_retries ≡ true
        → (r : out.World × Sent) → Finished e (out.send w e) r
        → Bounded r.0
    Finished-Bounded e w b below more _ (went_out row id s (at, kept) facts) =
        rw at (update-Bounded (out.send w e).0 row (send-Bounded w e b) (ground arith))
    Finished-Bounded e w b below more _ (stayed row message s (at, kept) facts) =
        rw at (update-Bounded (out.send w e).0 row (send-Bounded w e b) (ground arith))

    can_retry_more :
        (e : SentEmail) → can_retry e ≡ true → z_ltb (pos e.retry_count) e.max_retries ≡ true
    unfolding can_retry
    can_retry_more e h = ground arith

    Resent-Bounded :
        (w : out.World) (id : ℕ) → Bounded w → (r : out.World × Sent) → Resent w id r → Bounded r.0
    Resent-Bounded w id b _ (missing q) = b
    Resent-Bounded w id b _ (exhausted e q n) = b
    Resent-Bounded w id b r (retried e q y f) =
        Finished-Bounded (record e { status = pending }) w b (b id e q).1 (can_retry_more e y) r f

    retry_each-Bounded :
        (w : out.World) (clock : ℕ → Clock) (es : List SentEmail)
        → Bounded w
        → Bounded (retry_each out w clock es)
    unfolding retry_each
    retry_each-Bounded w clock [] b = b
    retry_each-Bounded w clock (e ∷ es) b =
        retry_each-Bounded (resend_email out w (clock 0) e.id).0 (λ n. clock (suc n)) es
          (Resent-Bounded w e.id b (resend_email out w (clock 0) e.id)
            (resend_email-Resent w (clock 0) e.id))

    -- However the sender and the updates go, ProcessRetryQueue never takes a stored row past its bound
    -- of retries, if none is past it before.
    pub process_retry_queue-Bounded :
        (w : out.World) (clock : ℕ → Clock) (limit : ℕ)
        → Bounded w
        → Bounded (process_retry_queue out w clock limit).0
    unfolding process_retry_queue
    process_retry_queue-Bounded w clock limit b = go (out.for_retry w limit)
      where
        go : (o : Option (List SentEmail)) → Bounded (process_rows out w clock o).0
        go none = b
        go (some es) = retry_each-Bounded w clock es b
