-- ===== src/Worker/Once.antt =====
-- The rows and the sendings of one SendEmail of domain/email_sending/usecase.go, over a table whose
-- message ids are unique.
use Prim.Native.String.{String}
use mailvault.Base.{
  ℕ, suc, ◌≡◌, refl, ◌∙◌, ◌⊎◌, inl, inr, Bool, true, false, not, Option, none, some, arith, if_rule,
  Bool-cases, ap, subst,
}
use mailvault.Sending.Entity.{SentEmail, failed, is_valid, can_retry, mark_as_sent, mark_as_failed}
use mailvault.Sending.UseCase.{
  SendEmailRequest, RequestError, Sent, Outside, Clock, validate, new_sent_email, finish,
  send_created, send_checked, send_email,
}

-- A table of sent emails whose message ids are unique: a creation fails for an id that is taken, and for
-- any other cause it may. An id that is taken stays so, unless an update changes it. The rows, the ids taken and the sendings of the sender can be told.
pub record Table (out : Outside) : Type 0 where
  pub rows : out.World → ℕ
  pub sends : out.World → ℕ
  pub taken : out.World → String → Bool
  pub unique :
      (w : out.World) (e : SentEmail) → taken w e.message_id ≡ true → (out.create w e).1 ≡ false
  pub lost :
      (w : out.World) (e : SentEmail)
      → (out.create w e).1 ≡ false
      → rows (out.create w e).0 ≡ rows w
  pub created :
      (w : out.World) (e : SentEmail)
      → (out.create w e).1 ≡ true
      → (rows (out.create w e).0 ≡ suc (rows w)) × (taken (out.create w e).0 e.message_id ≡ true)
  pub sends-create : (w : out.World) (e : SentEmail) → sends (out.create w e).0 ≡ sends w
  pub rows-update : (w : out.World) (e : SentEmail) → rows (out.update w e).0 ≡ rows w
  pub sends-update : (w : out.World) (e : SentEmail) → sends (out.update w e).0 ≡ sends w
  pub rows-send : (w : out.World) (e : SentEmail) → rows (out.send w e).0 ≡ rows w
  pub sends-send : (w : out.World) (e : SentEmail) → sends (out.send w e).0 ≡ suc (sends w)
  pub keeps :
      (w : out.World) (e : SentEmail) (id : String)
      → taken w id ≡ true
      → (taken (out.create w e).0 id ≡ true) × (taken (out.send w e).0 id ≡ true)
  pub keeps-update :
      (w : out.World) (e : SentEmail) (id : String)
      → e.message_id ≡ id
      → taken w id ≡ true
      → taken (out.update w e).0 id ≡ true

module _ (out : Outside) (table : Table out) where
  open out use {World}
  open table use {rows, sends, taken}

  -- What one SendEmail for a message id leaves of the table: nothing new, or one row that was sent once,
  -- which there is only if the id was free, and which takes it.
  pub data Once (id : String) (w w' : World) : Type 0 where
    nothing_new :
        rows w' ≡ rows w
        → sends w' ≡ sends w
        → (taken w id ≡ true → taken w' id ≡ true)
        → Once id w w'
    sent_once :
        taken w id ≡ false
        → taken w' id ≡ true
        → rows w' ≡ suc (rows w)
        → sends w' ≡ suc (sends w)
        → Once id w w'

  -- A call of the sender and of the update after it.
  record Finished (id : String) (w w' : World) : Type 0 where
    same_rows : rows w' ≡ rows w
    one_send : sends w' ≡ suc (sends w)
    still_taken : taken w id ≡ true → taken w' id ≡ true

  message_id-mark_as_failed :
      (now later : ℕ) (message : String) (e : SentEmail)
      → (mark_as_failed now later message e).message_id ≡ e.message_id
  unfolding mark_as_failed
  message_id-mark_as_failed now later message e =
      let f = record e {
        status = failed;
        error_message = some message;
        failed_at = some now;
        retry_count = suc e.retry_count;
      } in
      if_rule (λ (o : SentEmail). o.message_id ≡ e.message_id) (can_retry f) (λ _. refl) (λ _. refl)

  finish-Finished :
      (clock : Clock) (e : SentEmail) (w : World)
      → Finished e.message_id w (finish out clock e (out.send w e)).0
  unfolding finish mark_as_sent
  finish-Finished clock e w =
      answered (out.send w e).0 (out.send w e).1 (table.rows-send w e) (table.sends-send w e)
        (λ t. (table.keeps w e e.message_id t).1)
    where
      answered :
          (v : World) (r : String ⊎ String)
          → rows v ≡ rows w
          → sends v ≡ suc (sends w)
          → (taken w e.message_id ≡ true → taken v e.message_id ≡ true)
          → Finished e.message_id w (finish out clock e (v, r)).0
      answered v (inl message_id) same one kept = record {
        same_rows = table.rows-update v _ ∙ same;
        one_send = table.sends-update v _ ∙ one;
        still_taken = λ t. table.keeps-update v _ e.message_id refl (kept t);
      }
      answered v (inr message) same one kept = record {
        same_rows = table.rows-update v _ ∙ same;
        one_send = table.sends-update v _ ∙ one;
        still_taken = λ t.
            table.keeps-update v _ e.message_id
              (message_id-mark_as_failed clock.marked clock.retried message e) (kept t);
      }

  send_created-Once :
      (clock : Clock) (w : World) (e : SentEmail)
      → Once e.message_id w (send_created out clock e (out.create w e)).0
  unfolding send_created
  send_created-Once clock w e = elim (Bool-cases (out.create w e).1) [
    | inr lost ↦ rw lost (
        nothing_new (table.lost w e lost) (table.sends-create w e)
          (λ t. (table.keeps w e e.message_id t).0))
    | inl ok ↦
        let f = finish-Finished clock e (out.create w e).0 in
        let (one_row, now_taken) = table.created w e ok in
        rw ok (
          sent_once (free ok) (f.still_taken now_taken) (f.same_rows ∙ one_row)
            (f.one_send ∙ ap suc (table.sends-create w e)))
  ]
    where
      free : (out.create w e).1 ≡ true → taken w e.message_id ≡ false
      free ok = elim (Bool-cases (taken w e.message_id)) [
        | inr open_id ↦ open_id
        | inl t ↦ absurd (ground (arith, table.unique w e t, ok))
      ]

  pub send_email-Once :
      (w : World) (id : ℕ) (clock : Clock) (req : SendEmailRequest)
      → Once req.message_id w (send_email out w id clock req).0
  unfolding send_email new_sent_email
  send_email-Once w id clock req = checked (new_sent_email id clock.created req) refl (validate req)
    where
      checked :
          (e : SentEmail)
          → e.message_id ≡ req.message_id
          → (v : Option RequestError) → Once req.message_id w (send_checked out clock e w v).0
      checked e same (some err) = nothing_new refl refl (λ t. t)
      checked e same none =
          if_rule (λ (r : World × Sent). Once req.message_id w r.0) (not (is_valid e))
            (λ _. nothing_new refl refl (λ t. t))
            λ _.
              subst (λ id. Once id w (send_created out clock e (out.create w e)).0) same
                (send_created-Once clock w e)
