-- ===== src/Validation/Memory.antt =====
-- A store of one domain in memory, for the tests of domain/validation/usecase.go.
use mailvault.Base.{ℕ, ◌*◌, ap, ◌≡◌, refl, ◌⊎◌, inl, true, Option, none, some, arith, pos}
use mailvault.Backoff.{minute}
use mailvault.Validation.{
  VerificationStatus, status_pending, Message, Domain, ValidationRecord, ValidationConfig, Store,
  Clock,
}
use mailvault.Validation.Outcome.{IsFaultless}
use mailvault.Validation.Safety.{KeepsStatus}
use mailvault.Validation.Retry.{RecordsApart}

-- The world is the domain, if there is one, and the last record written.
abbrev pub set_status : VerificationStatus → Option Domain → Option Domain
set_status status none = none
set_status status (some d) = some (record d { verification_status = status })

abbrev pub set_attempt : ℕ → ℕ → Option ℕ → Option Message → Option Domain → Option Domain
set_attempt attempts last next message none = none
set_attempt attempts last next message (some d) = some (record d {
  verification_attempts = attempts;
  last_verification_attempt = some last;
  next_verification_attempt = next;
  verification_error = message;
})

abbrev pub memory : Store
memory = record {
  World = Option Domain × Option ValidationRecord;
  get_by_id = λ w id. w.0;
  update_domain_verification_status = λ w id status. ((set_status status w.0, w.1), true);
  update_domain_verification_attempt =
      λ w id attempts last next message. ((set_attempt attempts last next message w.0, w.1), true);
  create_validation_record = λ w r. ((w.0, some r), true);
  update_validation_record = λ w r. ((w.0, some r), true);
}

pub memory-IsFaultless : IsFaultless memory
memory-IsFaultless = record {
  set_status = λ w id status d e. (refl, rw e refl);
  set_attempt = λ w id attempts last next message d e. (refl, rw e refl);
  creates = λ w r id. (refl, refl);
  updates = λ w r id. refl;
}

abbrev pub some_domain : Option Domain → Domain → Domain
some_domain none d = d
some_domain (some e) d = e

pub memory-KeepsStatus : KeepsStatus memory
memory-KeepsStatus = record {
  by_status = λ w id status d e. by_status w.0 status d e;
  by_attempt = λ w id attempts last next message d e. by_attempt w.0 attempts last next message d e;
  by_create = λ w r id d e. (d, e, refl);
  by_update = λ w r id d e. (d, e, refl);
}
  where
    by_status :
        (o : Option Domain) (status : VerificationStatus) (d : Domain)
        → set_status status o ≡ some d
        → (d.verification_status ≡ status)
          ⊎ ((e : Domain) × (o ≡ some e) × (d.verification_status ≡ e.verification_status))
    by_status none status d e = absurd (ground (arith, e))
    by_status (some x) status d e =
        inl (ground (arith, ap (λ o. (some_domain o d).verification_status) e))

    by_attempt :
        (o : Option Domain) (attempts last : ℕ) (next : Option ℕ) (message : Option Message)
        (d : Domain)
        → set_attempt attempts last next message o ≡ some d
        → (e : Domain) × (o ≡ some e) × (d.verification_status ≡ e.verification_status)
    by_attempt none attempts last next message d e = absurd (ground (arith, e))
    by_attempt (some x) attempts last next message d e =
        (x, refl, ground (arith, ap (λ o. (some_domain o d).verification_status) e))

abbrev pub config : ValidationConfig
config = record { max_retries = pos 3; retry_delay = 5 * minute }

abbrev pub clock : Clock
clock = record {
  record_id = 9;
  marked = 10;
  started = 20;
  created = 30;
  completed = 40;
  decided = 50;
}

abbrev pub example : Domain
example = record {
  id = 4;
  name = "example.com";
  verification_token = "token";
  verification_status = status_pending;
  verification_attempts = 0;
  last_verification_attempt = none;
  next_verification_attempt = none;
  verification_error = none;
}

pub memory-RecordsApart : RecordsApart memory
memory-RecordsApart = record { create_keeps = λ w r id. refl; update_keeps = λ w r id. refl }
