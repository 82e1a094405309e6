-- ===== src/Mailbox/Ownership.antt =====
-- Who can read and delete a received message, in domain/email/usecase.go.
use mailvault.Base.{
  ℕ, ◌≡◌, ◌≢◌, refl, ◌⊎◌, inl, inr, ◌↔◌, Bool, true, false, Option, none, some, arith, ℕ_discrete,
}
use mailvault.Mailbox.{
  EmailAddress, ReceivedEmail, OwnedDomain, MailboxError, delete_failed, Repositories, outcome,
}
use mailvault.Mailbox.Received.{
  check_owner, check_address, check_received, find_owned, shown, get_received_email_by_id,
  delete_found, delete_received_email,
}

abbrev pub is_right {ℓ κ} : {A : Type ℓ} {B : Type κ} → A ⊎ B → Bool
is_right (inl a) = false
is_right (inr b) = true

abbrev address_of : Option ReceivedEmail → Option ℕ
address_of none = none
address_of (some r) = r.email_address_id

module _ (repos : Repositories) where
  open repos use {World, get_address, get_received, delete_received, get_domain}

  -- The message is there, in a mailbox of a domain of the user.
  pub record IsOwned (w : World) (id user : ℕ) : Type 0 where
    pub email : ReceivedEmail
    pub address_id : ℕ
    pub address : EmailAddress
    pub domain : OwnedDomain
    pub id_given : id ≢ 0
    pub user_given : user ≢ 0
    pub stored : get_received w id ≡ some email
    pub addressed : email.email_address_id ≡ some address_id
    pub address_there : get_address w address_id ≡ some address
    pub domain_there : get_domain w address.domain_id ≡ some domain
    pub of_user : domain.user_id ≡ user

  owner_found :
      (r : ReceivedEmail) (a : EmailAddress) (user : ℕ) (o : Option OwnedDomain)
      → is_right (check_owner repos r a user o) ≡ true
      → (d : OwnedDomain) × (o ≡ some d) × (d.user_id ≡ user)
  unfolding check_owner
  owner_found r a user none h = absurd (ground (arith, h))
  owner_found r a user (some d) h = (d, refl, ground arith)

  address_found :
      (w : World) (r : ReceivedEmail) (user : ℕ) (o : Option EmailAddress)
      → is_right (check_address repos w r user o) ≡ true
      → (a : EmailAddress) × (o ≡ some a)
        × (d : OwnedDomain) × (get_domain w a.domain_id ≡ some d)
        × (d.user_id ≡ user)
  unfolding check_address
  address_found w r user none h = absurd (ground (arith, h))
  address_found w r user (some a) h =
      let (d, e, u) = owner_found r a user (get_domain w a.domain_id) h in (a, refl, d, e, u)

  found-IsOwned :
      (w : World) (id user : ℕ) (o : Option ReceivedEmail) (p : Option ℕ)
      → id ≢ 0
      → user ≢ 0
      → get_received w id ≡ o
      → (address_of o ≡ p)
      → is_right (check_received repos w user o) ≡ true
      → IsOwned w id user
  unfolding check_received
  found-IsOwned w id user none p n m e q h = absurd (ground (arith, h))
  found-IsOwned w id user (some r) none n m e q h = absurd (ground (arith, h, q))
  found-IsOwned w id user (some r) (some address_id) n m e q h =
      let (a, f, d, g, u) = address_found w r user (get_address w address_id) (rw q at h) in
      record {
        email = r;
        address_id = address_id;
        address = a;
        domain = d;
        id_given = n;
        user_given = m;
        stored = e;
        addressed = q;
        address_there = f;
        domain_there = g;
        of_user = u;
      }

  find_owned_iff :
      (w : World) (id user : ℕ) → (is_right (find_owned repos w id user) ≡ true) ↔ IsOwned w id user
  unfolding find_owned check_owner check_address check_received
  find_owned_iff w id user = (
    λ h. elim (ℕ_discrete id 0) [
      | yes e ↦ absurd (ground (arith, e, h))
      | no n ↦ elim (ℕ_discrete user 0) [
        | yes e ↦ absurd (ground (arith, e, n, h))
        | no m ↦
            found-IsOwned w id user (get_received w id) _ n m refl refl (ground (arith, n, m, h))
      ]
    ],
    λ o. ground (
      arith, o.id_given, o.user_given, o.stored, o.addressed, o.address_there, o.domain_there,
      o.of_user,
    ),
  )

  -- A user can read a received message exactly if it is in a mailbox of a domain of the user. A
  -- deletion of such a message is one call of the repository, and of any other it changes nothing and
  -- gives an error.
  pub received_email_guarded :
      (w : World) (id user : ℕ)
      → ((is_right (get_received_email_by_id repos w id user) ≡ true) ↔ IsOwned w id user)
        × ((IsOwned w id user
              × (delete_received_email repos w id user
                  ≡ outcome delete_failed id (delete_received w id)))
            ⊎ (¬ IsOwned w id user
                × (err : MailboxError) × (delete_received_email repos w id user ≡ (w, inl err))))
  unfolding get_received_email_by_id shown delete_received_email delete_found
  received_email_guarded w id user = go (find_owned repos w id user) (find_owned_iff w id user)
    where
      go :
          (f : MailboxError ⊎ (ReceivedEmail × EmailAddress × OwnedDomain))
          → ((is_right f ≡ true) ↔ IsOwned w id user)
          → ((is_right (shown repos f) ≡ true) ↔ IsOwned w id user)
            × ((IsOwned w id user
                  × (delete_found repos w id f ≡ outcome delete_failed id (delete_received w id)))
                ⊎ (¬ IsOwned w id user
                    × (err : MailboxError) × (delete_found repos w id f ≡ (w, inl err))))
      go (inl err) iff = (iff, inr (λ o. ground (arith, iff.1 o), err, refl))
      go (inr found) iff = (iff, inl (iff.0 refl, refl))
