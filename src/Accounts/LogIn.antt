-- ===== src/Accounts/LogIn.antt =====
-- Who is let in by domain/auth/local/provider.go.
use mailvault.Base.{
  ℕ, ◌≡◌, refl, subst, ◌∙◌, true, not, ◌⊎◌, inl, inr, Option, none, some, arith, ltb, if_rule,
  Bool-cases, Bytes, length, same_text, same_text→eq,
}
use mailvault.Mailbox.{is_empty}
use mailvault.Accounts.{User, Lookup, found, no_rows, query_failed, Store}
use mailvault.Accounts.Local.{
  AuthError, email_required, short_password, user_exists, check_failed, hash_failed, user_failed,
  credentials_failed, sign_failed, Services, provider_name, normalize_email, local_user, sign_token,
  signed, with_credentials, with_user, with_hash, unless_found, create_local_user, check_password,
  login_of, login, user_of, with_id, with_subject, validate_token,
}

-- A user and a hash that were stored are found, and the users are kept when a hash is stored.
pub record IsFaithful (store : Store) : Type 0 where
  pub by_email :
      (w : store.World) (u : User)
      → (store.create w u).1 ≡ true
      → store.get_by_email (store.create w u).0 u.email ≡ found u
  pub by_id :
      (w : store.World) (u : User)
      → (store.create w u).1 ≡ true
      → store.get_by_id (store.create w u).0 u.id ≡ found u
  pub hash_found :
      (w : store.World) (id : ℕ) (hash : Bytes)
      → (store.create_credentials w id hash).1 ≡ true
      → store.get_credentials (store.create_credentials w id hash).0 id ≡ some hash
  pub email_kept :
      (w : store.World) (id : ℕ) (hash email : Bytes)
      → store.get_by_email (store.create_credentials w id hash).0 email ≡ store.get_by_email w email
  pub id_kept :
      (w : store.World) (id : ℕ) (hash : Bytes) (other : ℕ)
      → store.get_by_id (store.create_credentials w id hash).0 other ≡ store.get_by_id w other

-- A password fits the hashes made of it, a token that is not out of date gives its subject, and an id
-- is read from its text.
pub record IsSound (services : Services) : Type 0 where
  pub fits :
      (salt : ℕ) (password hash : Bytes)
      → services.generate_from_password salt password ≡ some hash
      → services.compare_hash_and_password hash password ≡ true
  pub tokens :
      (now : ℕ) (subject email : Bytes)
      → (t : services.Token) × (services.generate_token now subject email ≡ some t)
        × (services.parse_token t ≡ some subject)
  pub ids : (id : ℕ) → services.id_from_string (services.id_text id) ≡ some id

module _ (store : Store) (services : Services) where
  open store use {World, get_by_id, get_by_email, create, create_credentials, get_credentials}
  open services use {Token, generate_from_password, compare_hash_and_password}

  -- How a registration of a user ends: the world that it leaves, and its answer.
  data Registration (w : World) (salt : ℕ) (u : User) (password : Bytes)
      : World → AuthError ⊎ Token → Type 0 where
    refused : (w' : World) (err : AuthError) → Registration w salt u password w' (inl err)
    registered :
        (hash : Bytes) (t : Token)
        → generate_from_password salt password ≡ some hash
        → (create w u).1 ≡ true
        → (create_credentials (create w u).0 u.id hash).1 ≡ true
        → Registration w salt u password (create_credentials (create w u).0 u.id hash).0 (inr t)

  abbrev Registered : World → ℕ → User → Bytes → World × (AuthError ⊎ Token) → Type 0
  Registered w salt u password (w', r) = Registration w salt u password w' r

  signed-Registered :
      (w : World) (salt : ℕ) (u : User) (password hash : Bytes)
      → generate_from_password salt password ≡ some hash
      → (create w u).1 ≡ true
      → (create_credentials (create w u).0 u.id hash).1 ≡ true
      → (o : Option Token)
      → Registration w salt u password
          (create_credentials (create w u).0 u.id hash).0
          (signed store services o)
  unfolding signed
  signed-Registered w salt u password hash g c k none = refused _ sign_failed
  signed-Registered w salt u password hash g c k (some t) = registered hash t g c k

  with_hash-Registered :
      (w : World) (salt now : ℕ) (u : User) (password : Bytes) (o : Option Bytes)
      → generate_from_password salt password ≡ o
      → Registered w salt u password (with_hash store services w now u o)
  unfolding with_hash with_user with_credentials
  with_hash-Registered w salt now u password none g = refused w hash_failed
  with_hash-Registered w salt now u password (some hash) g = elim (Bool-cases (create w u).1) [
    | inr lost ↦ rw lost (refused _ user_failed)
    | inl done ↦ rw done (elim (Bool-cases (create_credentials (create w u).0 u.id hash).1) [
      | inr lost ↦ rw lost (refused _ credentials_failed)
      | inl kept ↦ rw kept (signed-Registered w salt u password hash g done kept _)
    ])
  ]

  unless_found-Registered :
      (w : World) (salt now : ℕ) (u : User) (password : Bytes) (l : Lookup)
      → Registered w salt u password (unless_found store services w salt now u password l)
  unfolding unless_found
  unless_found-Registered w salt now u password (found existing) = refused w user_exists
  unless_found-Registered w salt now u password query_failed = refused w check_failed
  unless_found-Registered w salt now u password no_rows =
      with_hash-Registered w salt now u password (generate_from_password salt password) refl

  create_local_user-Registered :
      (w : World) (salt id now : ℕ) (email password : Bytes)
      → Registered w salt
          (local_user store services id now (normalize_email email))
          password
          (create_local_user store services w salt id now email password)
  unfolding create_local_user
  create_local_user-Registered w salt id now email password =
      let u = local_user store services id now (normalize_email email) in
      if_rule (Registered w salt u password) (is_empty (normalize_email email))
        (λ _. refused w email_required)
        λ _.
          if_rule (Registered w salt u password) (ltb (length password) 8)
            (λ _. refused w short_password)
            λ _.
              unless_found-Registered w salt now u password (get_by_email w (normalize_email email))

  -- What lets a user in.
  pub record IsLoggedIn (w : World) (email password : Bytes) : Type 0 where
    pub user : User
    pub at_address : get_by_email w email ≡ found user
    pub local : user.auth_provider ≡ provider_name
    pub hash : Bytes
    pub stored : get_credentials w user.id ≡ some hash
    pub fits : compare_hash_and_password hash password ≡ true

  check_password-IsLoggedIn :
      (w : World) (now : ℕ) (email password : Bytes) (t : Token) (u : User)
      → get_by_email w email ≡ found u
      → u.auth_provider ≡ provider_name
      → (o : Option Bytes) → get_credentials w u.id ≡ o
      → check_password store services now u password o ≡ inr t
      → IsLoggedIn w email password
  unfolding check_password
  check_password-IsLoggedIn w now email password t u g p none c = λ h. absurd (ground (arith, h))
  check_password-IsLoggedIn w now email password t u g p (some hash) c =
      if_rule (λ r. r ≡ inr t → IsLoggedIn w email password)
        (not (compare_hash_and_password hash password)) (λ _ h. absurd (ground (arith, h)))
        λ fit h. record {
          user = u;
          at_address = g;
          local = p;
          hash = hash;
          stored = c;
          fits = ground (arith, fit);
        }

  login_of-IsLoggedIn :
      (w : World) (now : ℕ) (email password : Bytes) (t : Token) (l : Lookup)
      → get_by_email w email ≡ l
      → login_of store services w now password l ≡ inr t
      → IsLoggedIn w email password
  unfolding login_of
  login_of-IsLoggedIn w now email password t no_rows g = λ h. absurd (ground (arith, h))
  login_of-IsLoggedIn w now email password t query_failed g = λ h. absurd (ground (arith, h))
  login_of-IsLoggedIn w now email password t (found u) g =
      if_rule (λ r. r ≡ inr t → IsLoggedIn w email password)
        (not (same_text u.auth_provider provider_name)) (λ _ h. absurd (ground (arith, h)))
        λ same.
          check_password-IsLoggedIn w now email password t u g
            (same_text→eq u.auth_provider provider_name (ground (arith, same)))
            (get_credentials w u.id) refl

  -- A login that succeeds is of a user of this provider who is found at the address, in lower case and
  -- without the blanks around it, and whose stored hash fits the password.
  pub login-IsLoggedIn :
      (w : World) (now : ℕ) (email password : Bytes) (t : Token)
      → login store services w now email password ≡ inr t
      → IsLoggedIn w (normalize_email email) password
  unfolding login
  login-IsLoggedIn w now email password t =
      login_of-IsLoggedIn w now (normalize_email email) password t
        (get_by_email w (normalize_email email)) refl

  module _ (faithful : IsFaithful store) (sound : IsSound services) where
    registration_logs_in :
        (w : World) (salt id now later : ℕ) (email again password : Bytes) (w' : World)
        (r : AuthError ⊎ Token) (t : Token)
        → Registration w salt
            (local_user store services id now (normalize_email email))
            password
            w'
            r
        → r ≡ inr t
        → normalize_email again ≡ normalize_email email
        → (t' : Token) × (login store services w' later again password ≡ inr t')
          × (validate_token store services w' t'
              ≡ inr (local_user store services id now (normalize_email email)))
    unfolding login login_of check_password sign_token signed validate_token with_subject with_id
        user_of local_user
    registration_logs_in w salt id now later email again password w' r t (refused _ err) e same =
        absurd (ground (arith, e))
    registration_logs_in w salt id now later email again password w' r t (registered hash s g c k) e
          same =
        let u = local_user store services id now (normalize_email email) in
        let (t', signs, parses) = sound.tokens later (services.id_text id) u.email in
        let w1 = (create w u).0 in
        let at_address = faithful.email_kept w1 u.id hash u.email ∙ faithful.by_email w u c in
        let by_id = faithful.id_kept w1 u.id hash u.id ∙ faithful.by_id w u c in
        let stored = faithful.hash_found w1 u.id hash k in
        let fits = sound.fits salt password hash g in
        (t', rw (same, at_address, stored, fits, signs) refl, rw (parses, sound.ids id, by_id) refl)

    -- Who has registered is let in later with the same password, at the same address but for
    -- capitals and the blanks around it, and the token that he gets is his, in the world that the
    -- registration leaves. The store finds what it stored, a password fits its hashes, and a token
    -- is not out of date.
    pub registered_user_logs_in :
        (w w' : World) (salt id now later : ℕ) (email again password : Bytes) (t : Token)
        → create_local_user store services w salt id now email password ≡ (w', inr t)
        → normalize_email again ≡ normalize_email email
        → (t' : Token) × (login store services w' later again password ≡ inr t')
          × (validate_token store services w' t'
              ≡ inr (local_user store services id now (normalize_email email)))
    registered_user_logs_in w w' salt id now later email again password t e same =
        registration_logs_in w salt id now later email again password w' (inr t) t
          (subst
            (Registered w salt (local_user store services id now (normalize_email email)) password)
            e (create_local_user-Registered w salt id now email password))
          refl same
