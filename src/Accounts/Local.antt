-- ===== src/Accounts/Local.antt =====
-- The built-in provider of sign-in, domain/auth/local/provider.go, over bcrypt and the service of
-- tokens, which are parameters.
use mailvault.Base.{
  ℕ, Bool, false, not, ◌⊎◌, inl, inr, Option, none, some, ltb, if◌then◌else◌, Bytes, codes,
  same_text, length, is_space, to_lower, trim,
}
use mailvault.Mailbox.{is_empty}
use mailvault.Accounts.{account_user, plan_free, User, Lookup, found, no_rows, query_failed, Store}

pub data AuthError : Type 0 where
  email_required short_password user_exists check_failed hash_failed user_failed : AuthError
  credentials_failed sign_failed invalid_credentials : AuthError
  invalid_token invalid_subject user_not_found : AuthError

-- bcrypt, the tokens, of which `parse_token` gives the subject, and the texts of ids. A hash draws
-- its salt, here the number given, and a token the time.
pub record Services : Type 1 where
  pub Token : Type 0
  pub generate_from_password : ℕ → Bytes → Option Bytes
  pub compare_hash_and_password : Bytes → Bytes → Bool
  pub generate_token : ℕ → Bytes → Bytes → Option Token
  pub parse_token : Token → Option Bytes
  pub id_text : ℕ → Bytes
  pub id_from_string : Bytes → Option ℕ

abbrev pub provider_name : Bytes
provider_name = codes "local"

unfoldable pub normalize_email : Bytes → Bytes
unfolding to_lower trim
normalize_email email = to_lower (trim is_space email)

-- NewProvider, of the length of the secret and of the life of a token.
unfoldable pub provider_accepted : ℕ → Bool → Bool
provider_accepted secret_length ttl_positive = if ltb secret_length 32 then false else ttl_positive

module _ (store : Store) (services : Services) where
  open store use {World, get_by_id, get_by_email, create, create_credentials, get_credentials}
  open services use {
    Token, generate_from_password, compare_hash_and_password, generate_token, parse_token, id_text,
    id_from_string,
  }

  unfoldable pub local_user : ℕ → ℕ → Bytes → User
  local_user id now email = record {
    id = id;
    email = email;
    auth_provider = provider_name;
    auth_provider_id = id_text id;
    account_type = account_user;
    user_plan = plan_free;
    created_at = now;
    updated_at = now;
  }

  unfoldable pub sign_token : ℕ → ℕ → Bytes → Option Token
  sign_token now id email = generate_token now (id_text id) email

  unfoldable pub signed : Option Token → AuthError ⊎ Token
  signed none = inl sign_failed
  signed (some t) = inr t

  unfoldable pub with_credentials : ℕ → User → World × Bool → World × (AuthError ⊎ Token)
  unfolding sign_token signed
  with_credentials now u (w, ok) =
      (w, if ok then signed (sign_token now u.id u.email) else inl credentials_failed)

  unfoldable pub with_user : ℕ → User → Bytes → World × Bool → World × (AuthError ⊎ Token)
  unfolding with_credentials
  with_user now u hash (w, ok) =
      if ok then with_credentials now u (create_credentials w u.id hash) else (w, inl user_failed)

  unfoldable pub with_hash : World → ℕ → User → Option Bytes → World × (AuthError ⊎ Token)
  unfolding with_user
  with_hash w now u none = (w, inl hash_failed)
  with_hash w now u (some hash) = with_user now u hash (create w u)

  unfoldable pub unless_found : World → ℕ → ℕ → User → Bytes → Lookup → World × (AuthError ⊎ Token)
  unfolding with_hash
  unless_found w salt now u password (found existing) = (w, inl user_exists)
  unless_found w salt now u password no_rows =
      with_hash w now u (generate_from_password salt password)
  unless_found w salt now u password query_failed = (w, inl check_failed)

  -- CreateUser, of which the answer is the token.
  unfoldable pub create_local_user : World → ℕ → ℕ → ℕ → Bytes → Bytes → World × (AuthError ⊎ Token)
  unfolding normalize_email is_empty unless_found local_user
  create_local_user w salt id now email password =
      if is_empty (normalize_email email)
      then (w, inl email_required)
      else if ltb (length password) 8
      then (w, inl short_password)
      else unless_found w salt now (local_user id now (normalize_email email)) password
          (get_by_email w (normalize_email email))

  unfoldable pub check_password : ℕ → User → Bytes → Option Bytes → AuthError ⊎ Token
  unfolding sign_token signed
  check_password now u password none = inl invalid_credentials
  check_password now u password (some hash) =
      if not (compare_hash_and_password hash password)
      then inl invalid_credentials
      else signed (sign_token now u.id u.email)

  unfoldable pub login_of : World → ℕ → Bytes → Lookup → AuthError ⊎ Token
  unfolding check_password
  login_of w now password no_rows = inl invalid_credentials
  login_of w now password query_failed = inl invalid_credentials
  login_of w now password (found u) =
      if not (same_text u.auth_provider provider_name)
      then inl invalid_credentials
      else check_password now u password (get_credentials w u.id)

  unfoldable pub login : World → ℕ → Bytes → Bytes → AuthError ⊎ Token
  unfolding normalize_email login_of
  login w now email password = login_of w now password (get_by_email w (normalize_email email))

  unfoldable pub user_of : Lookup → AuthError ⊎ User
  user_of (found u) = inr u
  user_of no_rows = inl user_not_found
  user_of query_failed = inl user_not_found

  unfoldable pub with_id : World → Option ℕ → AuthError ⊎ User
  unfolding user_of
  with_id w none = inl invalid_subject
  with_id w (some id) = user_of (get_by_id w id)

  unfoldable pub with_subject : World → Option Bytes → AuthError ⊎ User
  unfolding with_id
  with_subject w none = inl invalid_token
  with_subject w (some subject) = with_id w (id_from_string subject)

  -- ValidateToken
  unfoldable pub validate_token : World → Token → AuthError ⊎ User
  unfolding with_subject
  validate_token w t = with_subject w (parse_token t)
