-- ===== src/Accounts/Tests.antt =====
-- One account in memory, and the properties at concrete users.
use mailvault.Base.{
  ℕ, ◌≡◌, refl, subst, true, false, Bool, inl, inr, [], ◌∷◌, Option, none, some, arith,
  if◌then◌else◌, ◌==◌, pos, negsuc, Bytes, codes, same_text, same_text_refl, to_lower, trim,
  trim_left, trim_right,
}
use mailvault.Mailbox.{is_empty}
use mailvault.Accounts.{
  User, Lookup, found, no_rows, Store, account_admin, get_domain_limit, plan_domain_limit, limit_of,
}
use mailvault.Accounts.Users.{
  CreateUserInput, get_or_create_user_by_auth_provider, by_provider, by_email, adopt, with_provider,
  written,
}
use mailvault.Accounts.Local.{
  Services, normalize_email, local_user, create_local_user, unless_found, with_hash, with_user,
  with_credentials, sign_token, signed, login, login_of, check_password, validate_token,
  invalid_credentials,
}
use mailvault.Accounts.LogIn.{
  IsFaithful, IsSound, IsLoggedIn, login-IsLoggedIn, registered_user_logs_in,
}

abbrev World : Type 0
World = Option User × Option (ℕ × Bytes)

abbrev when_email : Bytes → Option User → Lookup
when_email email none = no_rows
when_email email (some u) = if same_text u.email email then found u else no_rows

abbrev when_id : ℕ → Option User → Lookup
when_id id none = no_rows
when_id id (some u) = if u.id == id then found u else no_rows

abbrev when_hashed : ℕ → Option (ℕ × Bytes) → Option Bytes
when_hashed id none = none
when_hashed id (some (other, hash)) = if other == id then some hash else none

abbrev memory : Store
memory = record {
  World = World;
  get_by_id = λ w id. when_id id w.0;
  get_by_email = λ w email. when_email email w.0;
  get_by_auth_provider = λ w provider id. no_rows;
  create = λ w u. ((some u, w.1), true);
  update = λ w u. ((some u, w.1), true);
  delete_row = λ w id. ((none, w.1), true);
  create_credentials = λ w id hash. ((w.0, some (id, hash)), true);
  get_credentials = λ w id. when_hashed id w.1;
}

memory-IsFaithful : IsFaithful memory
memory-IsFaithful = record {
  by_email = λ w u h. ground (arith, same_text_refl u.email);
  by_id = λ w u h. ground arith;
  hash_found = λ w id hash h. ground arith;
  email_kept = λ w id hash email. refl;
  id_kept = λ w id hash other. refl;
}

abbrev tail_is : Bytes → Bytes → Bool
tail_is [] password = false
tail_is (salt ∷ hash) password = same_text hash password

abbrev in_option : Option Bytes → Bytes → Bool
in_option none password = false
in_option (some hash) password = tail_is hash password

abbrev one : Bytes → Option ℕ
one (n ∷ []) = some n
one _ = none

abbrev plain : Services
plain = record {
  Token = Bytes;
  generate_from_password = λ salt password. some (salt ∷ password);
  compare_hash_and_password = tail_is;
  generate_token = λ now subject email. some subject;
  parse_token = some;
  id_text = λ id. id ∷ [];
  id_from_string = one;
}

fits_of :
    (salt : ℕ) (password hash : Bytes)
    → some (salt ∷ password) ≡ some hash
    → tail_is hash password ≡ true
fits_of salt password hash h = subst (λ o. in_option o password ≡ true) h (same_text_refl password)

plain-IsSound : IsSound plain
plain-IsSound = record {
  fits = fits_of;
  tokens = λ now subject email. (subject, refl, refl);
  ids = λ id. refl;
}

abbrev registered : World
registered =
    (some (local_user memory plain 7 100 (codes "me@example.com")), some (7, 5 ∷ codes "password"))

is_registered :
    create_local_user memory plain
      (none, none)
      5
      7
      100
      (codes " Me@Example.com ")
      (codes "password")
    ≡ (registered, inr (7 ∷ []))
unfolding create_local_user normalize_email to_lower trim trim_left trim_right is_empty unless_found
    with_hash with_user with_credentials sign_token signed local_user
is_registered = refl

wrong_password :
    login memory plain registered 200 (codes "me@example.com") (codes "passw0rd")
    ≡ inl invalid_credentials
unfolding login login_of check_password normalize_email to_lower trim trim_left trim_right
    local_user
wrong_password = refl

right_password :
    login memory plain registered 200 (codes "ME@example.com") (codes "password") ≡ inr (7 ∷ [])
unfolding login login_of check_password normalize_email to_lower trim trim_left trim_right
    local_user sign_token signed
right_password = refl

same_address : normalize_email (codes "me@example.com") ≡ normalize_email (codes " Me@Example.com ")
unfolding normalize_email to_lower trim trim_left trim_right
same_address = refl

abbrev elsewhere : CreateUserInput
elsewhere = record {
  email = codes "me@example.com";
  auth_provider = codes "other";
  auth_provider_id = codes "42";
}

-- A sign-in by another provider takes the account over, and its password is refused from then on.
password_lost :
    login memory plain
      (get_or_create_user_by_auth_provider memory registered 9 300 elsewhere).0
      400
      (codes "me@example.com")
      (codes "password")
    ≡ inl invalid_credentials
unfolding login login_of normalize_email to_lower trim trim_left trim_right local_user
    get_or_create_user_by_auth_provider by_provider by_email adopt with_provider written is_empty
password_lost = refl

limits :
    (get_domain_limit (local_user memory plain 7 100 []) ≡ pos 1)
    × (get_domain_limit (record (local_user memory plain 7 100 []) { account_type = account_admin })
        ≡ negsuc 0)
unfolding get_domain_limit limit_of plan_domain_limit local_user
limits = (refl, refl)

login-IsLoggedIn_example :
    IsLoggedIn memory plain registered (normalize_email (codes "ME@example.com")) (codes "password")
login-IsLoggedIn_example =
    login-IsLoggedIn memory plain registered 200 (codes "ME@example.com") (codes "password")
      (7 ∷ []) right_password

registered_user_logs_in_example :
    (t' : Bytes) × (login memory plain registered 200 (codes "me@example.com") (codes "password")
      ≡ inr t')
    × (validate_token memory plain registered t'
        ≡ inr (local_user memory plain 7 100 (normalize_email (codes " Me@Example.com "))))
registered_user_logs_in_example =
    registered_user_logs_in memory plain memory-IsFaithful plain-IsSound (none, none) registered 5 7
      100 200 (codes " Me@Example.com ") (codes "me@example.com") (codes "password") (7 ∷ [])
      is_registered same_address
