-- ===== src/Accounts.antt =====
-- The accounts of users: domain/entities/user.go, and the repositories that domain/user/usecase.go and
-- domain/auth/local/provider.go share. Texts are ASCII; ids are numbers, 0 the nil UUID.
use mailvault.Base.{ℕ, Bool, true, false, not, ◌&&◌, Option, none, some, ℤ, pos, negsuc, Bytes}
use mailvault.Mailbox.{is_empty}
pub mod Users
pub mod Local
pub mod LogIn
mod Tests

-- Each of these is a string: one of the constants, or any other text.
pub data AccountType : Type 0 where
  account_user account_owner account_admin : AccountType
  account_other : Bytes → AccountType

pub data UserPlan : Type 0 where
  plan_free plan_pro plan_premium : UserPlan
  plan_other : Bytes → UserPlan

pub record User : Type 0 where
  pub id : ℕ
  pub email : Bytes
  pub auth_provider : Bytes
  pub auth_provider_id : Bytes
  pub account_type : AccountType
  pub user_plan : UserPlan
  pub created_at : ℕ
  pub updated_at : ℕ

-- What a query for one row gives: the row, none (sql.ErrNoRows), or another error.
pub data Lookup : Type 0 where
  found : User → Lookup
  no_rows query_failed : Lookup

-- The table of users and the table of credentials, of which a row is a hash. The Boolean of a write is
-- whether it went well.
pub record Store : Type 1 where
  pub World : Type 0
  pub get_by_id : World → ℕ → Lookup
  pub get_by_email : World → Bytes → Lookup
  pub get_by_auth_provider : World → Bytes → Bytes → Lookup
  pub create : World → User → World × Bool
  pub update : World → User → World × Bool
  pub delete_row : World → ℕ → World × Bool
  pub create_credentials : World → ℕ → Bytes → World × Bool
  pub get_credentials : World → ℕ → Option Bytes

-- User.IsValid
unfoldable pub is_valid_user : User → Bool
unfolding is_empty
is_valid_user u = not (is_empty u.email) && not (is_empty u.auth_provider)

-- UserPlan.DomainLimit and User.GetDomainLimit; -1 is no limit.
unfoldable pub plan_domain_limit : UserPlan → ℤ
plan_domain_limit plan_free = pos 1
plan_domain_limit plan_pro = pos 10
plan_domain_limit plan_premium = negsuc 0
plan_domain_limit (plan_other s) = pos 1

unfoldable pub limit_of : AccountType → UserPlan → ℤ
unfolding plan_domain_limit
limit_of account_admin plan = negsuc 0
limit_of account_user plan = plan_domain_limit plan
limit_of account_owner plan = plan_domain_limit plan
limit_of (account_other s) plan = plan_domain_limit plan

unfoldable pub get_domain_limit : User → ℤ
unfolding limit_of
get_domain_limit u = limit_of u.account_type u.user_plan
