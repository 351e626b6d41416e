-- ===== src/Billing/Accounts.antt =====
-- billing/repo.py: users, administrators, tenants, keys and plans. The tables are lists of rows in the
-- order of insertion, without their time stamps, and a statement or a transaction is one function on
-- them.
pub mod Users
pub mod Admins
pub mod Tenants
pub mod Keys
pub mod Plans
pub mod Retired
pub mod Failures
use geocoder_fwd.Prelude.{ℕ, Bool, Option, List, String}

pub record User : Type 0 where
  pub email : String
  pub password_hash : String
  pub role : String
  pub tenant_id : Option String
  pub status : String

pub record TenantRow : Type 0 where
  pub id : String
  pub name : String
  pub contact_email : Option String
  pub plan_id : Option String
  pub status : String

pub record Key : Type 0 where
  pub id : String
  pub tenant_id : String
  pub name : String
  pub key_prefix : String
  pub key_hash : String
  pub key_enc : Option String
  pub scopes : List String
  pub status : String

-- The price of the overage does not matter here.
pub record Plan : Type 0 where
  pub id : String
  pub name : String
  pub monthly_quota : ℕ
  pub base_price_cents : ℕ
  pub hard_cap : Bool
  pub rps : ℕ

pub record Db : Type 0 where
  pub users : List User
  pub tenants : List TenantRow
  pub keys : List Key
  pub plans : List Plan

-- What a call answers: its result, or the exception it raises. `in_use n` is the `Conflict` of a plan
-- that is said to be in use by `n` tenants, and `violated` a constraint that the code does not catch.
pub data Reply {ℓ} (A : Type ℓ) : Type ℓ where
  ok : A → Reply A
  not_found : Reply A
  conflict : Reply A
  in_use : ℕ → Reply A
  violated : Reply A
