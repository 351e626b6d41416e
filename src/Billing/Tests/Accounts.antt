-- ===== src/Billing/Tests/Accounts.antt =====
-- Small databases, for the statements of billing/repo.py.
use geocoder_fwd.Prelude.{ℕ, ◌≡◌, refl, true, false, none, some, List, [], ◌∷◌, String, arith}
use geocoder_fwd.Billing.Usage.{Row, usage_totals_for_period}
use geocoder_fwd.Billing.Usage.ByKey.{
  usage_by_key_for_period, sum_milli, sum_requests, usage_by_key_for_period-usage_totals_for_period,
}
use geocoder_fwd.Billing.Gateway.{Info, refusal}
use geocoder_fwd.Billing.Accounts.{User, TenantRow, Plan, Db, ok, in_use}
use geocoder_fwd.Billing.Accounts.Users.{other_active_admins, admin_with, set_status, update_users}
use geocoder_fwd.Billing.Accounts.Admins.{active_admins}
use geocoder_fwd.Billing.Accounts.Admins.Calls.{
  UserOp, create_user, disable_admin, remove_admin, new_tenant, drop_tenant, seed, apply_all,
  apply_all-HasAdmin,
}
use geocoder_fwd.Billing.Accounts.Admins.Kept.{HasAdmin}
use geocoder_fwd.Billing.Accounts.Tenants.{soft_delete_tenant}
use geocoder_fwd.Billing.Accounts.Keys.{
  resolve_key, get_key_by_hash, create_key, key_name_taken, insert_key,
}
use geocoder_fwd.Billing.Accounts.Plans.{delete_plan}
use geocoder_fwd.Billing.Accounts.Retired.{AccountOp, new_key, account_all, account}
use geocoder_fwd.Billing.Accounts.Retired.Refused.{soft_delete_tenant-refusal}

abbrev admin : String → User
admin email = record {
  email = email;
  password_hash = "h";
  role = "admin";
  tenant_id = none;
  status = "active";
}

abbrev free : Plan
free = record {
  id = "free";
  name = "Free";
  monthly_quota = 100;
  base_price_cents = 0;
  hard_cap = true;
  rps = 1;
}

abbrev two_admins : Db
two_admins = record {
  users = admin "a" ∷ admin "b" ∷ [];
  tenants = [];
  keys = [];
  plans = free ∷ [];
}

abbrev user_ops : List UserOp
user_ops =
    disable_admin "a"
    ∷ remove_admin "b"
    ∷ create_user "t" "c" "h"
    ∷ new_tenant "u" "Shop" none "free" "d" "h"
    ∷ drop_tenant "u"
    ∷ seed "e" "h"
    ∷ []

two_admins-HasAdmin : HasAdmin two_admins
two_admins-HasAdmin = (omega arith, ((λ _. refl), ((λ _. refl), tt)))

apply_all-HasAdmin_example : HasAdmin (apply_all user_ops two_admins)
apply_all-HasAdmin_example = apply_all-HasAdmin user_ops two_admins two_admins-HasAdmin

-- Two calls that disable each other's administrator both pass their checks before either writes.
abbrev disabled_both : Db
disabled_both =
    (update_users (admin_with "b") (set_status "disabled")
      (update_users (admin_with "a") (set_status "disabled") two_admins).1).1

checks_pass : (other_active_admins "a" two_admins ≡ 1) × (other_active_admins "b" two_admins ≡ 1)
unfolding other_active_admins
checks_pass = (refl, refl)

nobody_left : active_admins disabled_both ≡ 0
unfolding update_users
nobody_left = refl

abbrev the_plan : Plan
the_plan = record {
  id = "free";
  name = "Free";
  monthly_quota = 100;
  base_price_cents = 0;
  hard_cap = true;
  rps = 1;
}

abbrev tenant_with : String → TenantRow
tenant_with status = record {
  id = "t";
  name = "T";
  contact_email = none;
  plan_id = some "free";
  status = status;
}

abbrev one_tenant : Db
one_tenant = record {
  users = [];
  tenants = tenant_with "active" ∷ [];
  keys = [];
  plans = the_plan ∷ [];
}

abbrev account_ops : List AccountOp
account_ops =
    new_key (record { id = "k"; full = "f"; prefix = "p"; hash = "h"; enc = none }) "t" "main" []
    ∷ []

abbrev refused_info : Info
refused_info = record {
  key_id = "k";
  tenant_id = "t";
  key_status = "active";
  tenant_status = "deleted";
  scopes = [];
  quota = 0;
  hard_cap = false;
  rps = 0;
}

deleted : (soft_delete_tenant "t" one_tenant).0 ≡ ok []
unfolding soft_delete_tenant
deleted = refl

resolved :
    resolve_key "h" (account_all account_ops (soft_delete_tenant "t" one_tenant).1)
    ≡ some (some refused_info)
unfolding resolve_key get_key_by_hash account_all account soft_delete_tenant create_key
    key_name_taken insert_key
resolved = refl

soft_delete_tenant-refusal_example : (status : ℕ) × (refusal refused_info "geocode" ≡ some status)
soft_delete_tenant-refusal_example =
    soft_delete_tenant-refusal "t" one_tenant [] account_ops "h" "geocode" refused_info deleted
      resolved refl

-- The plan of a deleted tenant cannot be deleted, and the message then counts no tenant.
abbrev deleted_tenant : Db
deleted_tenant = record one_tenant { tenants = tenant_with "deleted" ∷ [] }

delete_plan_of_deleted : (delete_plan "free" deleted_tenant).0 ≡ in_use 0
unfolding delete_plan
delete_plan_of_deleted = refl

-- Two keys of one tenant.
abbrev rollups : List Row
rollups =
    record {
      tenant_id = "t";
      key_id = "k";
      period = "2024-01";
      day = "2024-01-01";
      endpoint = "geocode";
      count = 1000;
      requests = 1;
    }
    ∷ record {
      tenant_id = "t";
      key_id = "l";
      period = "2024-01";
      day = "2024-01-02";
      endpoint = "geocode";
      count = 3000;
      requests = 2;
    }
    ∷ []

usage_by_key_for_period-usage_totals_for_period_example :
    (sum_milli (usage_by_key_for_period "t" "2024-01" rollups)
      ≡ (usage_totals_for_period "t" "2024-01" rollups).0)
    × (sum_requests (usage_by_key_for_period "t" "2024-01" rollups)
        ≡ (usage_totals_for_period "t" "2024-01" rollups).1)
usage_by_key_for_period-usage_totals_for_period_example =
    usage_by_key_for_period-usage_totals_for_period "t" "2024-01" rollups
