-- ===== src/Billing/Accounts/Plans.antt =====
-- billing/repo.py, the statements on `plans` and on `endpoint_weights`.
use geocoder_fwd.Prelude.{
  ℕ, Bool, false, not, ◌&&◌, Option, none, some, List, [], ◌∷◌, ◌++◌, String, str_eq, if◌then◌else◌,
  find_where, update_where, delete_where, count_where, exists_where, Dict,
}
use geocoder_fwd.Billing.Accounts.{TenantRow, Plan, Db, Reply, ok, not_found, conflict, in_use}
use geocoder_fwd.Billing.Accounts.Tenants.{has_plan_id, given, is_given, returned}

unfoldable pub get_plan : String → Db → Reply Plan
get_plan plan_id db = returned (find_where (has_plan_id plan_id) db.plans)

abbrev pub with_plans : Db → List Plan → Db
with_plans db plans = record db { plans = plans }

unfoldable pub create_plan : Plan → Db → Reply Plan × Db
create_plan plan db =
    if exists_where (has_plan_id plan.id) db.plans
    then (conflict, db)
    else (ok plan, with_plans db (db.plans ++ (plan ∷ [])))

pub record PlanFields : Type 0 where
  pub name : Option String
  pub monthly_quota : Option ℕ
  pub base_price_cents : Option ℕ
  pub hard_cap : Option Bool
  pub rps : Option ℕ

abbrev pub set_plan_fields : PlanFields → Plan → Plan
set_plan_fields fields p = record p {
  name = given fields.name p.name;
  monthly_quota = given fields.monthly_quota p.monthly_quota;
  base_price_cents = given fields.base_price_cents p.base_price_cents;
  hard_cap = given fields.hard_cap p.hard_cap;
  rps = given fields.rps p.rps;
}

abbrev pub no_plan_fields : PlanFields → Bool
no_plan_fields fields =
    not (is_given fields.name)
    && not (is_given fields.monthly_quota)
    && not (is_given fields.base_price_cents)
    && not (is_given fields.hard_cap)
    && not (is_given fields.rps)

unfoldable pub update_plan : String → PlanFields → Db → Reply Plan × Db
update_plan plan_id fields db =
    let plans = update_where (has_plan_id plan_id) (set_plan_fields fields) db.plans in
    if no_plan_fields fields
    then (get_plan plan_id db, db)
    else (returned (find_where (has_plan_id plan_id) plans), with_plans db plans)

abbrev at_plan : String → Option String → Bool
at_plan plan_id none = false
at_plan plan_id (some p) = str_eq p plan_id

abbrev pub refers_to : String → TenantRow → Bool
refers_to plan_id t = at_plan plan_id t.plan_id

-- The foreign key of `tenants` counts every row that refers to the plan, a deleted tenant's too.
unfoldable pub delete_plan : String → Db → Reply (Unit {0}) × Db
delete_plan plan_id db =
    if exists_where (has_plan_id plan_id) db.plans && exists_where (refers_to plan_id) db.tenants
    then (
      in_use (count_where (λ t. refers_to plan_id t && not (str_eq t.status "deleted")) db.tenants),
      db,
    )
    else if exists_where (has_plan_id plan_id) db.plans
    then (ok tt, with_plans db (delete_where (has_plan_id plan_id) db.plans))
    else (not_found, db)

-- INSERT ... ON CONFLICT (endpoint) DO UPDATE
unfoldable pub upsert_weight : String → ℕ → Dict ℕ → Dict ℕ
upsert_weight endpoint milli [] = (endpoint, milli) ∷ []
upsert_weight endpoint milli ((k, v) ∷ rows) =
    let rest = upsert_weight endpoint milli rows in
    if str_eq k endpoint then (k, milli) ∷ rows else (k, v) ∷ rest

unfoldable pub delete_weight : String → Dict ℕ → Reply (Unit {0}) × Dict ℕ
delete_weight endpoint rows =
    if exists_where (λ r. str_eq r.0 endpoint) rows
    then (ok tt, delete_where (λ r. str_eq r.0 endpoint) rows)
    else (not_found, rows)
