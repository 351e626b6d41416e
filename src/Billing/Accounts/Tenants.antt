-- ===== src/Billing/Accounts/Tenants.antt =====
-- billing/repo.py, the statements on `tenants`.
use geocoder_fwd.Prelude.{
  Bool, true, false, not, ◌&&◌, Option, none, some, List, [], ◌∷◌, ◌++◌, String, str_eq, map,
  if◌then◌else◌, find_where, update_where, delete_where, exists_where,
}
use geocoder_fwd.Billing.Accounts.{
  User, TenantRow, Key, Plan, Db, Reply, ok, not_found, conflict, violated,
}
use geocoder_fwd.Billing.Accounts.Users.{has_email, at_tenant}

abbrev pub has_id : String → TenantRow → Bool
has_id tenant_id t = str_eq t.id tenant_id

-- `id=$1 AND status <> 'deleted'`
abbrev pub live_tenant : String → TenantRow → Bool
live_tenant tenant_id t = has_id tenant_id t && not (str_eq t.status "deleted")

abbrev pub has_plan_id : String → Plan → Bool
has_plan_id plan_id p = str_eq p.id plan_id

-- `plan_id TEXT REFERENCES plans(id)`: NULL refers to nothing.
abbrev pub known_plan : Option String → Db → Bool
known_plan none db = true
known_plan (some plan_id) db = exists_where (has_plan_id plan_id) db.plans

-- `new_id` is what `gen_random_uuid()` gives; `id` is the primary key.
unfoldable pub create_tenant :
    String → String → Option String → String → String → String → Db → Reply TenantRow × Db
create_tenant new_id name contact_email plan_id admin_email hash db =
    let row : TenantRow = record {
      id = new_id;
      name = name;
      contact_email = contact_email;
      plan_id = some plan_id;
      status = "active";
    } in
    let user : User = record {
      email = admin_email;
      password_hash = hash;
      role = "tenant_user";
      tenant_id = some new_id;
      status = "active";
    } in
    if not (exists_where (has_plan_id plan_id) db.plans)
    then (not_found, db)
    else if exists_where (has_email admin_email) db.users
    then (conflict, db)
    else if exists_where (has_id new_id) db.tenants
    then (violated, db)
    else (ok row, record db { tenants = db.tenants ++ (row ∷ []); users = db.users ++ (user ∷ []) })

unfoldable pub list_tenants : Bool → Db → List TenantRow
list_tenants include_deleted db =
    if include_deleted then db.tenants else delete_where (λ t. str_eq t.status "deleted") db.tenants

unfoldable pub get_tenant : String → Bool → Db → Reply TenantRow
get_tenant tenant_id include_deleted db = elim (find_where (has_id tenant_id) db.tenants) [
  | none ↦ not_found
  | some t ↦ if not include_deleted && str_eq t.status "deleted" then not_found else ok t
]

-- `TenantUpdate`, whose absent fields are left out of the statement.
pub record TenantFields : Type 0 where
  pub name : Option String
  pub contact_email : Option String
  pub plan_id : Option String
  pub status : Option String

abbrev pub given : {A : Type 0} → Option A → A → A
given none old = old
given (some new) old = new

abbrev pub is_given : {A : Type 0} → Option A → Bool
is_given none = false
is_given (some a) = true

abbrev pub given_option : {A : Type 0} → Option A → Option A → Option A
given_option none old = old
given_option (some new) old = some new

abbrev pub set_fields : TenantFields → TenantRow → TenantRow
set_fields fields t = record t {
  name = given fields.name t.name;
  contact_email = given_option fields.contact_email t.contact_email;
  plan_id = given_option fields.plan_id t.plan_id;
  status = given fields.status t.status;
}

abbrev pub no_fields : TenantFields → Bool
no_fields fields =
    not (is_given fields.name)
    && not (is_given fields.contact_email)
    && not (is_given fields.plan_id)
    && not (is_given fields.status)

-- The row that `RETURNING *` gives.
abbrev pub returned : {A : Type 0} → Option A → Reply A
returned none = not_found
returned (some row) = ok row

unfoldable pub update_tenant : String → TenantFields → Db → Reply TenantRow × Db
update_tenant tenant_id fields db =
    if no_fields fields
    then (get_tenant tenant_id false db, db)
    else if not (exists_where (live_tenant tenant_id) db.tenants)
    then (not_found, db)
    else if not (known_plan fields.plan_id db)
    then (violated, db)
    else let tenants = update_where (live_tenant tenant_id) (set_fields fields) db.tenants in
      (returned (find_where (has_id tenant_id) tenants), record db { tenants = tenants })

abbrev pub delete_tenant : TenantRow → TenantRow
delete_tenant t = record t { status = "deleted" }

abbrev pub delete_key : Key → Key
delete_key k = record k { status = "deleted" }

-- `tenant_id=$1 AND status <> 'deleted'`
abbrev pub live_key_of : String → Key → Bool
live_key_of tenant_id k = str_eq k.tenant_id tenant_id && not (str_eq k.status "deleted")

unfoldable pub soft_delete_tenant : String → Db → Reply (List String) × Db
soft_delete_tenant tenant_id db =
    let of_tenant : User → Bool = λ u. at_tenant tenant_id u.tenant_id in
    if not (exists_where (live_tenant tenant_id) db.tenants) then (not_found, db) else (
      ok (map User.email (delete_where (λ u. not (of_tenant u)) db.users)),
      record db {
        tenants = update_where (live_tenant tenant_id) delete_tenant db.tenants;
        keys = update_where (live_key_of tenant_id) delete_key db.keys;
        users = delete_where of_tenant db.users;
      },
    )

-- `tenants LEFT JOIN plans`: the plan is missing where the tenant has none.
unfoldable pub tenant_with_plan : String → Db → Reply (Option Plan)
tenant_with_plan tenant_id db = elim (find_where (live_tenant tenant_id) db.tenants) [
  | none ↦ not_found
  | some t ↦ ok (plan_of t.plan_id db)
]
  where
    plan_of : Option String → Db → Option Plan
    plan_of none db = none
    plan_of (some plan_id) db = find_where (has_plan_id plan_id) db.plans

abbrev on_plan : String → Option String → Bool
on_plan plan_id none = false
on_plan plan_id (some p) = str_eq p plan_id

unfoldable pub tenant_ids_on_plan : String → Db → List String
tenant_ids_on_plan plan_id db = map TenantRow.id (
    delete_where (λ t. not (on_plan plan_id t.plan_id && not (str_eq t.status "deleted")))
      db.tenants)

unfoldable pub all_active_tenant_ids : Db → List String
all_active_tenant_ids db =
    map TenantRow.id (delete_where (λ t. not (str_eq t.status "active")) db.tenants)
