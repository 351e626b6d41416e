-- ===== src/Billing/Accounts/Keys.antt =====
-- billing/repo.py, the statements on `api_keys`. What `security` makes of a new key is an argument.
use geocoder_fwd.Prelude.{
  Bool, true, false, not, ◌&&◌, ◌||◌, Option, none, some, List, [], ◌∷◌, ◌++◌, String, str_eq, map,
  if◌then◌else◌, find_where, update_where, delete_where, exists_where,
}
use geocoder_fwd.Billing.Gateway.{Info}
use geocoder_fwd.Billing.Accounts.{
  TenantRow, Key, Plan, Db, Reply, ok, not_found, conflict, violated,
}
use geocoder_fwd.Billing.Accounts.Tenants.{
  has_id, delete_key, live_key_of, returned, given, is_given, tenant_with_plan,
}

abbrev pub has_key_id : String → Key → Bool
has_key_id key_id k = str_eq k.id key_id

-- `tenant_id=$1 AND name=$2 AND status <> 'deleted'`
abbrev pub live_named : String → String → Key → Bool
live_named tenant_id name k = live_key_of tenant_id k && str_eq k.name name

abbrev other_than : Option String → Key → Bool
other_than none k = true
other_than (some key_id) k = not (has_key_id key_id k)

unfoldable pub key_name_taken : String → String → Option String → Db → Bool
key_name_taken tenant_id name exclude_id db =
    exists_where (λ k. live_named tenant_id name k && other_than exclude_id k) db.keys

abbrev pub with_keys : Db → List Key → Db
with_keys db keys = record db { keys = keys }

-- `security.generate_api_key()` and `encrypt_key`, and the id that the database gives.
pub record NewKey : Type 0 where
  pub id : String
  pub full : String
  pub prefix : String
  pub hash : String
  pub enc : Option String

abbrev pub new_row : NewKey → String → String → List String → Key
new_row new tenant_id name scopes = record {
  id = new.id;
  tenant_id = tenant_id;
  name = name;
  key_prefix = new.prefix;
  key_hash = new.hash;
  key_enc = new.enc;
  scopes = scopes;
  status = "active";
}

-- The constraints of the table: `id` and `key_hash` are unique, and so is the name among the live keys
-- of a tenant.
abbrev pub is_taken : Key → Db → Bool
is_taken row db =
    exists_where
      (λ k.
        has_key_id row.id k
        || str_eq k.key_hash row.key_hash
        || live_named row.tenant_id row.name k)
      db.keys

-- INSERT INTO api_keys
unfoldable pub insert_key : Key → Db → Reply Key × Db
insert_key row db =
    if is_taken row db
    then (conflict, db)
    else if not (exists_where (has_id row.tenant_id) db.tenants)
    then (violated, db)
    else (ok row, with_keys db (db.keys ++ (row ∷ [])))

unfoldable pub create_key : NewKey → String → String → List String → Db → Reply Key × Db
create_key new tenant_id name scopes db =
    if key_name_taken tenant_id name none db
    then (conflict, db)
    else insert_key (new_row new tenant_id name scopes) db

unfoldable pub list_keys : String → Db → List Key
list_keys tenant_id db = delete_where (λ k. not (live_key_of tenant_id k)) db.keys

abbrev of_tenant_if : Option String → Key → Bool
of_tenant_if none k = true
of_tenant_if (some tenant_id) k = str_eq k.tenant_id tenant_id

unfoldable pub get_key : String → Option String → Db → Reply Key
get_key key_id tenant_id db =
    elim (find_where (λ k. has_key_id key_id k && of_tenant_if tenant_id k) db.keys) [
      | none ↦ not_found
      | some k ↦ if str_eq k.status "deleted" then not_found else ok k
    ]

pub record KeyFields : Type 0 where
  pub name : Option String
  pub status : Option String

abbrev pub set_key_fields : KeyFields → Key → Key
set_key_fields fields k = record k {
  name = given fields.name k.name;
  status = given fields.status k.status;
}

-- `id=$1 AND tenant_id=$2 AND status <> 'deleted'`
abbrev pub live_key : String → String → Key → Bool
live_key key_id tenant_id k = has_key_id key_id k && live_key_of tenant_id k

abbrev pub clashes : Option String → String → String → Db → Bool
clashes none key_id tenant_id db = false
clashes (some name) key_id tenant_id db = key_name_taken tenant_id name (some key_id) db

unfoldable pub update_key : String → String → KeyFields → Db → Reply Key × Db
update_key key_id tenant_id fields db =
    let keys = update_where (live_key key_id tenant_id) (set_key_fields fields) db.keys in
    if clashes fields.name key_id tenant_id db
    then (conflict, db)
    else if not (is_given fields.name) && not (is_given fields.status)
    then (get_key key_id (some tenant_id) db, db)
    else if not (exists_where (live_key key_id tenant_id) db.keys)
    then (not_found, db)
    else (returned (find_where (has_key_id key_id) keys), with_keys db keys)

unfoldable pub soft_delete_key : String → String → Db → Reply Key × Db
soft_delete_key key_id tenant_id db =
    let keys = update_where (live_key key_id tenant_id) delete_key db.keys in
    if not (exists_where (live_key key_id tenant_id) db.keys)
    then (not_found, db)
    else (returned (find_where (has_key_id key_id) keys), with_keys db keys)

-- `uuid.UUID` is the argument that says which texts it reads.
unfoldable pub tenant_id_for_key : (String → Bool) → String → Db → Option String
tenant_id_for_key is_uuid key_id db =
    if is_uuid key_id then tenant_of (find_where (has_key_id key_id) db.keys) else none
  where
    tenant_of : Option Key → Option String
    tenant_of none = none
    tenant_of (some k) = some k.tenant_id

unfoldable pub list_key_hashes : String → Db → List String
list_key_hashes tenant_id db =
    map Key.key_hash (delete_where (λ k. not (str_eq k.tenant_id tenant_id)) db.keys)

abbrev pub has_hash : String → Key → Bool
has_hash key_hash k = str_eq k.key_hash key_hash

abbrev pub joined : Key → Option TenantRow → Option (Key × String)
joined k none = none
joined k (some t) = some (k, t.status)

abbrev pub join_tenant : Db → Option Key → Option (Key × String)
join_tenant db none = none
join_tenant db (some k) = joined k (find_where (has_id k.tenant_id) db.tenants)

-- `api_keys JOIN tenants`: the key and the status of its tenant.
unfoldable pub get_key_by_hash : String → Db → Option (Key × String)
get_key_by_hash key_hash db = join_tenant db (find_where (has_hash key_hash) db.keys)

abbrev pub info_of : Key → String → Option Plan → Info
info_of k tenant_status none = record {
  key_id = k.id;
  tenant_id = k.tenant_id;
  key_status = k.status;
  tenant_status = tenant_status;
  scopes = k.scopes;
  quota = 0;
  hard_cap = false;
  rps = 0;
}
info_of k tenant_status (some plan) = record {
  key_id = k.id;
  tenant_id = k.tenant_id;
  key_status = k.status;
  tenant_status = tenant_status;
  scopes = k.scopes;
  quota = plan.monthly_quota;
  hard_cap = plan.hard_cap;
  rps = plan.rps;
}

abbrev pub with_plan : Key → String → Reply (Option Plan) → Option (Option Info)
with_plan k tenant_status (ok plan) = some (some (info_of k tenant_status plan))
with_plan k tenant_status _ = some none

abbrev pub resolve_found : Db → Option (Key × String) → Option (Option Info)
resolve_found db none = none
resolve_found db (some (k, tenant_status)) =
    if str_eq tenant_status "deleted"
    then some (some (info_of k tenant_status none))
    else with_plan k tenant_status (tenant_with_plan k.tenant_id db)

-- The record of billing/gateway.py for a key that is not in the cache; `some none` where `NotFound`
-- is raised.
unfoldable pub resolve_key : String → Db → Option (Option Info)
unfolding get_key_by_hash
resolve_key key_hash db = resolve_found db (get_key_by_hash key_hash db)
