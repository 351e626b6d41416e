-- ===== src/Billing/Accounts/Admins/Calls.antt =====
-- billing/repo.py and billing/db.py: the last active administrator, over sequences of calls.
use geocoder_fwd.Prelude.{Option, List, [], ◌∷◌, String}
use geocoder_fwd.Billing.Accounts.{Db}
use geocoder_fwd.Billing.Accounts.Users.{
  create_tenant_user, set_user_status, delete_tenant_user, set_user_password, create_admin,
  set_admin_status, delete_admin, set_admin_password, seed_admin,
}
use geocoder_fwd.Billing.Accounts.Tenants.{create_tenant, soft_delete_tenant}
use geocoder_fwd.Billing.Accounts.Admins.ByTenant.{
  create_tenant-HasAdmin, soft_delete_tenant-HasAdmin, seed_admin-HasAdmin,
}
use geocoder_fwd.Billing.Accounts.Admins.Kept.{
  HasAdmin, create_admin-HasAdmin, create_tenant_user-HasAdmin, delete_admin-HasAdmin,
  delete_tenant_user-HasAdmin, disable-HasAdmin, enable-HasAdmin, set_admin_password-HasAdmin,
  set_user_password-HasAdmin, set_user_status-HasAdmin,
}

-- The calls that write to `users`, each done before the next begins: those on the users of a tenant, on
-- the administrators and on whole tenants, and the start of a server. As the requests call them, a new
-- user of a tenant has the role `tenant_user`, and an administrator's status is one of two.
pub data UserOp : Type 0 where
  create_user : String → String → String → UserOp
  user_status : String → String → String → UserOp
  delete_user : String → String → UserOp
  user_password : String → String → String → UserOp
  new_admin : String → String → UserOp
  enable_admin : String → UserOp
  disable_admin : String → UserOp
  remove_admin : String → UserOp
  admin_password : String → String → UserOp
  -- The id, the name, the contact and the plan of the tenant, and its first user.
  new_tenant : String → String → Option String → String → String → String → UserOp
  drop_tenant : String → UserOp
  seed : String → String → UserOp

unfoldable pub apply : UserOp → Db → Db
apply (create_user tenant_id email hash) db =
    (create_tenant_user tenant_id email hash "tenant_user" db).1
apply (user_status tenant_id email status) db = (set_user_status tenant_id email status db).1
apply (delete_user tenant_id email) db = (delete_tenant_user tenant_id email db).1
apply (user_password tenant_id email hash) db = (set_user_password email tenant_id hash db).1
apply (new_admin email hash) db = (create_admin email hash db).1
apply (enable_admin email) db = (set_admin_status email "active" db).1
apply (disable_admin email) db = (set_admin_status email "disabled" db).1
apply (remove_admin email) db = (delete_admin email db).1
apply (admin_password email hash) db = (set_admin_password email hash db).1
apply (new_tenant new_id name contact_email plan_id email hash) db =
    (create_tenant new_id name contact_email plan_id email hash db).1
apply (drop_tenant tenant_id) db = (soft_delete_tenant tenant_id db).1
apply (seed email hash) db = (seed_admin email hash db).1

unfoldable pub apply_all : List UserOp → Db → Db
apply_all [] db = db
apply_all (op ∷ ops) db = apply_all ops (apply op db)

apply-HasAdmin : (op : UserOp) (db : Db) → HasAdmin db → HasAdmin (apply op db)
unfolding apply
apply-HasAdmin (create_user tenant_id email hash) db has =
    create_tenant_user-HasAdmin db has tenant_id email hash
apply-HasAdmin (user_status tenant_id email status) db has =
    set_user_status-HasAdmin db has tenant_id email status
apply-HasAdmin (delete_user tenant_id email) db has =
    delete_tenant_user-HasAdmin db has tenant_id email
apply-HasAdmin (user_password tenant_id email hash) db has =
    set_user_password-HasAdmin db has tenant_id email hash
apply-HasAdmin (new_admin email hash) db has = create_admin-HasAdmin db has email hash
apply-HasAdmin (enable_admin email) db has = enable-HasAdmin db has email
apply-HasAdmin (disable_admin email) db has = disable-HasAdmin db has email
apply-HasAdmin (remove_admin email) db has = delete_admin-HasAdmin db has email
apply-HasAdmin (admin_password email hash) db has = set_admin_password-HasAdmin db has email hash
apply-HasAdmin (new_tenant new_id name contact_email plan_id email hash) db has =
    create_tenant-HasAdmin db has new_id name contact_email plan_id email hash
apply-HasAdmin (drop_tenant tenant_id) db has = soft_delete_tenant-HasAdmin db has tenant_id
apply-HasAdmin (seed email hash) db has = seed_admin-HasAdmin db has email hash

-- Whatever calls that write to `users` follow one another (on users, administrators, whole tenants or at
-- the start of a server), if an administrator is active at the start and every
-- administrator is without a tenant, then so it is at the end.
pub apply_all-HasAdmin : (ops : List UserOp) (db : Db) → HasAdmin db → HasAdmin (apply_all ops db)
unfolding apply_all
apply_all-HasAdmin [] db has = has
apply_all-HasAdmin (op ∷ ops) db has =
    apply_all-HasAdmin ops (apply op db) (apply-HasAdmin op db has)
