-- ===== src/Billing/Accounts/Users.antt =====
-- billing/repo.py, the statements on `users`.
use geocoder_fwd.Prelude.{
  ℕ, Bool, false, not, ◌&&◌, Option, none, some, List, [], ◌∷◌, ◌++◌, String, str_eq, ◌==◌,
  if◌then◌else◌, find_where, update_where, delete_where, count_where, exists_where,
}
use geocoder_fwd.Billing.Accounts.{User, Db, Reply, ok, not_found, conflict, violated}

abbrev pub with_users : Db → List User → Db
with_users db users = record db { users = users }

-- `tenant_id=$n`, which no NULL fulfils.
abbrev pub at_tenant : String → Option String → Bool
at_tenant tenant_id none = false
at_tenant tenant_id (some t) = str_eq t tenant_id

abbrev pub is_admin : User → Bool
is_admin u = str_eq u.role "admin"

abbrev pub has_email : String → User → Bool
has_email email u = str_eq u.email email

unfoldable pub get_user_by_email : String → Db → Option User
get_user_by_email email db = find_where (has_email email) db.users

unfoldable pub list_tenant_users : String → Db → List User
list_tenant_users tenant_id db = delete_where (λ u. not (at_tenant tenant_id u.tenant_id)) db.users

-- INSERT INTO users; `email` is unique.
unfoldable pub insert_user : User → Db → Reply User × Db
insert_user new db =
    if exists_where (has_email new.email) db.users
    then (conflict, db)
    else (ok new, with_users db (db.users ++ (new ∷ [])))

unfoldable pub create_tenant_user : String → String → String → String → Db → Reply User × Db
unfolding insert_user
create_tenant_user tenant_id email password_hash role db =
    insert_user
      (record {
        email = email;
        password_hash = password_hash;
        role = role;
        tenant_id = some tenant_id;
        status = "active";
      })
      db

-- UPDATE users SET ... WHERE ...: `NotFound` where no row matches.
unfoldable pub update_users : (User → Bool) → (User → User) → Db → Reply (Unit {0}) × Db
update_users p f db =
    if exists_where p db.users
    then (ok tt, with_users db (update_where p f db.users))
    else (not_found, db)

unfoldable pub delete_users : (User → Bool) → Db → Reply (Unit {0}) × Db
delete_users p db =
    if exists_where p db.users
    then (ok tt, with_users db (delete_where p db.users))
    else (not_found, db)

abbrev pub of_tenant : String → String → User → Bool
of_tenant tenant_id email u = has_email email u && at_tenant tenant_id u.tenant_id

abbrev pub set_status : String → User → User
set_status status u = record u { status = status }

abbrev pub set_password : String → User → User
set_password password_hash u = record u { password_hash = password_hash }

unfoldable pub set_user_status : String → String → String → Db → Reply (Unit {0}) × Db
unfolding update_users
set_user_status tenant_id email status =
    update_users (of_tenant tenant_id email) (set_status status)

unfoldable pub delete_tenant_user : String → String → Db → Reply (Unit {0}) × Db
unfolding delete_users
delete_tenant_user tenant_id email =
    delete_users (λ u. of_tenant tenant_id email u && not (is_admin u))

unfoldable pub set_user_password : String → String → String → Db → Reply (Unit {0}) × Db
unfolding update_users
set_user_password email tenant_id password_hash =
    update_users (of_tenant tenant_id email) (set_password password_hash)

unfoldable pub list_admins : Db → List User
list_admins db = delete_where (λ u. not (is_admin u)) db.users

unfoldable pub create_admin : String → String → Db → Reply User × Db
unfolding insert_user
create_admin email password_hash db =
    insert_user
      (record {
        email = email;
        password_hash = password_hash;
        role = "admin";
        tenant_id = none;
        status = "active";
      })
      db

-- billing/db.py, at the start of the server: the first administrator, if there is none at all.
unfoldable pub seed_admin : String → String → Db → Reply (Unit {0}) × Db
seed_admin email password_hash db =
    let new : User = record {
      email = email;
      password_hash = password_hash;
      role = "admin";
      tenant_id = none;
      status = "active";
    } in
    if exists_where is_admin db.users
    then (ok tt, db)
    else if exists_where (has_email email) db.users
    then (violated, db)
    else (ok tt, with_users db (db.users ++ (new ∷ [])))

abbrev pub is_active_admin : User → Bool
is_active_admin u = is_admin u && str_eq u.status "active"

unfoldable pub other_active_admins : String → Db → ℕ
other_active_admins email db =
    count_where (λ u. is_active_admin u && not (has_email email u)) db.users

abbrev pub admin_with : String → User → Bool
admin_with email u = has_email email u && is_admin u

unfoldable pub set_admin_status : String → String → Db → Reply (Unit {0}) × Db
set_admin_status email status db =
    if str_eq status "disabled" && (other_active_admins email db == 0)
    then (conflict, db)
    else update_users (admin_with email) (set_status status) db

unfoldable pub delete_admin : String → Db → Reply (Unit {0}) × Db
delete_admin email db =
    if other_active_admins email db == 0 then (conflict, db) else delete_users (admin_with email) db

unfoldable pub set_admin_password : String → String → Db → Reply (Unit {0}) × Db
unfolding update_users
set_admin_password email password_hash =
    update_users (admin_with email) (set_password password_hash)
