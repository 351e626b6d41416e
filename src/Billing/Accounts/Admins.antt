-- ===== src/Billing/Accounts/Admins.antt =====
-- billing/repo.py: how one statement on `users` changes the number of active administrators.
pub mod Kept
pub mod ByTenant
pub mod Calls
use geocoder_fwd.Prelude.{
  ℕ, ◌+◌, ◌≤◌, ◌<◌, ◌≡◌, ◌⊎◌, refl, Bool, true, false, not, ◌&&◌, Option, none, some, List, [], ◌∷◌,
  ◌++◌, String, str_eq, eq_iff, ◌==◌, if◌then◌else◌, arith, Bool-cases, inl, inr, All, update_where,
  delete_where, count_where, exists_where, count_where-append, count_where-update_where_le,
  count_where-delete_where_le, count_where_mono, update_where-All, delete_where-All, All-append,
}
use geocoder_fwd.Billing.Accounts.{User, Db, Reply, ok, not_found, conflict}
use geocoder_fwd.Billing.Accounts.Users.{
  with_users, at_tenant, is_admin, has_email, insert_user, create_tenant_user, update_users,
  delete_users, of_tenant, set_status, set_password, set_user_status, delete_tenant_user,
  set_user_password, create_admin, is_active_admin, other_active_admins, admin_with,
  set_admin_status, delete_admin, set_admin_password,
}

abbrev pub active_admins : Db → ℕ
active_admins db = count_where is_active_admin db.users

-- An administrator belongs to no tenant.
abbrev pub IsPlatform : User → Type 0
IsPlatform u = is_admin u ≡ true → u.tenant_id ≡ none

pub insert_user-active_admins :
    (new : User) (db : Db) → active_admins db ≤ active_admins (insert_user new db).1
unfolding insert_user
insert_user-active_admins new db = elim (Bool-cases (exists_where (has_email new.email) db.users)) [
  | inl taken ↦ rw taken (omega arith)
  | inr free ↦ rw free (omega (arith, count_where-append is_active_admin db.users (new ∷ [])))
]

module _ (db : Db) (platform : All IsPlatform db.users) where
  -- An update that keeps what counts keeps the count.
  pub update_users-active_admins :
      (p : User → Bool) (f : User → User) (q : User → Bool)
      → ((u : User) → IsPlatform u → q u ≡ true → is_active_admin (if p u then f u else u) ≡ true)
      → count_where q db.users ≤ count_where is_active_admin db.users
      → count_where q db.users ≤ active_admins (update_users p f db).1
  unfolding update_users
  update_users-active_admins p f q h base = elim (Bool-cases (exists_where p db.users)) [
    | inl e ↦
        rw e (count_where-update_where_le IsPlatform q is_active_admin p f db.users h platform)
    | inr e ↦ rw e base
  ]

  pub delete_users-active_admins :
      (p q : User → Bool)
      → ((u : User) → IsPlatform u → q u ≡ true → is_active_admin u ≡ true)
      → ((u : User) → IsPlatform u → q u ≡ true → p u ≡ false)
      → count_where q db.users ≤ count_where is_active_admin db.users
      → count_where q db.users ≤ active_admins (delete_users p db).1
  unfolding delete_users
  delete_users-active_admins p q h k base = elim (Bool-cases (exists_where p db.users)) [
    | inl e ↦
        rw e (count_where-delete_where_le IsPlatform q is_active_admin p db.users h k platform)
    | inr e ↦ rw e base
  ]

  pub update_users-IsPlatform :
      (p : User → Bool) (f : User → User)
      → ((u : User) → IsPlatform u → IsPlatform (if p u then f u else u))
      → All IsPlatform (update_users p f db).1.users
  unfolding update_users
  update_users-IsPlatform p f h = elim (Bool-cases (exists_where p db.users)) [
    | inl e ↦ rw e (update_where-All IsPlatform IsPlatform p f db.users h platform)
    | inr e ↦ rw e platform
  ]

  pub delete_users-IsPlatform : (p : User → Bool) → All IsPlatform (delete_users p db).1.users
  unfolding delete_users
  delete_users-IsPlatform p = elim (Bool-cases (exists_where p db.users)) [
    | inl e ↦ rw e (delete_where-All IsPlatform p db.users platform)
    | inr e ↦ rw e platform
  ]

  pub insert_user-IsPlatform :
      (new : User) → IsPlatform new → All IsPlatform (insert_user new db).1.users
  unfolding insert_user
  insert_user-IsPlatform new good =
      elim (Bool-cases (exists_where (has_email new.email) db.users)) [
        | inl e ↦ rw e platform
        | inr e ↦ rw e (All-append IsPlatform db.users (new ∷ []) platform (good, tt))
      ]

pub active→admin : (u : User) → is_active_admin u ≡ true → is_admin u ≡ true
active→admin u active = elim (Bool-cases (is_admin u)) [
  | inl e ↦ e
  | inr e ↦ let no : false ≡ true = rw e at active in cc
]

active→status : (u : User) → is_active_admin u ≡ true → str_eq u.status "active" ≡ true
active→status u active = rw (active→admin u active) at active

-- A test on the tenant fails for whoever has none.
pub admin_of_tenant :
    (tenant_id email : String) (u : User)
    → IsPlatform u
    → is_active_admin u ≡ true
    → of_tenant tenant_id email u ≡ false
admin_of_tenant tenant_id email u platform active =
    rw (platform (active→admin u active))
      (elim (Bool-cases (has_email email u)) [ inl e ↦ rw e refl | inr e ↦ rw e refl ])

-- Where the update leaves out the row, the row still counts.
pub left_out :
    (p : User → Bool) (f : User → User) (u : User)
    → is_active_admin u ≡ true
    → p u ≡ false
    → is_active_admin (if p u then f u else u) ≡ true
left_out p f u active e = rw e active
