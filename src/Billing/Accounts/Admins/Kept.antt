-- ===== src/Billing/Accounts/Admins/Kept.antt =====
-- billing/repo.py: the calls on `users`, one by one, and the active administrators.
use geocoder_fwd.Prelude.{
  ◌≤◌, ◌≡◌, refl, Bool, true, false, not, ◌&&◌, none, some, String, ◌==◌, if◌then◌else◌, arith,
  Bool-cases, inl, inr, All, count_where, count_where_mono,
}
use geocoder_fwd.Billing.Accounts.{User, Db}
use geocoder_fwd.Billing.Accounts.Users.{
  is_admin, has_email, create_tenant_user, of_tenant, set_status, set_password, set_user_status,
  delete_tenant_user, set_user_password, create_admin, is_active_admin, other_active_admins,
  admin_with, set_admin_status, delete_admin, set_admin_password, update_users,
}
use geocoder_fwd.Billing.Accounts.Admins.{
  active_admins, IsPlatform, insert_user-active_admins, update_users-active_admins,
  delete_users-active_admins, update_users-IsPlatform, delete_users-IsPlatform,
  insert_user-IsPlatform, active→admin, admin_of_tenant, left_out,
}

-- Somebody can administer the platform.
abbrev pub HasAdmin : Db → Type 0
HasAdmin db = (1 ≤ active_admins db) × All IsPlatform db.users

-- To set the status or the password moves nobody to another role or tenant.
set_status-IsPlatform :
    (p : User → Bool) (status : String) (u : User)
    → IsPlatform u
    → IsPlatform (if p u then set_status status u else u)
set_status-IsPlatform p status u h = elim (Bool-cases (p u)) [ inl e ↦ rw e h | inr e ↦ rw e h ]

set_password-IsPlatform :
    (p : User → Bool) (hash : String) (u : User)
    → IsPlatform u
    → IsPlatform (if p u then set_password hash u else u)
set_password-IsPlatform p hash u h = elim (Bool-cases (p u)) [ inl e ↦ rw e h | inr e ↦ rw e h ]

abbrev others : String → User → Bool
others email u = is_active_admin u && not (has_email email u)

others→active : (email : String) (u : User) → others email u ≡ true → is_active_admin u ≡ true
others→active email u h = elim (Bool-cases (is_active_admin u)) [
  | inl e ↦ e
  | inr e ↦ let no : false ≡ true = rw e at h in cc
]

others-admin_with : (email : String) (u : User) → others email u ≡ true → admin_with email u ≡ false
others-admin_with email u h = elim (Bool-cases (has_email email u)) [
  | inl e ↦ let no : false ≡ true = rw (others→active email u h, e) at h in cc
  | inr e ↦ rw e refl
]

module _ (db : Db) (has : HasAdmin db) where
  few : (email : String) → count_where (others email) db.users ≤ active_admins db
  few email = count_where_mono (others email) is_active_admin db.users (others→active email)

  after_tenant_update :
      (tenant_id email : String) (f : User → User)
      → 1 ≤ active_admins (update_users (of_tenant tenant_id email) f db).1
  after_tenant_update tenant_id email f = omega (
    arith,
    has.0,
    update_users-active_admins db has.1 (of_tenant tenant_id email) f is_active_admin
        (λ u h e.
          left_out (of_tenant tenant_id email) f u e (admin_of_tenant tenant_id email u h e))
        (omega arith),
  )

  pub set_user_status-HasAdmin :
      (tenant_id email status : String) → HasAdmin (set_user_status tenant_id email status db).1
  unfolding set_user_status
  set_user_status-HasAdmin tenant_id email status = (
    after_tenant_update tenant_id email (set_status status),
    update_users-IsPlatform db has.1 (of_tenant tenant_id email) (set_status status)
        (set_status-IsPlatform (of_tenant tenant_id email) status),
  )

  pub set_user_password-HasAdmin :
      (tenant_id email hash : String) → HasAdmin (set_user_password email tenant_id hash db).1
  unfolding set_user_password
  set_user_password-HasAdmin tenant_id email hash = (
    after_tenant_update tenant_id email (set_password hash),
    update_users-IsPlatform db has.1 (of_tenant tenant_id email) (set_password hash)
        (set_password-IsPlatform (of_tenant tenant_id email) hash),
  )

  pub delete_tenant_user-HasAdmin :
      (tenant_id email : String) → HasAdmin (delete_tenant_user tenant_id email db).1
  unfolding delete_tenant_user
  delete_tenant_user-HasAdmin tenant_id email =
      let p : User → Bool = λ u. of_tenant tenant_id email u && not (is_admin u) in
      (
        omega (
          arith,
          has.0,
          delete_users-active_admins db has.1 p is_active_admin (λ u h e. e)
              (λ u h e. rw (admin_of_tenant tenant_id email u h e) refl) (omega arith),
        ),
        delete_users-IsPlatform db has.1 p,
      )

  pub create_tenant_user-HasAdmin :
      (tenant_id email hash : String)
      → HasAdmin (create_tenant_user tenant_id email hash "tenant_user" db).1
  unfolding create_tenant_user
  create_tenant_user-HasAdmin tenant_id email hash =
      let new : User = record {
        email = email;
        password_hash = hash;
        role = "tenant_user";
        tenant_id = some tenant_id;
        status = "active";
      } in
      (
        omega (arith, has.0, insert_user-active_admins new db),
        insert_user-IsPlatform db has.1 new (λ admin. let no : false ≡ true = admin in cc),
      )

  pub create_admin-HasAdmin : (email hash : String) → HasAdmin (create_admin email hash db).1
  unfolding create_admin
  create_admin-HasAdmin email hash =
      let new : User = record {
        email = email;
        password_hash = hash;
        role = "admin";
        tenant_id = none;
        status = "active";
      } in
      (
        omega (arith, has.0, insert_user-active_admins new db),
        insert_user-IsPlatform db has.1 new (λ admin. refl),
      )

  pub set_admin_password-HasAdmin :
      (email hash : String) → HasAdmin (set_admin_password email hash db).1
  unfolding set_admin_password
  set_admin_password-HasAdmin email hash = (
    omega (
      arith,
      has.0,
      update_users-active_admins db has.1 (admin_with email) (set_password hash) is_active_admin
          (λ u h e. elim (Bool-cases (admin_with email u)) [
            | inl same ↦ rw same e
            | inr other ↦ rw other e
          ])
          (omega arith),
    ),
    update_users-IsPlatform db has.1 (admin_with email) (set_password hash)
        (set_password-IsPlatform (admin_with email) hash),
  )

  pub delete_admin-HasAdmin : (email : String) → HasAdmin (delete_admin email db).1
  unfolding delete_admin other_active_admins
  delete_admin-HasAdmin email = elim (Bool-cases (count_where (others email) db.users == 0)) [
    | inl last ↦ rw last has
    | inr more ↦ rw more (
      ground (
        arith,
        more,
        delete_users-active_admins db has.1 (admin_with email) (others email)
            (λ u h e. others→active email u e) (λ u h e. others-admin_with email u e) (few email),
      ),
      delete_users-IsPlatform db has.1 (admin_with email),
    )
  ]

  pub enable-HasAdmin : (email : String) → HasAdmin (set_admin_status email "active" db).1
  unfolding set_admin_status
  enable-HasAdmin email = (
    omega (
      arith,
      has.0,
      update_users-active_admins db has.1 (admin_with email) (set_status "active") is_active_admin
          (λ u h e. elim (Bool-cases (admin_with email u)) [
            | inl same ↦ rw same (rw (active→admin u e) refl)
            | inr other ↦ rw other e
          ])
          (omega arith),
    ),
    update_users-IsPlatform db has.1 (admin_with email) (set_status "active")
        (set_status-IsPlatform (admin_with email) "active"),
  )

  pub disable-HasAdmin : (email : String) → HasAdmin (set_admin_status email "disabled" db).1
  unfolding set_admin_status other_active_admins
  disable-HasAdmin email = elim (Bool-cases (count_where (others email) db.users == 0)) [
    | inl last ↦ rw last has
    | inr more ↦ rw more (
      ground (
        arith,
        more,
        update_users-active_admins db has.1 (admin_with email) (set_status "disabled")
            (others email)
            (λ u h e.
              left_out (admin_with email) (set_status "disabled") u (others→active email u e)
                (others-admin_with email u e))
            (few email),
      ),
      update_users-IsPlatform db has.1 (admin_with email) (set_status "disabled")
          (set_status-IsPlatform (admin_with email) "disabled"),
    )
  ]
