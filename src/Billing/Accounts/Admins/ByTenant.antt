-- ===== src/Billing/Accounts/Admins/ByTenant.antt =====
-- billing/repo.py, `create_tenant` and `soft_delete_tenant`, and billing/db.py, `seed_admin`: what they
-- do to the active administrators.
use geocoder_fwd.Prelude.{
  ◌≤◌, ◌≡◌, refl, Bool, true, false, none, some, Option, [], ◌∷◌, ◌++◌, String, arith, Bool-cases,
  inl, inr, All, count_where, exists_where, count_where-append, count_where-delete_where_le,
  delete_where-All, All-append,
}
use geocoder_fwd.Billing.Accounts.{User, Db}
use geocoder_fwd.Billing.Accounts.Users.{
  at_tenant, is_admin, has_email, is_active_admin, seed_admin,
}
use geocoder_fwd.Billing.Accounts.Tenants.{
  create_tenant, soft_delete_tenant, has_id, has_plan_id, live_tenant,
}
use geocoder_fwd.Billing.Accounts.Admins.{IsPlatform, active→admin}
use geocoder_fwd.Billing.Accounts.Admins.Kept.{HasAdmin}

module _ (db : Db) (has : HasAdmin db) where
  -- The table with one more row.
  one_more :
      (new : User)
      → IsPlatform new
      → (1 ≤ count_where is_active_admin (db.users ++ (new ∷ [])))
        × All IsPlatform (db.users ++ (new ∷ []))
  one_more new good = (
    omega (arith, has.0, count_where-append is_active_admin db.users (new ∷ [])),
    All-append IsPlatform db.users (new ∷ []) has.1 (good, tt),
  )

  pub create_tenant-HasAdmin :
      (new_id name : String) (contact_email : Option String) (plan_id admin_email hash : String)
      → HasAdmin (create_tenant new_id name contact_email plan_id admin_email hash db).1
  unfolding create_tenant
  create_tenant-HasAdmin new_id name contact_email plan_id admin_email hash =
      let new : User = record {
        email = admin_email;
        password_hash = hash;
        role = "tenant_user";
        tenant_id = some new_id;
        status = "active";
      } in
      elim (Bool-cases (exists_where (has_plan_id plan_id) db.plans)) [
        | inr no_plan ↦ rw no_plan has
        | inl e ↦ elim (Bool-cases (exists_where (has_email admin_email) db.users)) [
          | inl taken ↦ rw (e, taken) has
          | inr free ↦ elim (Bool-cases (exists_where (has_id new_id) db.tenants)) [
            | inl clash ↦ rw (e, free, clash) has
            | inr fresh ↦
                rw (e, free, fresh) (one_more new (λ admin. let no : false ≡ true = admin in cc))
          ]
        ]
      ]

  -- A tenant's users go with it, and an administrator is of no tenant.
  pub soft_delete_tenant-HasAdmin :
      (tenant_id : String) → HasAdmin (soft_delete_tenant tenant_id db).1
  unfolding soft_delete_tenant
  soft_delete_tenant-HasAdmin tenant_id =
      let gone : User → Bool = λ u. at_tenant tenant_id u.tenant_id in
      elim (Bool-cases (exists_where (live_tenant tenant_id) db.tenants)) [
        | inr e ↦ rw e has
        | inl e ↦ rw e (
          omega (
            arith,
            has.0,
            count_where-delete_where_le IsPlatform is_active_admin is_active_admin gone db.users
                (λ u h active. active) (λ u h active. rw (h (active→admin u active)) refl) has.1,
          ),
          delete_where-All IsPlatform gone db.users has.1,
        )
      ]

  pub seed_admin-HasAdmin : (email hash : String) → HasAdmin (seed_admin email hash db).1
  unfolding seed_admin
  seed_admin-HasAdmin email hash =
      let new : User = record {
        email = email;
        password_hash = hash;
        role = "admin";
        tenant_id = none;
        status = "active";
      } in
      elim (Bool-cases (exists_where is_admin db.users)) [
        | inl e ↦ rw e has
        | inr e ↦ elim (Bool-cases (exists_where (has_email email) db.users)) [
          | inl taken ↦ rw (e, taken) has
          | inr free ↦ rw (e, free) (one_more new (λ admin. refl))
        ]
      ]
