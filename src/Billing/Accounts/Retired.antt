-- ===== src/Billing/Accounts/Retired.antt =====
-- billing/repo.py: what calls on tenants and keys do to a deleted tenant.
pub mod Refused
use geocoder_fwd.Prelude.{
  ℕ, ◌≡◌, refl, Bool, true, false, not, ◌&&◌, Option, none, some, List, [], ◌∷◌, String, str_eq,
  eq_iff, if◌then◌else◌, Bool-cases, Option-cases, inl, inr, All, All-append, find_where,
  update_where, exists_where, update_where-All, find_where-All, exists_where-update_where,
  exists_where-append, exists_where_mono, update_where-every, arith,
}
use mathlib.Core.Path.{sym, ap, ◌∙◌}
use geocoder_fwd.Billing.Gateway.{Info, refusal}
use geocoder_fwd.Billing.Accounts.{TenantRow, Key, Plan, Db, Reply, ok, User}
use geocoder_fwd.Billing.Accounts.Users.{has_email}
use geocoder_fwd.Billing.Accounts.Tenants.{
  has_id, live_tenant, has_plan_id, known_plan, create_tenant, TenantFields, set_fields, no_fields,
  is_given, update_tenant, delete_tenant, soft_delete_tenant, tenant_with_plan,
}
use geocoder_fwd.Billing.Accounts.Keys.{
  has_key_id, live_named, key_name_taken, NewKey, new_row, insert_key, create_key, KeyFields,
  update_key, live_key, clashes, is_taken, has_hash, info_of, with_plan, resolve_found,
  soft_delete_key, get_key_by_hash, resolve_key,
}

pub data AccountOp : Type 0 where
  new_tenant : String → String → Option String → String → String → String → AccountOp
  change_tenant : String → TenantFields → AccountOp
  drop_tenant : String → AccountOp
  new_key : NewKey → String → String → List String → AccountOp
  change_key : String → String → KeyFields → AccountOp
  drop_key : String → String → AccountOp

unfoldable pub account : AccountOp → Db → Db
account (new_tenant id name contact plan email hash) db =
    (create_tenant id name contact plan email hash db).1
account (change_tenant tenant_id fields) db = (update_tenant tenant_id fields db).1
account (drop_tenant tenant_id) db = (soft_delete_tenant tenant_id db).1
account (new_key new tenant_id name scopes) db = (create_key new tenant_id name scopes db).1
account (change_key key_id tenant_id fields) db = (update_key key_id tenant_id fields db).1
account (drop_key key_id tenant_id) db = (soft_delete_key key_id tenant_id db).1

unfoldable pub account_all : List AccountOp → Db → Db
account_all [] db = db
account_all (op ∷ ops) db = account_all ops (account op db)

-- A row for this tenant is marked deleted.
abbrev pub IsGone : String → TenantRow → Type 0
IsGone tenant_id t = has_id tenant_id t ≡ true → str_eq t.status "deleted" ≡ true

abbrev pub IsRetired : String → List TenantRow → Type 0
IsRetired tenant_id tenants =
    All (IsGone tenant_id) tenants × (exists_where (has_id tenant_id) tenants ≡ true)

not-not : (b : Bool) → not b ≡ false → b ≡ true
not-not b h = elim (Bool-cases b) [ inl e ↦ e | inr e ↦ let no : true ≡ false = rw e at h in cc ]

not_live :
    (other : String) (t : TenantRow)
    → str_eq t.status "deleted" ≡ true
    → live_tenant other t ≡ false
not_live other t deleted =
    rw deleted (elim (Bool-cases (has_id other t)) [ inl e ↦ rw e refl | inr e ↦ rw e refl ])

module _ (tenant_id : String) where
  -- An update of live tenants does not revive a deleted one.
  update_tenants-IsRetired :
      (other : String) (f : TenantRow → TenantRow) (tenants : List TenantRow)
      → ((t : TenantRow) → has_id tenant_id (f t) ≡ has_id tenant_id t)
      → IsRetired tenant_id tenants
      → IsRetired tenant_id (update_where (live_tenant other) f tenants)
  update_tenants-IsRetired other f tenants h (gone, there) = (
    update_where-All (IsGone tenant_id) (IsGone tenant_id) (live_tenant other) f tenants
        (λ t was. elim (Bool-cases (live_tenant other t)) [
          | inl e ↦ rw e (λ here.
              let deleted : str_eq t.status "deleted" ≡ true = was (rw (h t) at here) in
              let no : false ≡ true = rw (not_live other t deleted) at e in cc)
          | inr e ↦ rw e was
        ])
        gone,
    rw (exists_where-update_where (has_id tenant_id) (live_tenant other) f tenants h) there,
  )

  -- The database does not give out the id again.
  create_tenant-IsRetired :
      (id name : String) (contact : Option String) (plan email hash : String) (db : Db)
      → IsRetired tenant_id db.tenants
      → IsRetired tenant_id (create_tenant id name contact plan email hash db).1.tenants
  unfolding create_tenant
  create_tenant-IsRetired id name contact plan email hash db h =
      elim (Bool-cases (exists_where (has_plan_id plan) db.plans)) [
        | inr e ↦ rw e h
        | inl e ↦ elim (Bool-cases (exists_where (has_email email) db.users)) [
          | inl taken ↦ rw (e, taken) h
          | inr free ↦ elim (Bool-cases (exists_where (has_id id) db.tenants)) [
            | inl again ↦ rw (e, free, again) h
            | inr fresh ↦
                rw (e, free, fresh)
                  (
                    All-append (IsGone tenant_id) db.tenants _ h.0 (
                      (λ here.
                          let same : id ≡ tenant_id = ground (arith, eq_iff id tenant_id, here) in
                          let no : false ≡ true =
                            sym fresh ∙ (ap (λ x. exists_where (has_id x) db.tenants) same ∙ h.1) in
                          cc),
                      tt,
                    ),
                    exists_where-append (has_id tenant_id) db.tenants _ h.1,
                  )
          ]
        ]
      ]

  update_tenant-IsRetired :
      (other : String) (fields : TenantFields) (db : Db)
      → IsRetired tenant_id db.tenants
      → IsRetired tenant_id (update_tenant other fields db).1.tenants
  unfolding update_tenant
  update_tenant-IsRetired other fields db h = elim (Bool-cases (no_fields fields)) [
    | inl e ↦ rw e h
    | inr e ↦ elim (Bool-cases (exists_where (live_tenant other) db.tenants)) [
      | inr none_live ↦ rw (e, none_live) h
      | inl live ↦ elim (Bool-cases (known_plan fields.plan_id db)) [
        | inr unknown ↦ rw (e, live, unknown) h
        | inl known ↦
            rw (e, live, known)
              (update_tenants-IsRetired other (set_fields fields) db.tenants (λ t. refl) h)
      ]
    ]
  ]

  soft_delete_tenant-IsRetired :
      (other : String) (db : Db)
      → IsRetired tenant_id db.tenants
      → IsRetired tenant_id (soft_delete_tenant other db).1.tenants
  unfolding soft_delete_tenant
  soft_delete_tenant-IsRetired other db h =
      elim (Bool-cases (exists_where (live_tenant other) db.tenants)) [
        | inr e ↦ rw e h
        | inl e ↦ rw e (update_tenants-IsRetired other delete_tenant db.tenants (λ t. refl) h)
      ]

  insert_key-IsRetired :
      (row : Key) (db : Db)
      → IsRetired tenant_id db.tenants
      → IsRetired tenant_id (insert_key row db).1.tenants
  unfolding insert_key
  insert_key-IsRetired row db h = elim (Bool-cases (is_taken row db)) [
    | inl e ↦ rw e h
    | inr e ↦ elim (Bool-cases (exists_where (has_id row.tenant_id) db.tenants)) [
      | inl known ↦ rw (e, known) h
      | inr unknown ↦ rw (e, unknown) h
    ]
  ]

  create_key-IsRetired :
      (new : NewKey) (other name : String) (scopes : List String) (db : Db)
      → IsRetired tenant_id db.tenants
      → IsRetired tenant_id (create_key new other name scopes db).1.tenants
  unfolding create_key
  create_key-IsRetired new other name scopes db h =
      elim (Bool-cases (key_name_taken other name none db)) [
        | inl e ↦ rw e h
        | inr e ↦ rw e (insert_key-IsRetired (new_row new other name scopes) db h)
      ]

  update_key-IsRetired :
      (key_id other : String) (fields : KeyFields) (db : Db)
      → IsRetired tenant_id db.tenants
      → IsRetired tenant_id (update_key key_id other fields db).1.tenants
  unfolding update_key
  update_key-IsRetired key_id other fields db h =
      elim (Bool-cases (clashes fields.name key_id other db)) [
        | inl e ↦ rw e h
        | inr e ↦ elim (Bool-cases (not (is_given fields.name) && not (is_given fields.status))) [
          | inl empty ↦ rw (e, empty) h
          | inr some_fields ↦ elim (Bool-cases (exists_where (live_key key_id other) db.keys)) [
            | inl live ↦ rw (e, some_fields, live) h
            | inr dead ↦ rw (e, some_fields, dead) h
          ]
        ]
      ]

  soft_delete_key-IsRetired :
      (key_id other : String) (db : Db)
      → IsRetired tenant_id db.tenants
      → IsRetired tenant_id (soft_delete_key key_id other db).1.tenants
  unfolding soft_delete_key
  soft_delete_key-IsRetired key_id other db h =
      elim (Bool-cases (exists_where (live_key key_id other) db.keys)) [
        | inr e ↦ rw e h
        | inl e ↦ rw e h
      ]

  account-IsRetired :
      (op : AccountOp) (db : Db)
      → IsRetired tenant_id db.tenants
      → IsRetired tenant_id (account op db).tenants
  unfolding account
  account-IsRetired (new_tenant id name contact plan email hash) db h =
      create_tenant-IsRetired id name contact plan email hash db h
  account-IsRetired (change_tenant other fields) db h = update_tenant-IsRetired other fields db h
  account-IsRetired (drop_tenant other) db h = soft_delete_tenant-IsRetired other db h
  account-IsRetired (new_key new other name scopes) db h =
      create_key-IsRetired new other name scopes db h
  account-IsRetired (change_key key_id other fields) db h =
      update_key-IsRetired key_id other fields db h
  account-IsRetired (drop_key key_id other) db h = soft_delete_key-IsRetired key_id other db h

  pub account_all-IsRetired :
      (ops : List AccountOp) (db : Db)
      → IsRetired tenant_id db.tenants
      → IsRetired tenant_id (account_all ops db).tenants
  unfolding account_all
  account_all-IsRetired [] db h = h
  account_all-IsRetired (op ∷ ops) db h =
      account_all-IsRetired ops (account op db) (account-IsRetired op db h)

  -- A tenant that was deleted has retired.
  pub deleted-IsRetired :
      (db : Db) (emails : List String)
      → (soft_delete_tenant tenant_id db).0 ≡ ok emails
      → IsRetired tenant_id (soft_delete_tenant tenant_id db).1.tenants
  unfolding soft_delete_tenant
  deleted-IsRetired db emails h =
      elim (Bool-cases (exists_where (live_tenant tenant_id) db.tenants)) [
        | inr e ↦ let no : Reply.not_found ≡ ok emails = rw e at h in cc
        | inl e ↦ rw e (
          update_where-every (IsGone tenant_id) (live_tenant tenant_id) delete_tenant db.tenants
              (λ t. elim (Bool-cases (live_tenant tenant_id t)) [
                | inl live ↦ rw live (λ here. refl)
                | inr dead ↦ rw dead (λ here. not-not (str_eq t.status "deleted") (rw here at dead))
              ]),
          rw
              (exists_where-update_where (has_id tenant_id) (live_tenant tenant_id) delete_tenant
                db.tenants (λ t. refl))
              (exists_where_mono (live_tenant tenant_id) (has_id tenant_id) db.tenants
                (λ t live. elim (Bool-cases (has_id tenant_id t)) [
                  | inl here ↦ here
                  | inr away ↦ let no : false ≡ true = rw away at live in cc
                ])
                e),
        )
      ]
