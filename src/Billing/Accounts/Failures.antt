-- ===== src/Billing/Accounts/Failures.antt =====
-- billing/repo.py: the database after a call that raises.
use geocoder_fwd.Prelude.{
  ◌≡◌, refl, sym, ap, ◌∙◌, Bool, true, false, not, ◌&&◌, Option, none, some, List, [], ◌∷◌, String,
  str_eq, ◌==◌, Bool-cases, Option-cases, inl, inr, find_where, update_where, exists_where,
  exists_where-update_where, exists_where_mono,
}
use geocoder_fwd.Billing.Accounts.{User, Plan, Db, Reply, ok}
use geocoder_fwd.Billing.Accounts.Users.{
  has_email, insert_user, update_users, delete_users, other_active_admins, admin_with, set_status,
  set_admin_status, delete_admin,
}
use geocoder_fwd.Billing.Accounts.Tenants.{
  has_id, live_tenant, has_plan_id, known_plan, create_tenant, TenantFields, set_fields, no_fields,
  is_given, update_tenant, delete_key, live_key_of, soft_delete_tenant,
}
use geocoder_fwd.Billing.Accounts.Plans.{
  create_plan, PlanFields, set_plan_fields, no_plan_fields, update_plan, refers_to, delete_plan,
  with_plans,
}
use geocoder_fwd.Billing.Accounts.Keys.{
  has_key_id, key_name_taken, NewKey, new_row, insert_key, create_key, KeyFields, set_key_fields,
  update_key, live_key, clashes, is_taken, soft_delete_key,
}

abbrev pub failed : {A : Type 0} → Reply A → Bool
failed (ok a) = false
failed _ = true

abbrev pub IsRolledBack : {A : Type 0} → Db → Reply A × Db → Type 0
IsRolledBack db r = failed r.0 ≡ true → r.1 ≡ db

-- The row that an UPDATE has written is there.
find_where-none :
    {A : Type 0} (p : A → Bool) (rows : List A)
    → find_where p rows ≡ none
    → exists_where p rows ≡ false
find_where-none p [] h = refl
find_where-none p (r ∷ rows) h = elim (Bool-cases (p r)) [
  | inl e ↦ let no : Option.some r ≡ none = rw e at h in cc
  | inr e ↦ rw e (find_where-none p rows (rw e at h))
]

pub updated_row :
    {A : Type 0} (p q : A → Bool) (f : A → A) (rows : List A)
    → ((r : A) → q r ≡ true → p r ≡ true)
    → ((r : A) → p (f r) ≡ p r)
    → exists_where q rows ≡ true
    → (r : A) × (find_where p (update_where q f rows) ≡ some r)
updated_row p q f rows h kept there = elim (Option-cases (find_where p (update_where q f rows))) [
  | inr found ↦ found
  | inl e ↦
      let no : true ≡ false =
        sym (exists_where-update_where p q f rows kept ∙ exists_where_mono q p rows h there)
        ∙ find_where-none p (update_where q f rows) e in
      cc
]

update_where-none :
    {A : Type 0} (p : A → Bool) (f : A → A) (rows : List A)
    → exists_where p rows ≡ false
    → update_where p f rows ≡ rows
update_where-none p f [] h = refl
update_where-none p f (r ∷ rows) h = elim (Bool-cases (p r)) [
  | inl e ↦ let no : true ≡ false = rw e at h in cc
  | inr e ↦ rw e (ap (λ rest. r ∷ rest) (update_where-none p f rows (rw e at h)))
]

left-true : (a b : Bool) → (a && b) ≡ true → a ≡ true
left-true a b h = elim (Bool-cases a) [
  | inl e ↦ e
  | inr e ↦ let no : false ≡ true = rw e at h in cc
]

pub insert_user-IsRolledBack : (new : User) (db : Db) → IsRolledBack db (insert_user new db)
unfolding insert_user
insert_user-IsRolledBack new db = elim (Bool-cases (exists_where (has_email new.email) db.users)) [
  | inl e ↦ rw e (λ _. refl)
  | inr e ↦ rw e (λ no. cc)
]

pub update_users-IsRolledBack :
    (p : User → Bool) (f : User → User) (db : Db) → IsRolledBack db (update_users p f db)
unfolding update_users
update_users-IsRolledBack p f db = elim (Bool-cases (exists_where p db.users)) [
  | inl e ↦ rw e (λ no. cc)
  | inr e ↦ rw e (λ _. refl)
]

pub delete_users-IsRolledBack : (p : User → Bool) (db : Db) → IsRolledBack db (delete_users p db)
unfolding delete_users
delete_users-IsRolledBack p db = elim (Bool-cases (exists_where p db.users)) [
  | inl e ↦ rw e (λ no. cc)
  | inr e ↦ rw e (λ _. refl)
]

pub set_admin_status-IsRolledBack :
    (email status : String) (db : Db) → IsRolledBack db (set_admin_status email status db)
unfolding set_admin_status
set_admin_status-IsRolledBack email status db =
    elim (Bool-cases (str_eq status "disabled" && (other_active_admins email db == 0))) [
      | inl e ↦ rw e (λ _. refl)
      | inr e ↦ rw e (update_users-IsRolledBack (admin_with email) (set_status status) db)
    ]

pub delete_admin-IsRolledBack : (email : String) (db : Db) → IsRolledBack db (delete_admin email db)
unfolding delete_admin
delete_admin-IsRolledBack email db = elim (Bool-cases (other_active_admins email db == 0)) [
  | inl e ↦ rw e (λ _. refl)
  | inr e ↦ rw e (delete_users-IsRolledBack (admin_with email) db)
]

pub create_tenant-IsRolledBack :
    (new_id name : String) (contact : Option String) (plan_id email hash : String) (db : Db)
    → IsRolledBack db (create_tenant new_id name contact plan_id email hash db)
unfolding create_tenant
create_tenant-IsRolledBack new_id name contact plan_id email hash db =
    elim (Bool-cases (exists_where (has_plan_id plan_id) db.plans)) [
      | inr e ↦ rw e (λ _. refl)
      | inl e ↦ elim (Bool-cases (exists_where (has_email email) db.users)) [
        | inl f ↦ rw (e, f) (λ _. refl)
        | inr f ↦ elim (Bool-cases (exists_where (has_id new_id) db.tenants)) [
          | inl g ↦ rw (e, f, g) (λ _. refl)
          | inr g ↦ rw (e, f, g) (λ no. cc)
        ]
      ]
    ]

pub update_tenant-IsRolledBack :
    (tenant_id : String) (fields : TenantFields) (db : Db)
    → IsRolledBack db (update_tenant tenant_id fields db)
unfolding update_tenant
update_tenant-IsRolledBack tenant_id fields db = elim (Bool-cases (no_fields fields)) [
  | inl e ↦ rw e (λ _. refl)
  | inr e ↦ elim (Bool-cases (exists_where (live_tenant tenant_id) db.tenants)) [
    | inr f ↦ rw (e, f) (λ _. refl)
    | inl f ↦ elim (Bool-cases (known_plan fields.plan_id db)) [
      | inr g ↦ rw (e, f, g) (λ _. refl)
      | inl g ↦
          let (t, found) =
            updated_row (has_id tenant_id) (live_tenant tenant_id) (set_fields fields) db.tenants
              (λ r h. left-true (has_id tenant_id r) (not (str_eq r.status "deleted")) h)
              (λ _. refl) f in
          rw (e, f, g) (rw found (λ no. cc))
    ]
  ]
]

pub soft_delete_tenant-IsRolledBack :
    (tenant_id : String) (db : Db) → IsRolledBack db (soft_delete_tenant tenant_id db)
unfolding soft_delete_tenant
soft_delete_tenant-IsRolledBack tenant_id db =
    elim (Bool-cases (exists_where (live_tenant tenant_id) db.tenants)) [
      | inl e ↦ rw e (λ no. cc)
      | inr e ↦ rw e (λ _. refl)
    ]

pub create_plan-IsRolledBack : (plan : Plan) (db : Db) → IsRolledBack db (create_plan plan db)
unfolding create_plan
create_plan-IsRolledBack plan db = elim (Bool-cases (exists_where (has_plan_id plan.id) db.plans)) [
  | inl e ↦ rw e (λ _. refl)
  | inr e ↦ rw e (λ no. cc)
]

pub update_plan-IsRolledBack :
    (plan_id : String) (fields : PlanFields) (db : Db)
    → IsRolledBack db (update_plan plan_id fields db)
unfolding update_plan
update_plan-IsRolledBack plan_id fields db = elim (Bool-cases (no_plan_fields fields)) [
  | inl e ↦ rw e (λ _. refl)
  | inr e ↦ elim (Bool-cases (exists_where (has_plan_id plan_id) db.plans)) [
    | inl f ↦
        let (p, found) =
          updated_row (has_plan_id plan_id) (has_plan_id plan_id) (set_plan_fields fields) db.plans
            (λ r h. h) (λ _. refl) f in
        rw e (rw found (λ no. cc))
    | inr f ↦ rw e (λ _.
        ap (with_plans db)
          (update_where-none (has_plan_id plan_id) (set_plan_fields fields) db.plans f))
  ]
]

pub delete_plan-IsRolledBack :
    (plan_id : String) (db : Db) → IsRolledBack db (delete_plan plan_id db)
unfolding delete_plan
delete_plan-IsRolledBack plan_id db =
    elim (Bool-cases (exists_where (has_plan_id plan_id) db.plans)) [
      | inr e ↦ rw e (λ _. refl)
      | inl e ↦ elim (Bool-cases (exists_where (refers_to plan_id) db.tenants)) [
        | inl f ↦ rw (e, f) (λ _. refl)
        | inr f ↦ rw (e, f) (λ no. cc)
      ]
    ]

pub create_key-IsRolledBack :
    (new : NewKey) (tenant_id name : String) (scopes : List String) (db : Db)
    → IsRolledBack db (create_key new tenant_id name scopes db)
unfolding create_key insert_key
create_key-IsRolledBack new tenant_id name scopes db =
    elim (Bool-cases (key_name_taken tenant_id name none db)) [
      | inl e ↦ rw e (λ _. refl)
      | inr e ↦ elim (Bool-cases (is_taken (new_row new tenant_id name scopes) db)) [
        | inl f ↦ rw (e, f) (λ _. refl)
        | inr f ↦ elim (Bool-cases (exists_where (has_id tenant_id) db.tenants)) [
          | inl g ↦ rw (e, f, g) (λ no. cc)
          | inr g ↦ rw (e, f, g) (λ _. refl)
        ]
      ]
    ]

pub update_key-IsRolledBack :
    (key_id tenant_id : String) (fields : KeyFields) (db : Db)
    → IsRolledBack db (update_key key_id tenant_id fields db)
unfolding update_key
update_key-IsRolledBack key_id tenant_id fields db =
    elim (Bool-cases (clashes fields.name key_id tenant_id db)) [
      | inl e ↦ rw e (λ _. refl)
      | inr e ↦ elim (Bool-cases (not (is_given fields.name) && not (is_given fields.status))) [
        | inl f ↦ rw (e, f) (λ _. refl)
        | inr f ↦ elim (Bool-cases (exists_where (live_key key_id tenant_id) db.keys)) [
          | inr g ↦ rw (e, f, g) (λ _. refl)
          | inl g ↦
              let (k, found) =
                updated_row (has_key_id key_id) (live_key key_id tenant_id) (set_key_fields fields)
                  db.keys (λ r h. left-true (has_key_id key_id r) (live_key_of tenant_id r) h)
                  (λ _. refl) g in
              rw (e, f, g) (rw found (λ no. cc))
        ]
      ]
    ]

pub soft_delete_key-IsRolledBack :
    (key_id tenant_id : String) (db : Db) → IsRolledBack db (soft_delete_key key_id tenant_id db)
unfolding soft_delete_key
soft_delete_key-IsRolledBack key_id tenant_id db =
    elim (Bool-cases (exists_where (live_key key_id tenant_id) db.keys)) [
      | inr g ↦ rw g (λ _. refl)
      | inl g ↦
          let (k, found) =
            updated_row (has_key_id key_id) (live_key key_id tenant_id) delete_key db.keys
              (λ r h. left-true (has_key_id key_id r) (live_key_of tenant_id r) h) (λ _. refl) g in
          rw g (rw found (λ no. cc))
    ]
