-- ===== src/Billing/Accounts/Retired/Refused.antt =====
-- billing/gateway.py: what the gateway says to the keys of a deleted tenant.
use geocoder_fwd.Prelude.{
  ℕ, ◌≡◌, refl, true, false, Option, none, some, List, String, str_eq, eq_iff, Bool-cases,
  Option-cases, inl, inr, find_where, find_where-All, arith,
}
use mathlib.Core.Path.{sym, ap, ◌∙◌}
use geocoder_fwd.Billing.Gateway.{Info, refusal}
use geocoder_fwd.Billing.Accounts.{TenantRow, Key, Plan, Db, Reply, ok}
use geocoder_fwd.Billing.Accounts.Tenants.{has_id, soft_delete_tenant, tenant_with_plan}
use geocoder_fwd.Billing.Accounts.Keys.{
  has_hash, info_of, with_plan, resolve_found, get_key_by_hash, resolve_key,
}
use geocoder_fwd.Billing.Accounts.Retired.{
  AccountOp, account_all, IsGone, IsRetired, account_all-IsRetired, deleted-IsRetired,
}

-- The record of a key names its tenant.
with_plan-tenant_id :
    (k : Key) (status : String) (r : Reply (Option Plan)) (info : Info)
    → with_plan k status r ≡ some (some info)
    → info.tenant_id ≡ k.tenant_id
with_plan-tenant_id k status (ok none) info h =
    let same : info_of k status none ≡ info = cc in sym (ap Info.tenant_id same)
with_plan-tenant_id k status (ok (some plan)) info h =
    let same : info_of k status (some plan) ≡ info = cc in sym (ap Info.tenant_id same)
with_plan-tenant_id k status Reply.not_found info h = cc
with_plan-tenant_id k status Reply.conflict info h = cc
with_plan-tenant_id k status (Reply.in_use n) info h = cc
with_plan-tenant_id k status Reply.violated info h = cc

found-deleted :
    (tenant_id : String) (k : Key) (t : TenantRow) (db : Db) (info : Info)
    → IsGone tenant_id t
    → has_id k.tenant_id t ≡ true
    → resolve_found db (some (k, t.status)) ≡ some (some info)
    → info.tenant_id ≡ tenant_id
    → info.tenant_status ≡ "deleted"
found-deleted tenant_id k t db info gone here h same =
    elim (Bool-cases (str_eq t.status "deleted")) [
      | inl e ↦
          let found : some (some (info_of k t.status none)) ≡ some (some info) = rw e at h in
          let eq : info_of k t.status none ≡ info = cc in
          let status : t.status ≡ "deleted" = ground (arith, eq_iff t.status "deleted", e) in
          sym (ap Info.tenant_status eq) ∙ status
      | inr e ↦
          let found : with_plan k t.status (tenant_with_plan k.tenant_id db) ≡ some (some info) =
            rw e at h in
          let eq : k.tenant_id ≡ tenant_id =
            sym (with_plan-tenant_id k t.status (tenant_with_plan k.tenant_id db) info found)
            ∙ same in
          let no : false ≡ true = sym e ∙ gone (ap (λ x. has_id x t) (sym eq) ∙ here) in cc
    ]

resolve_key-deleted :
    (tenant_id key_hash : String) (db : Db) (info : Info)
    → IsRetired tenant_id db.tenants
    → resolve_key key_hash db ≡ some (some info)
    → info.tenant_id ≡ tenant_id
    → info.tenant_status ≡ "deleted"
unfolding resolve_key get_key_by_hash
resolve_key-deleted tenant_id key_hash db info (gone, there) h same =
    elim (Option-cases (find_where (has_hash key_hash) db.keys)) [
      | inl e ↦ let no : Option.none ≡ some (some info) = rw e at h in cc
      | inr (k, e) ↦ elim (Option-cases (find_where (has_id k.tenant_id) db.tenants)) [
        | inl f ↦ let no : Option.none ≡ some (some info) = rw (e, f) at h in cc
        | inr (t, f) ↦
            let (was, here) =
              find_where-All (IsGone tenant_id) (has_id k.tenant_id) db.tenants t gone f in
            found-deleted tenant_id k t db info was here (rw (e, f) at h) same
      ]
    ]

refusal-deleted :
    (info : Info) (endpoint : String)
    → info.tenant_status ≡ "deleted"
    → (status : ℕ) × (refusal info endpoint ≡ some status)
unfolding refusal
refusal-deleted info endpoint h = elim (Bool-cases (str_eq info.key_status "disabled")) [
  | inl e ↦ rw e (403, refl)
  | inr e ↦ elim (Bool-cases (str_eq info.key_status "active")) [
    | inr f ↦ rw (e, f) (401, refl)
    | inl f ↦ rw (e, f) (rw h (403, refl))
  ]
]

-- Once a tenant has been deleted, whatever calls on tenants and keys follow, the gateway refuses every
-- key whose record, read from the database, names that tenant.
pub soft_delete_tenant-refusal :
    (tenant_id : String) (db : Db) (emails : List String) (ops : List AccountOp)
    (key_hash endpoint : String) (info : Info)
    → (soft_delete_tenant tenant_id db).0 ≡ ok emails
    → resolve_key key_hash (account_all ops (soft_delete_tenant tenant_id db).1) ≡ some (some info)
    → info.tenant_id ≡ tenant_id
    → (status : ℕ) × (refusal info endpoint ≡ some status)
soft_delete_tenant-refusal tenant_id db emails ops key_hash endpoint info deleted found same =
    let after : Db = (soft_delete_tenant tenant_id db).1 in
    refusal-deleted info endpoint (
      resolve_key-deleted tenant_id key_hash (account_all ops after) info
        (account_all-IsRetired tenant_id ops after (deleted-IsRetired tenant_id db emails deleted))
        found same)
