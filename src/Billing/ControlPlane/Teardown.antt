-- ===== src/Billing/ControlPlane/Teardown.antt =====
-- billing/control_plane.py, `delete_tenant`: what is left of the tenant in APISIX.
use geocoder_fwd.Prelude.{
  ℕ, suc, zero, ◌≡◌, refl, sym, Bool, true, false, not, ◌&&◌, Option, List, [], ◌∷◌, String, str_eq,
  Dict, take, ltb, ◌||◌, update_where, delete_where, exists_where, All, Bool-cases, inl, inr,
}
use mathlib.Core.Path.{subst}
use geocoder_fwd.Billing.Weights.{projected_request_cap}
use geocoder_fwd.Billing.Accounts.{TenantRow, Key, Plan, Db, Reply, ok}
use geocoder_fwd.Billing.Accounts.Tenants.{
  get_tenant, tenant_with_plan, soft_delete_tenant, live_tenant, live_key_of, delete_key,
}
use geocoder_fwd.Billing.Accounts.Keys.{list_keys}
use geocoder_fwd.Billing.ControlPlane.{
  Apisix, ApisixCall, quota_of, hard_cap_of, rps_of, ensure_consumer_group, inactive_calls,
  calls_with, calls_for, sync_calls, sync_tenant,
}
use geocoder_fwd.Billing.ControlPlane.Sync.{consumer_of, IsOther, call_all-consumer_of}

-- No key is listed once all have been marked deleted.
none_listed :
    (tenant_id : String) (keys : List Key)
    → delete_where
        (λ k. not (live_key_of tenant_id k))
        (update_where (live_key_of tenant_id) delete_key keys)
      ≡ []
none_listed tenant_id [] = refl
none_listed tenant_id (k ∷ keys) = elim (Bool-cases (live_key_of tenant_id k)) [
  | inl e ↦
      let gone : live_key_of tenant_id (delete_key k) ≡ false =
        elim (Bool-cases (str_eq k.tenant_id tenant_id)) [
          | inl f ↦ rw f refl
          | inr f ↦ rw f refl
        ] in
      rw e (rw gone (none_listed tenant_id keys))
  | inr e ↦ rw e (rw e (none_listed tenant_id keys))
]

soft_delete_tenant-list_keys :
    (tenant_id : String) (db : Db) (emails : List String)
    → (soft_delete_tenant tenant_id db).0 ≡ ok emails
    → list_keys tenant_id (soft_delete_tenant tenant_id db).1 ≡ []
unfolding soft_delete_tenant list_keys
soft_delete_tenant-list_keys tenant_id db emails h =
    elim (Bool-cases (exists_where (live_tenant tenant_id) db.tenants)) [
      | inr e ↦ let no : Reply.not_found ≡ ok emails = rw e at h in cc
      | inl e ↦ rw e (none_listed tenant_id db.keys)
    ]

module _ (decrypt : String → String) (weights : Dict ℕ) where
  -- The calls for a tenant without keys touch no consumer.
  group_call-IsOther :
      (key_id tenant_id : String) (quota : ℕ) (hard_cap : Bool) (rps : ℕ)
      → IsOther key_id (ensure_consumer_group tenant_id quota hard_cap rps).1
  unfolding ensure_consumer_group
  group_call-IsOther key_id tenant_id quota hard_cap rps =
      elim (Bool-cases (hard_cap && ltb 0 quota || ltb 0 rps)) [ inl e ↦ rw e tt | inr e ↦ rw e tt ]

  planned-IsOther :
      (key_id tenant_id : String) (r : Reply (Option Plan))
      → All (IsOther key_id) (calls_with decrypt weights tenant_id [] r)
  planned-IsOther key_id tenant_id (ok plan) =
      let cap = projected_request_cap weights (quota_of plan) in
      (group_call-IsOther key_id tenant_id cap (hard_cap_of plan) (rps_of plan), tt)
  planned-IsOther key_id tenant_id Reply.not_found = tt
  planned-IsOther key_id tenant_id Reply.conflict = tt
  planned-IsOther key_id tenant_id (Reply.in_use n) = tt
  planned-IsOther key_id tenant_id Reply.violated = tt

  keyless-IsOther :
      (key_id tenant_id : String) (db : Db) (found : Reply TenantRow)
      → list_keys tenant_id db ≡ []
      → All (IsOther key_id) (calls_for decrypt weights tenant_id db found)
  keyless-IsOther key_id tenant_id db (ok t) h = elim (Bool-cases (str_eq t.status "active")) [
    | inl e ↦
        rw (e, All)
          (subst
            (λ (ks : List Key).
              All (IsOther key_id)
                (calls_with decrypt weights tenant_id ks (tenant_with_plan tenant_id db)))
            (sym h) (planned-IsOther key_id tenant_id (tenant_with_plan tenant_id db)))
    | inr e ↦
        rw (e, All)
          (subst
            (λ (ks : List Key). All (IsOther key_id) (inactive_calls decrypt weights tenant_id ks))
            (sym h) (tt, tt))
  ]
  keyless-IsOther key_id tenant_id db Reply.not_found h = tt
  keyless-IsOther key_id tenant_id db Reply.conflict h = tt
  keyless-IsOther key_id tenant_id db (Reply.in_use n) h = tt
  keyless-IsOther key_id tenant_id db Reply.violated h = tt

  All-take :
      (key_id : String) (n : ℕ) (calls : List ApisixCall)
      → All (IsOther key_id) calls
      → All (IsOther key_id) (take n calls)
  All-take key_id zero calls all = tt
  All-take key_id (suc n) [] all = tt
  All-take key_id (suc n) (c ∷ calls) (away, all) = (away, All-take key_id n calls all)

  -- After a tenant has been deleted, `_sync_tenant`, which is to tear down its consumers, leaves every
  -- consumer of APISIX as it was, however many of its calls succeed: the keys are marked deleted by then, and
  -- a deleted key is not listed.
  pub soft_delete_tenant-sync_tenant :
      (tenant_id : String) (db : Db) (emails : List String) (reached : ℕ) (a : Apisix)
      (key_id : String)
      → (soft_delete_tenant tenant_id db).0 ≡ ok emails
      → consumer_of key_id
          (sync_tenant decrypt weights reached tenant_id (soft_delete_tenant tenant_id db).1 a)
        ≡ consumer_of key_id a
  unfolding sync_tenant sync_calls
  soft_delete_tenant-sync_tenant tenant_id db emails reached a key_id h =
      let after : Db = (soft_delete_tenant tenant_id db).1 in
      let calls = calls_for decrypt weights tenant_id after (get_tenant tenant_id true after) in
      call_all-consumer_of key_id (take reached calls) a (
        All-take key_id reached calls (
          keyless-IsOther key_id tenant_id after (get_tenant tenant_id true after)
            (soft_delete_tenant-list_keys tenant_id db emails h)))
