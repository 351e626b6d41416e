-- ===== src/Billing/ControlPlane/Synced.antt =====
-- billing/control_plane.py, `_sync_tenant`: which consumer a key is left with.
use geocoder_fwd.Prelude.{
  ℕ, ◌≤◌, ◌≡◌, ◌⊎◌, refl, Bool, true, false, Option, none, some, String, str_eq, Dict, All, All-map,
  length, ltb, arith, Bool-cases, Option-cases, inl, inr,
}
use geocoder_fwd.Billing.Accounts.{TenantRow, Key, Plan, Db, ok}
use geocoder_fwd.Billing.Accounts.Tenants.{get_tenant, tenant_with_plan}
use geocoder_fwd.Billing.Accounts.Keys.{list_keys}
use geocoder_fwd.Billing.Weights.{projected_request_cap}
use geocoder_fwd.Billing.ControlPlane.{
  Apisix, Consumer, ensure_consumer_group, quota_of, hard_cap_of, rps_of, group_for, in_group_of,
  wanted, wanted_from, sync_calls, sync_tenant,
}
use geocoder_fwd.Billing.ControlPlane.Sync.{consumer_of, IsDistinct, sync_tenant-wanted}

module _ (decrypt : String → String) (weights : Dict ℕ) where
  -- A consumer is in its tenant's group if the plan limits the requests of a month, of which there are
  -- `cap`, or of a second.
  abbrev IsGroupOf : String → Bool → ℕ → ℕ → Option String → Type 0
  IsGroupOf tenant_id hard_cap cap rps group =
      ((((hard_cap ≡ true) × (1 ≤ cap)) ⊎ (1 ≤ rps)) × (group ≡ some tenant_id))
      ⊎ ((((hard_cap ≡ false) ⊎ (cap ≡ 0)) × (rps ≡ 0)) × (group ≡ none))

  abbrev IsGrouped : String → Option Plan → Option String → Type 0
  IsGrouped tenant_id plan =
      IsGroupOf tenant_id (hard_cap_of plan) (projected_request_cap weights (quota_of plan))
        (rps_of plan)

  -- What a key of the tenant is to have in APISIX.
  abbrev pub IsSynced : String → Option Plan → Key → Option Consumer → Type 0
  IsSynced tenant_id plan k found =
      ((str_eq k.status "active" ≡ false) × (found ≡ none))
      ⊎ (((k.key_enc ≡ none) × (found ≡ none))
          ⊎ ((str_eq k.status "active" ≡ true)
              × ((enc : String) × (group : Option String) × (k.key_enc ≡ some enc)
                  × IsGrouped tenant_id plan group
                  × (found
                      ≡ some (record { key_id = k.id; api_key = decrypt enc; group = group })))))

  ensure_consumer_group-IsGroupOf :
      (tenant_id : String) (hard_cap : Bool) (cap rps : ℕ)
      → IsGroupOf tenant_id hard_cap cap rps (
          in_group_of decrypt weights
            (ensure_consumer_group tenant_id cap hard_cap rps).0
            tenant_id)
  unfolding ensure_consumer_group
  ensure_consumer_group-IsGroupOf tenant_id false cap rps = elim (Bool-cases (ltb 0 rps)) [
    | inl e ↦ rw e (inl (inr (ground (arith, e)), refl))
    | inr e ↦ rw e (inr ((inl refl, ground (arith, e)), refl))
  ]
  ensure_consumer_group-IsGroupOf tenant_id true cap rps = elim (Bool-cases (ltb 0 cap)) [
    | inl e ↦ rw e (inl (inl (refl, ground (arith, e)), refl))
    | inr e ↦ elim (Bool-cases (ltb 0 rps)) [
      | inl f ↦ rw (e, f) (inl (inr (ground (arith, f)), refl))
      | inr f ↦ rw (e, f) (inr ((inr (ground (arith, e)), ground (arith, f)), refl))
    ]
  ]

  wanted-IsSynced :
      (tenant_id : String) (plan : Option Plan) (k : Key)
      → IsSynced tenant_id plan k
          (wanted decrypt weights (group_for decrypt weights tenant_id plan).0 tenant_id k)
  wanted-IsSynced tenant_id plan k = elim (Bool-cases (str_eq k.status "active")) [
    | inr e ↦ elim (Option-cases k.key_enc) [
      | inl f ↦ rw (f, wanted_from) (inl (e, refl))
      | inr (enc, f) ↦ rw (f, wanted_from) (rw (e, wanted_from) (inl (refl, refl)))
    ]
    | inl e ↦ elim (Option-cases k.key_enc) [
      | inl f ↦ rw (f, wanted_from) (inr (inl (refl, refl)))
      | inr (enc, f) ↦
          rw (f, wanted_from)
            (rw (e, wanted_from)
              (inr (
                inr (
                  refl,
                  (
                    enc,
                    in_group_of decrypt weights (group_for decrypt weights tenant_id plan).0
                        tenant_id,
                    refl,
                    ensure_consumer_group-IsGroupOf tenant_id (hard_cap_of plan)
                        (projected_request_cap weights (quota_of plan)) (rps_of plan),
                    refl,
                  ),
                ))))
    ]
  ]

  -- When every call of `_sync_tenant` for an active tenant reaches APISIX, each of the tenant's keys that
  -- is not deleted is left with no consumer if it is not active or its text is not stored, and otherwise
  -- with one that has its decrypted text and is in the tenant's group exactly if the plan has a hard quota
  -- that allows at least one request, or a limit per second.
  pub sync_tenant-consumer_of :
      (tenant_id : String) (db : Db) (a : Apisix) (t : TenantRow) (plan : Option Plan)
      → get_tenant tenant_id true db ≡ ok t
      → str_eq t.status "active" ≡ true
      → tenant_with_plan tenant_id db ≡ ok plan
      → IsDistinct decrypt weights (list_keys tenant_id db)
      → All
          (λ (k : Key). IsSynced tenant_id plan k (
            consumer_of k.id (
              sync_tenant decrypt weights
                (length (sync_calls decrypt weights tenant_id db))
                tenant_id
                db
                a)))
          (list_keys tenant_id db)
  sync_tenant-consumer_of tenant_id db a t plan found active planned distinct =
      let after =
        sync_tenant decrypt weights (length (sync_calls decrypt weights tenant_id db)) tenant_id db
          a in
      All-map
        (λ (k : Key).
          consumer_of k.id after
          ≡ wanted decrypt weights (group_for decrypt weights tenant_id plan).0 tenant_id k)
        (λ (k : Key). IsSynced tenant_id plan k (consumer_of k.id after))
        (λ (k : Key) e. rw e (wanted-IsSynced tenant_id plan k)) (list_keys tenant_id db)
        (sync_tenant-wanted decrypt weights tenant_id db a t plan found active planned distinct)
