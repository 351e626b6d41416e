-- ===== src/Billing/ControlPlane/Handlers/Refused.antt =====
-- billing/control_plane.py, `delete_tenant`, and `_resolve_key` of billing/gateway.py: what the gateway
-- says to a deleted tenant's keys, which it may have in its cache.
use geocoder_fwd.Prelude.{
  ℕ, ◌≡◌, refl, sym, ap, ◌∙◌, Bool, true, false, not, Option, none, some, List, [], ◌∷◌, String,
  str_eq, eq_iff, contains, Bool-cases, inl, inr, arith, map, delete_where, update_where,
  exists_where,
}
use geocoder_fwd.Billing.Gateway.{Info, refusal}
use geocoder_fwd.Billing.Accounts.{Key, Db, Reply, ok}
use geocoder_fwd.Billing.Accounts.Tenants.{live_tenant, live_key_of, delete_key, soft_delete_tenant}
use geocoder_fwd.Billing.Accounts.Keys.{list_key_hashes, resolve_key}
use geocoder_fwd.Billing.Accounts.Retired.{account_all}
use geocoder_fwd.Billing.Accounts.Retired.Refused.{soft_delete_tenant-refusal}
use geocoder_fwd.Billing.ControlPlane.{
  Cache, invalidate_key, invalidate_all, invalidate_tenant_cache,
}
use geocoder_fwd.Billing.ControlPlane.Handlers.{
  Services, World, answered, identified, done, then_idp, idp_cleanup, synced, invalidated,
  remove_tenant,
}

-- The cached record, else that of the database.
abbrev pub cached_or : Option Info → Option (Option Info) → Option (Option Info)
cached_or none stored = stored
cached_or (some info) stored = some (some info)

unfoldable pub resolve_cached : String → Db → Cache → Option (Option Info)
unfolding resolve_key
resolve_cached key_hash db cache = cached_or (cache key_hash) (resolve_key key_hash db)

-- What is not in the cache does not come into it, and what is dropped is not in it.
stays_out :
    (hashes : List String) (cache : Cache) (h : String)
    → cache h ≡ none
    → invalidate_all hashes cache h ≡ none
stays_out [] cache h out = out
stays_out (x ∷ hashes) cache h out =
    stays_out hashes (invalidate_key x cache) h
      (elim (Bool-cases (str_eq h x)) [ inl e ↦ rw e refl | inr e ↦ rw e out ])

dropped :
    (hashes : List String) (cache : Cache) (h : String)
    → contains h hashes ≡ true
    → invalidate_all hashes cache h ≡ none
dropped [] cache h there = cc
dropped (x ∷ hashes) cache h there = elim (Bool-cases (str_eq x h)) [
  | inl e ↦
      let back : str_eq h x ≡ true = ground (arith, eq_iff x h, eq_iff h x, e) in
      stays_out hashes (invalidate_key x cache) h (rw back refl)
  | inr e ↦ dropped hashes (invalidate_key x cache) h (rw e at there)
]

hashes_kept :
    (q p : Key → Bool) (keys : List Key)
    → ((k : Key) → q (delete_key k) ≡ q k)
    → map Key.key_hash (delete_where q (update_where p delete_key keys))
      ≡ map Key.key_hash (delete_where q keys)
hashes_kept q p [] kept = refl
hashes_kept q p (k ∷ keys) kept =
    let rest = hashes_kept q p keys kept in
    elim (Bool-cases (q k)) [
      | inl e ↦ elim (Bool-cases (p k)) [
        | inl f ↦ rw (e, f) (rw (kept k) (rw e rest))
        | inr f ↦ rw (e, f) (rw e rest)
      ]
      | inr e ↦ elim (Bool-cases (p k)) [
        | inl f ↦ rw (e, f) (rw (kept k) (rw e (ap (λ hs. k.key_hash ∷ hs) rest)))
        | inr f ↦ rw (e, f) (rw e (ap (λ hs. k.key_hash ∷ hs) rest))
      ]
    ]

soft_delete_tenant-list_key_hashes :
    (tenant_id : String) (db : Db)
    → list_key_hashes tenant_id (soft_delete_tenant tenant_id db).1 ≡ list_key_hashes tenant_id db
unfolding soft_delete_tenant list_key_hashes
soft_delete_tenant-list_key_hashes tenant_id db =
    elim (Bool-cases (exists_where (live_tenant tenant_id) db.tenants)) [
      | inl e ↦ rw e (
          hashes_kept (λ k. not (str_eq k.tenant_id tenant_id)) (live_key_of tenant_id) db.keys
            (λ _. refl))
      | inr e ↦ rw e refl
    ]

module _ {S : Type 0} (env : Services S) where
  identified-cache :
      (b : Bool) (idp : S) (status : ℕ) (w : World S)
      → (identified (b, idp) (done status) w).1.cache ≡ w.cache
  identified-cache true idp status w = refl
  identified-cache false idp status w = refl

  identified-db :
      (b : Bool) (idp : S) (status : ℕ) (w : World S)
      → (identified (b, idp) (done status) w).1.db ≡ w.db
  identified-db true idp status w = refl
  identified-db false idp status w = refl

  -- The database and the cache that `delete_tenant` leaves.
  removed :
      (tenant_id : String) (w : World S) (emails : List String) (r : Reply (List String) × Db)
      → r.0 ≡ ok emails
      → let after =
          answered r
            (λ (emails' : List String) (w' : World S).
              then_idp env 204
                (idp_cleanup env emails')
                tt
                (synced env tenant_id (invalidated env tenant_id w')))
            w in
        (after.1.db ≡ r.1) × (after.1.cache ≡ invalidate_tenant_cache tenant_id r.1 w.cache)
  removed tenant_id w emails (ok emails', db) h =
      let w' = synced env tenant_id (invalidated env tenant_id (record w { db = db })) in
      let r = idp_cleanup env emails' w'.idp in
      (identified-db r.0 r.1 204 w', identified-cache r.0 r.1 204 w')
  removed tenant_id w emails (Reply.not_found, db) h =
      let no : Reply.not_found ≡ ok emails = h in cc
  removed tenant_id w emails (Reply.conflict, db) h = let no : Reply.conflict ≡ ok emails = h in cc
  removed tenant_id w emails (Reply.in_use n, db) h = let no : Reply.in_use n ≡ ok emails = h in cc
  removed tenant_id w emails (Reply.violated, db) h = let no : Reply.violated ≡ ok emails = h in cc

  -- Once `delete_tenant` has deleted a tenant, the gateway refuses each of its keys, whatever its cache held
  -- before and whether or not the IdP could be cleaned up.
  pub remove_tenant-refusal :
      (tenant_id : String) (w : World S) (emails : List String) (key_hash endpoint : String)
      (info : Info)
      → (soft_delete_tenant tenant_id w.db).0 ≡ ok emails
      → contains key_hash (list_key_hashes tenant_id w.db) ≡ true
      → resolve_cached key_hash
          (remove_tenant env tenant_id w).1.db
          (remove_tenant env tenant_id w).1.cache
        ≡ some (some info)
      → info.tenant_id ≡ tenant_id
      → (status : ℕ) × (refusal info endpoint ≡ some status)
  unfolding remove_tenant resolve_cached invalidate_tenant_cache account_all
  remove_tenant-refusal tenant_id w emails key_hash endpoint info deleted own found same =
      let db : Db = (soft_delete_tenant tenant_id w.db).1 in
      let (at_db, at_cache) =
        removed tenant_id w emails (soft_delete_tenant tenant_id w.db) deleted in
      let out : invalidate_tenant_cache tenant_id db w.cache key_hash ≡ none =
        dropped (list_key_hashes tenant_id db) w.cache key_hash
          (ap (contains key_hash) (soft_delete_tenant-list_key_hashes tenant_id w.db) ∙ own) in
      let empty : (remove_tenant env tenant_id w).1.cache key_hash ≡ none =
        ap (λ (c : Cache). c key_hash) at_cache ∙ out in
      let stored : resolve_key key_hash (remove_tenant env tenant_id w).1.db ≡ some (some info) =
        ap (λ c. cached_or c (resolve_key key_hash (remove_tenant env tenant_id w).1.db))
          (sym empty)
        ∙ found in
      soft_delete_tenant-refusal tenant_id w.db emails [] key_hash endpoint info deleted
        (ap (resolve_key key_hash) (sym at_db) ∙ stored) same
