-- ===== src/Billing/ControlPlane.antt =====
-- billing/control_plane.py and billing/apisix_admin.py: the database with what is projected from it, the
-- cache of keys in Redis (without its time to live), the consumers of APISIX and the identities of the
-- IdP, whose client is an interface.
pub mod Sync
pub mod Synced
pub mod Teardown
pub mod Handlers
pub mod Names
pub mod Sink
mod Tests
use geocoder_fwd.Prelude.{
  ℕ, ◌+◌, Bool, true, false, not, ◌&&◌, ◌||◌, Option, none, some, List, [], ◌∷◌, ◌++◌, String,
  str_eq, Dict, ltb, if◌then◌else◌, map, take, find_where, delete_where,
}
use geocoder_fwd.Billing.Weights.{projected_request_cap}
use geocoder_fwd.Billing.Gateway.{Info}
use geocoder_fwd.Billing.Accounts.{TenantRow, Key, Plan, Db, Reply, ok}
use geocoder_fwd.Billing.Accounts.Tenants.{get_tenant, tenant_with_plan}
use geocoder_fwd.Billing.Accounts.Keys.{list_keys, list_key_hashes, get_key_by_hash, info_of}

-- A consumer group, with its monthly limit and its rate, and a consumer, one for each key. The names
-- `tenant_...` and `k_...` that APISIX knows them by are those of their ids.
pub record Group : Type 0 where
  pub tenant_id : String
  pub limit : Option ℕ
  pub rps : ℕ

pub record Consumer : Type 0 where
  pub key_id : String
  pub api_key : String
  pub group : Option String

pub record Apisix : Type 0 where
  pub groups : List Group
  pub consumers : List Consumer

-- The calls of the Admin API that it obeys: PUT replaces, DELETE of what is not there does nothing.
pub data ApisixCall : Type 0 where
  put_group : Group → ApisixCall
  delete_group : String → ApisixCall
  put_consumer : Consumer → ApisixCall
  delete_consumer : String → ApisixCall

abbrev pub of_key : String → Consumer → Bool
of_key key_id c = str_eq c.key_id key_id

abbrev pub of_group : String → Group → Bool
of_group tenant_id g = str_eq g.tenant_id tenant_id

unfoldable pub call : ApisixCall → Apisix → Apisix
call (put_group g) a = record a { groups = g ∷ delete_where (of_group g.tenant_id) a.groups }
call (delete_group tenant_id) a = record a { groups = delete_where (of_group tenant_id) a.groups }
call (put_consumer c) a = record a { consumers = c ∷ delete_where (of_key c.key_id) a.consumers }
call (delete_consumer key_id) a = record a { consumers = delete_where (of_key key_id) a.consumers }

unfoldable pub call_all : List ApisixCall → Apisix → Apisix
call_all [] a = a
call_all (c ∷ calls) a = call_all calls (call c a)

-- `ensure_consumer_group`, where APISIX is enabled: whether the group exists, and the call.
unfoldable pub ensure_consumer_group : String → ℕ → Bool → ℕ → Bool × ApisixCall
ensure_consumer_group tenant_id quota hard_cap rps =
    let limited : Bool = hard_cap && ltb 0 quota in
    if limited || ltb 0 rps
    then (
      true,
      put_group (record {
        tenant_id = tenant_id;
        limit = if limited then some quota else none;
        rps = rps;
      }),
    )
    else (false, delete_group tenant_id)

-- What the plan says, with the defaults of a tenant that has none.
abbrev pub quota_of : Option Plan → ℕ
quota_of none = 0
quota_of (some p) = p.monthly_quota

abbrev pub hard_cap_of : Option Plan → Bool
hard_cap_of none = false
hard_cap_of (some p) = p.hard_cap

abbrev pub rps_of : Option Plan → ℕ
rps_of none = 0
rps_of (some p) = p.rps

-- `decrypt_key`, and the weights of the endpoints.
module _ (decrypt : String → String) (weights : Dict ℕ) where
  abbrev pub group_for : String → Option Plan → Bool × ApisixCall
  group_for tenant_id plan =
      ensure_consumer_group tenant_id (projected_request_cap weights (quota_of plan))
        (hard_cap_of plan) (rps_of plan)

  abbrev pub in_group_of : Bool → String → Option String
  in_group_of true tenant_id = some tenant_id
  in_group_of false tenant_id = none

  abbrev pub consumer_with : Bool → String → String → String → Consumer
  consumer_with in_group tenant_id key_id api_key = record {
    key_id = key_id;
    api_key = api_key;
    group = in_group_of in_group tenant_id;
  }

  -- The consumer that a key is to have: one for an active key whose text is stored.
  abbrev pub wanted_from : Bool → String → Key → Option String → Option Consumer
  wanted_from in_group tenant_id k none = none
  wanted_from in_group tenant_id k (some enc) =
      if str_eq k.status "active"
      then some (consumer_with in_group tenant_id k.id (decrypt enc))
      else none

  abbrev pub wanted : Bool → String → Key → Option Consumer
  wanted in_group tenant_id k = wanted_from in_group tenant_id k k.key_enc

  abbrev pub key_call : String → Option Consumer → ApisixCall
  key_call key_id none = delete_consumer key_id
  key_call key_id (some c) = put_consumer c

  -- The calls of `_sync_tenant` for a tenant with these keys.
  abbrev pub active_calls : String → List Key → Option Plan → List ApisixCall
  active_calls tenant_id keys plan =
      let group = group_for tenant_id plan in
      group.1 ∷ map (λ (k : Key). key_call k.id (wanted group.0 tenant_id k)) keys

  abbrev pub inactive_calls : String → List Key → List ApisixCall
  inactive_calls tenant_id keys =
      map (λ (k : Key). delete_consumer k.id) keys ++ (delete_group tenant_id ∷ [])

  abbrev pub calls_with : String → List Key → Reply (Option Plan) → List ApisixCall
  calls_with tenant_id keys (ok plan) = active_calls tenant_id keys plan
  calls_with tenant_id keys _ = []

  abbrev pub calls_for : String → Db → Reply TenantRow → List ApisixCall
  calls_for tenant_id db (ok t) =
      if str_eq t.status "active"
      then calls_with tenant_id (list_keys tenant_id db) (tenant_with_plan tenant_id db)
      else inactive_calls tenant_id (list_keys tenant_id db)
  calls_for tenant_id db _ = []

  unfoldable pub sync_calls : String → Db → List ApisixCall
  sync_calls tenant_id db = calls_for tenant_id db (get_tenant tenant_id true db)

  -- `_sync_tenant`: an error of a call ends it and is only logged, so the first `reached` calls happen.
  unfoldable pub sync_tenant : ℕ → String → Db → Apisix → Apisix
  unfolding call_all
  sync_tenant reached tenant_id db a = call_all (take reached (sync_calls tenant_id db)) a

-- The cache of keys, by hash.
abbrev pub Cache : Type 0
Cache = String → Option Info

abbrev pub invalidate_key : String → Cache → Cache
invalidate_key key_hash cache = λ h. if str_eq h key_hash then none else cache h

abbrev pub cache_key : String → Info → Cache → Cache
cache_key key_hash info cache = λ h. if str_eq h key_hash then some info else cache h

abbrev pub invalidate_all : List String → Cache → Cache
invalidate_all [] cache = cache
invalidate_all (h ∷ hashes) cache = invalidate_all hashes (invalidate_key h cache)

unfoldable pub invalidate_tenant_cache : String → Db → Cache → Cache
unfolding list_key_hashes
invalidate_tenant_cache tenant_id db cache = invalidate_all (list_key_hashes tenant_id db) cache

-- `_refresh_cache`; `none` where `tenant_with_plan` raises.
abbrev pub refreshed_with : String → Key → String → Reply (Option Plan) → Cache → Option Cache
refreshed_with key_hash k tenant_status (ok plan) cache =
    some (cache_key key_hash (info_of k tenant_status plan) cache)
refreshed_with key_hash k tenant_status _ cache = none

abbrev pub refreshed_found : String → String → Db → Option (Key × String) → Cache → Option Cache
refreshed_found key_hash tenant_id db none cache = some (invalidate_key key_hash cache)
refreshed_found key_hash tenant_id db (some (k, tenant_status)) cache =
    refreshed_with key_hash k tenant_status (tenant_with_plan tenant_id db) cache

unfoldable pub refresh_cache : String → String → Db → Cache → Option Cache
refresh_cache key_hash tenant_id db cache =
    refreshed_found key_hash tenant_id db (get_key_by_hash key_hash db) cache
