-- ===== src/Billing/ControlPlane/Tests.antt =====
-- billing/control_plane.py, on small databases.
use geocoder_fwd.Prelude.{
  ℕ, ◌≡◌, refl, Bool, true, false, Option, none, some, List, [], ◌∷◌, String, length, All, str_eq,
  if◌then◌else◌, lookup, insert,
}
use geocoder_fwd.Billing.Weights.{weight_for}
use geocoder_fwd.Billing.Weights.Matrix.{matrix_size, raw_request, non_empty}
use geocoder_fwd.Billing.Gateway.{Info, Live, refusal, endpoint_of}
use geocoder_fwd.Billing.ControlPlane.Names.{key_id_from_consumer}
use geocoder_fwd.Billing.ControlPlane.Sink.{
  LogEntry, Sink, SinkState, usage_sink, counted, tenant_for_key, record_usage, milli_for,
}
use geocoder_fwd.Billing.ControlPlane.Sink.Counted.{IsCounted, usage_sink-IsCounted}
use geocoder_fwd.Billing.ControlPlane.Sink.Direct.{direct_sink, IsCoherent, usage_sink-direct_sink}
use geocoder_fwd.Billing.Accounts.{TenantRow, Key, Plan, Db, ok}
use geocoder_fwd.Billing.Accounts.Tenants.{get_tenant, tenant_with_plan, soft_delete_tenant}
use geocoder_fwd.Billing.Accounts.Keys.{
  list_keys, list_key_hashes, resolve_key, get_key_by_hash, KeyFields,
}
use geocoder_fwd.Billing.ControlPlane.{Apisix, sync_calls, sync_tenant, invalidate_tenant_cache}
use geocoder_fwd.Billing.ControlPlane.Sync.{consumer_of}
use geocoder_fwd.Billing.ControlPlane.Synced.{IsSynced, sync_tenant-consumer_of}
use geocoder_fwd.Billing.ControlPlane.Teardown.{soft_delete_tenant-sync_tenant}
use geocoder_fwd.Billing.ControlPlane.Handlers.{Services, World, remove_tenant, idp_cleanup}
use geocoder_fwd.Billing.ControlPlane.Handlers.Requests.{key_updated, handle}
use geocoder_fwd.Billing.ControlPlane.Handlers.Isolated.{keys_of, handle-keys_of}
use geocoder_fwd.Billing.ControlPlane.Handlers.Refused.{resolve_cached, remove_tenant-refusal}

abbrev key_named : String → String → String → Key
key_named id tenant_id hash = record {
  id = id;
  tenant_id = tenant_id;
  name = "n";
  key_prefix = "p";
  key_hash = hash;
  key_enc = some "e";
  scopes = [];
  status = "active";
}

abbrev tenant_named : String → TenantRow
tenant_named id = record {
  id = id;
  name = "T";
  contact_email = none;
  plan_id = some "free";
  status = "active";
}

abbrev shop : Db
shop = record {
  users = [];
  tenants = tenant_named "t" ∷ tenant_named "u" ∷ [];
  keys = key_named "k" "t" "h" ∷ key_named "l" "u" "i" ∷ [];
  plans =
      record {
        id = "free";
        name = "Free";
        monthly_quota = 100;
        base_price_cents = 0;
        hard_cap = true;
        rps = 1;
      }
      ∷ [];
}

abbrev no_apisix : Apisix
no_apisix = record { groups = []; consumers = [] }

abbrev plain : String → String
plain s = s

shop_tenant : get_tenant "t" true shop ≡ ok (tenant_named "t")
unfolding get_tenant
shop_tenant = refl

abbrev shop_plan : Option Plan
shop_plan = some (record {
  id = "free";
  name = "Free";
  monthly_quota = 100;
  base_price_cents = 0;
  hard_cap = true;
  rps = 1;
})

shop_planned : tenant_with_plan "t" shop ≡ ok shop_plan
unfolding tenant_with_plan
shop_planned = refl

sync_tenant-consumer_of_example :
    All
      (λ (k : Key). IsSynced plain [] "t" shop_plan k (
        consumer_of k.id
          (sync_tenant plain [] (length (sync_calls plain [] "t" shop)) "t" shop no_apisix)))
      (list_keys "t" shop)
unfolding list_keys
sync_tenant-consumer_of_example =
    sync_tenant-consumer_of plain [] "t" shop no_apisix (tenant_named "t") shop_plan shop_tenant
      refl shop_planned (tt, tt)

shop_deleted : (soft_delete_tenant "t" shop).0 ≡ ok []
unfolding soft_delete_tenant
shop_deleted = refl

abbrev one_consumer : Apisix
one_consumer = record {
  groups = [];
  consumers = record { key_id = "k"; api_key = "e"; group = some "t" } ∷ [];
}

soft_delete_tenant-sync_tenant_example :
    consumer_of "k" (sync_tenant plain [] 5 "t" (soft_delete_tenant "t" shop).1 one_consumer)
    ≡ some (record { key_id = "k"; api_key = "e"; group = some "t" })
soft_delete_tenant-sync_tenant_example =
    soft_delete_tenant-sync_tenant plain [] "t" shop [] 5 one_consumer "k" shop_deleted

-- An IdP that keeps nothing and refuses nothing.
abbrev open_idp : Unit {0} → Bool × Unit {0}
open_idp idp = (true, idp)

abbrev services : Services (Unit {0})
services = record {
  hash_password = plain;
  decrypt_key = plain;
  weights = [];
  reached = λ _. 5;
  provision_admin_user = λ _ _. open_idp;
  provision_tenant_user = λ _ _ _ _. open_idp;
  set_user_active = λ _ _. open_idp;
  idp_delete_user = λ _. open_idp;
  idp_set_password = λ _ _. open_idp;
  reset_user_mfa = λ _. open_idp;
}

abbrev stale : Info
stale = record {
  key_id = "k";
  tenant_id = "t";
  key_status = "active";
  tenant_status = "active";
  scopes = [];
  quota = 100;
  hard_cap = true;
  rps = 1;
}

abbrev shop_world : World (Unit {0})
shop_world = record { db = shop; cache = λ _. some stale; apisix = one_consumer; idp = tt }

abbrev disable : KeyFields
disable = record { name = none; status = some "disabled" }

handle-keys_of_example :
    keys_of "u" (handle services (key_updated "k" "t" disable) shop_world).1.db
    ≡ key_named "l" "u" "i" ∷ []
handle-keys_of_example =
    handle-keys_of services (key_updated "k" "t" disable) shop_world "t" "u" refl refl

abbrev deleted_info : Info
deleted_info = record {
  key_id = "k";
  tenant_id = "t";
  key_status = "deleted";
  tenant_status = "deleted";
  scopes = [];
  quota = 0;
  hard_cap = false;
  rps = 0;
}

remove_tenant-refusal_example : (status : ℕ) × (refusal deleted_info "geocode" ≡ some status)
unfolding remove_tenant resolve_cached resolve_key get_key_by_hash soft_delete_tenant
    list_key_hashes idp_cleanup invalidate_tenant_cache
remove_tenant-refusal_example =
    remove_tenant-refusal services "t" shop_world [] "h" "geocode" deleted_info shop_deleted refl
      refl refl

abbrev quiet : Live
quiet = record { rps_hits = λ _ _. 0; tenant_live = λ _ _. 0; key_live = λ _ _. 0; events = [] }

abbrev fresh : SinkState
fresh = record { live = quiet; cache = []; recorded = 0 }

abbrev keys_sink : Sink
keys_sink = record {
  weights = ("geocode", 1000) ∷ [];
  loads = λ _. none;
  json_param = λ _. none;
  is_free_path = λ p. str_eq p "/health";
  now = record { period = "2026-01"; day = "2026-01-01"; second = 0 };
  tenant_id_for_key = λ k. if str_eq k "1-2" then some "t" else none;
}

abbrev served : LogEntry
served = record { consumer = some "k_1_2"; status = some 200; uri = some "/geocode/x?q=y" }

abbrev batch : List LogEntry
batch =
    served
    ∷ record served { status = some 500 }
    ∷ record served { uri = some "/health" }
    ∷ served
    ∷ []

batch_recorded :
    ((usage_sink keys_sink batch fresh).recorded ≡ 2)
    × ((usage_sink keys_sink batch fresh).live.tenant_live "t" "2026-01" ≡ 2000)
unfolding usage_sink counted tenant_for_key record_usage milli_for key_id_from_consumer weight_for
    lookup insert matrix_size raw_request non_empty endpoint_of
batch_recorded = (refl, refl)

usage_sink-IsCounted_example : IsCounted fresh (usage_sink keys_sink batch fresh)
usage_sink-IsCounted_example = usage_sink-IsCounted keys_sink batch fresh

usage_sink-direct_sink_example :
    ((usage_sink keys_sink batch fresh).live ≡ (direct_sink keys_sink batch fresh).live)
    × ((usage_sink keys_sink batch fresh).recorded ≡ (direct_sink keys_sink batch fresh).recorded)
    × IsCoherent keys_sink (usage_sink keys_sink batch fresh).cache
unfolding lookup
usage_sink-direct_sink_example = usage_sink-direct_sink keys_sink batch fresh (λ k t h. cc)
