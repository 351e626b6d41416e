-- ===== src/Billing/Tests.antt =====
-- billing/: the results at concrete tenants, prices and requests.
use geocoder_fwd.Prelude.{
  ℕ, suc, ◌+◌, ◌-◌, ◌*◌, ◌≤◌, ◌<◌, ◌≡◌, ◌≢◌, ◌⊎◌, inl, inr, refl, sym, ◌∙◌, eq_iff, Bool, true,
  false, Option, none, some, List, [], ◌∷◌, ◌++◌, map, length, replicate, String, Dict, lookup,
  get_or, take, ltb, leb, arith,
}
mod Charges
mod Accounts
use mathlib.Core.Option.{none-ne-some}
use geocoder_fwd.Billing.Weights.{
  default_weight_milli, default_weights, weight_for, matrix_element_key, endpoint_vals, min_of,
  min_weight, matrix_milli, projected_request_cap, cost,
}
use geocoder_fwd.Billing.Weights.Cap.{IsPriced}
use geocoder_fwd.Billing.Weights.Matrix.{
  Json, other, len_of, raw_request, parsed_size, matrix_size, matrix_milli_mono,
  matrix_size_unknown, non_empty,
}
use geocoder_fwd.Billing.Weights.Cache.{
  Cache, invalidate, fresh_copy, get_weights, get_weights-invalidate,
}
use geocoder_fwd.Billing.Usage.{Event, Row, flush_events, usage_totals_for_period}
use geocoder_fwd.Billing.Usage.Totals.{event_totals, flush_events_totals}
use geocoder_fwd.Billing.Meter.{Counter, Request, starting, turns}
use geocoder_fwd.Billing.Meter.Turns.{held_by, turns_within_cap}
use geocoder_fwd.Billing.Gateway.{
  Info, Live, Now, Call, Env, response, other_error, raised, forward, proxy, refusal, endpoint_of,
  resolved, limited, charge, incr_tenant_if_allowed, exceeds, allow_rps, authorized, serve,
  milli_of, decr_tenant,
}
use geocoder_fwd.Billing.Gateway.Metering.{status_of, IsMetered, proxy-IsMetered}
use geocoder_fwd.Billing.Gateway.Failed.{IsUnmetered, IsLostOf, proxy-IsFailed}

-- Two requests at once, with room for one of them: both look before either takes its credits.
abbrev two_requests : List Request
two_requests =
    record { milli = 600; upstream_ok = true; phase = starting }
    ∷ record { milli = 600; upstream_ok = false; phase = starting }
    ∷ []

abbrev unused : Counter
unused = record { count = 0; writes = 0 }

abbrev race : List ℕ
race = 0 ∷ 1 ∷ 0 ∷ 1 ∷ 0 ∷ 1 ∷ 1 ∷ 1 ∷ 0 ∷ []

race_count : (turns 1000 race two_requests unused).1.count ≡ 600
unfolding turns
race_count = refl

turns_within_cap_example :
    ((turns 1000 race two_requests unused).1.count ≤ 1000)
    × ((turns 1000 race two_requests unused).1.count
        ≡ 0 + held_by (turns 1000 race two_requests unused).0)
turns_within_cap_example =
    turns_within_cap 1000 race two_requests unused (omega arith) (omega arith) (refl, (refl, tt))

abbrev info : Info
info = record {
  key_id = "k";
  tenant_id = "t";
  key_status = "active";
  tenant_status = "active";
  scopes = "geocode" ∷ [];
  quota = 10;
  hard_cap = true;
  rps = 5;
}

abbrev env : ℕ → Env
env status = record {
  resolve_key = λ key. some info;
  is_free_path = λ path. false;
  weights = default_weights;
  request = λ call. response status;
}

abbrev call : Call
call = record { api_key = some "secret"; path = "geocode/x"; n_sources = 0; n_targets = 0 }

abbrev now : Now
now = record { period = "2024-01"; day = "2024-01-02"; second = 7 }

abbrev quiet : Live
quiet = record { rps_hits = λ t s. 0; tenant_live = λ t p. 9000; key_live = λ k p. 0; events = [] }

key : non_empty call.api_key ≡ some "secret"
unfolding non_empty
key = refl

allowed : refusal info (endpoint_of "geocode/x") ≡ none
unfolding refusal endpoint_of
allowed = refl

good : leb 400 (status_of (proxy (env 200) now call quiet).0) ≡ false
unfolding proxy resolved authorized limited allow_rps charge incr_tenant_if_allowed exceeds serve
    forward milli_of decr_tenant endpoint_of refusal non_empty weight_for lookup
good = refl

bad : leb 400 (status_of (proxy (env 502) now call quiet).0) ≡ true
unfolding proxy resolved authorized limited allow_rps charge incr_tenant_if_allowed exceeds serve
    forward milli_of decr_tenant endpoint_of refusal non_empty weight_for lookup
bad = refl

proxy-IsMetered_example : IsMetered (env 200) now info call quiet (proxy (env 200) now call quiet).1
proxy-IsMetered_example =
    proxy-IsMetered (env 200) now call quiet "secret" info key refl allowed refl good

proxy-IsFailed_example :
    IsUnmetered quiet (proxy (env 502) now call quiet).1
    ⊎ IsLostOf (env 502) now call quiet (proxy (env 502) now call quiet)
proxy-IsFailed_example = proxy-IsFailed (env 502) now call quiet bad

-- An upstream whose client raises an error that is no `httpx.HTTPError`: 500, and the credits stay taken.
abbrev broken : Env
broken = record (env 502) { request = λ call. other_error }

raise_keeps_credits :
    ((proxy broken now call quiet).0 ≡ raised)
    × ((proxy broken now call quiet).1.tenant_live "t" "2024-01" ≡ 10000)
unfolding proxy resolved authorized limited allow_rps charge incr_tenant_if_allowed exceeds serve
    forward milli_of decr_tenant endpoint_of refusal non_empty weight_for lookup
raise_keeps_credits = (refl, refl)

-- An event of a weight, an old one without it, and one of another tenant.
abbrev events : List Event
events =
    record {
      tenant_id = "t";
      key_id = "k";
      period = "2024-01";
      day = "2024-01";
      endpoint = some "route";
      milli = some 5000;
    }
    ∷ record {
      tenant_id = "t";
      key_id = "k";
      period = "2024-01";
      day = "2024-01";
      endpoint = none;
      milli = none;
    }
    ∷ record {
      tenant_id = "u";
      key_id = "l";
      period = "2024-01";
      day = "2024-01";
      endpoint = none;
      milli = none;
    }
    ∷ []

flush_events_totals_example :
    let before = usage_totals_for_period "t" "2024-01" [] in
    let after = usage_totals_for_period "t" "2024-01" (flush_events 500 events []).1 in
    let drained = event_totals "t" "2024-01" (take 500 events) in
    (after.0 ≡ before.0 + drained.0) × (after.1 ≡ before.1 + drained.1)
flush_events_totals_example =
    flush_events_totals (λ day. day) "t" "2024-01" 500 events [] (refl, (refl, (refl, tt))) tt

listed : lookup "route" default_weights ≡ some 5000
unfolding lookup
listed = refl

route_weight : weight_for default_weights "route" ≡ 5000
unfolding weight_for lookup
route_weight = refl

no_rate : "route" ≢ matrix_element_key
no_rate e = absurd (ground (arith, eq_iff "route" "sources_to_targets_element", e))

priced : IsPriced default_weights "route"
priced = (omega (arith, route_weight), no_rate, inl (λ e. absurd (none-ne-some _ (sym e ∙ listed))))

abbrev routes : List String
routes = "route" ∷ "route" ∷ []

two_routes : cost default_weights routes ≤ 20 * 1000
unfolding cost
two_routes = omega (arith, route_weight)

-- One listed endpoint, dearer than the default.
abbrev dear_weights : Dict ℕ
dear_weights = ("route", 5000) ∷ []

unlisted : lookup "nearby" dear_weights ≡ none
unfolding lookup
unlisted = refl

dear : min_weight dear_weights ≡ 5000
unfolding min_weight endpoint_vals min_of
dear = refl

-- A decoder that answers a list, which has no keys.
abbrev loads : String → Option Json
loads raw = some other

parsed : (raw : String) → parsed_size (loads raw) ≡ none
unfolding parsed_size len_of
parsed raw = refl

-- A copy loaded at 10, looked at from 40 on, with a time to live of 30.
abbrev old_copy : Cache
old_copy = record { copy = some dear_weights; loaded_at = 10 }

stale : fresh_copy 30 45 old_copy ≡ none
unfolding fresh_copy
stale = refl
