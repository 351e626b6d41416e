-- ===== src/Billing/ControlPlane/Sink.antt =====
-- billing/control_plane.py, `usage_sink`: the batches of the logger of APISIX, and `record` of
-- billing/usage.py. An entry comes decoded; `status` is `none` where `int` raises on it.
pub mod Counted
pub mod Direct
use Prim.Native.Char.{code}
use geocoder_fwd.Prelude.{
  ℕ, ◌+◌, suc, Bool, true, false, not, ◌&&◌, ◌||◌, Option, none, some, List, [], ◌∷◌, ◌++◌, String,
  str_eq, Dict, lookup, insert, get_or, ◌==◌, leb, if◌then◌else◌,
}
use geocoder_fwd.Billing.Usage.{Event}
use geocoder_fwd.Billing.Weights.{weight_for, matrix_milli, matrix_endpoint}
use geocoder_fwd.Billing.Weights.Matrix.{Json, matrix_size}
use geocoder_fwd.Billing.Weights.Matrix.{non_empty}
use geocoder_fwd.Billing.Gateway.{Counters, Live, Now, bump, endpoint_of}
use geocoder_fwd.Billing.ControlPlane.Names.{key_id_from_consumer}

pub record LogEntry : Type 0 where
  pub consumer : Option String
  pub status : Option ℕ
  pub uri : Option String

-- `uri.split("?", 1)`: before the question mark, and what follows it.
abbrev pub cut_query : String → String × Option String
cut_query String.[] = (String.[], none)
cut_query (String.◌∷◌ c s) =
    let (path, query) = cut_query s in
    if code c == b'?' then (String.[], some s) else (String.◌∷◌ c path, query)

-- `.strip("/").split("/")[0]`: nothing of the slashes at the end is in the first part.
abbrev pub first_part : String → String
first_part String.[] = String.[]
first_part (String.◌∷◌ c s) =
    let rest = first_part s in if code c == b'/' then rest else endpoint_of (String.◌∷◌ c s)

-- `weights.matrix_size` with its decoders, `is_free_path`, `now_parts`, and `tenant_id_for_key`.
pub record Sink : Type 0 where
  pub weights : Dict ℕ
  pub loads : String → Option Json
  pub json_param : String → Option String
  pub is_free_path : String → Bool
  pub now : Now
  pub tenant_id_for_key : String → Option String

unfoldable pub record_usage : Now → String → String → String → ℕ → Live → Live
record_usage now tenant_id key_id endpoint milli live = record live {
  tenant_live = bump tenant_id now.period (λ n. n + milli) live.tenant_live;
  key_live = bump key_id now.period (λ n. n + milli) live.key_live;
  events =
      live.events
      ++ (record {
        tenant_id = tenant_id;
        key_id = key_id;
        period = now.period;
        day = now.day;
        endpoint = some endpoint;
        milli = some milli;
      }
          ∷ []);
}

-- An entry that is not counted for its consumer, status or path is `none`; else its consumer and `uri`.
unfoldable pub counted : Sink → LogEntry → Option (String × String)
counted sink e = elim (non_empty e.consumer) [
  | none ↦ none
  | some consumer ↦
      let uri = get_or "" e.uri in
      if leb 400 (get_or 0 e.status) || sink.is_free_path uri then none else some (consumer, uri)
]

unfoldable pub milli_for : Sink → String → ℕ
milli_for sink uri =
    let (path, query) = cut_query uri in
    let endpoint = first_part path in
    let (n_sources, n_targets) =
      matrix_size sink.loads sink.json_param (some (get_or "" query)) none in
    if str_eq endpoint matrix_endpoint
    then matrix_milli sink.weights n_sources n_targets
    else weight_for sink.weights endpoint

-- `_tenant_for_key`, with the cache of the process.
abbrev pub remembered :
    Option String → String → Option String → Dict String → Option String × Dict String
remembered (some tenant_id) key_id stored cache = (some tenant_id, cache)
remembered none key_id none cache = (none, cache)
remembered none key_id (some tenant_id) cache = (some tenant_id, insert key_id tenant_id cache)

unfoldable pub tenant_for_key : Sink → String → Dict String → Option String × Dict String
unfolding lookup insert
tenant_for_key sink key_id cache =
    remembered (lookup key_id cache) key_id (non_empty (sink.tenant_id_for_key key_id)) cache

pub record SinkState : Type 0 where
  pub live : Live
  pub cache : Dict String
  pub recorded : ℕ

abbrev pub recorded_for : Sink → String → String → Option String → SinkState → SinkState
recorded_for sink key_id uri none state = state
recorded_for sink key_id uri (some tenant_id) state = record state {
  live =
      record_usage sink.now tenant_id key_id (first_part (cut_query uri).0) (milli_for sink uri)
        state.live;
  recorded = suc state.recorded;
}

abbrev pub sink_key : Sink → Option String → String → SinkState → SinkState
sink_key sink none uri state = state
sink_key sink (some key_id) uri state =
    let (tenant_id, cache) = tenant_for_key sink key_id state.cache in
    recorded_for sink key_id uri tenant_id (record state { cache = cache })

abbrev pub sink_counted : Sink → Option (String × String) → SinkState → SinkState
sink_counted sink none state = state
sink_counted sink (some (consumer, uri)) state =
    sink_key sink (non_empty (key_id_from_consumer consumer)) uri state

unfoldable pub usage_sink : Sink → List LogEntry → SinkState → SinkState
unfolding counted
usage_sink sink [] state = state
usage_sink sink (e ∷ entries) state =
    usage_sink sink entries (sink_counted sink (counted sink e) state)
