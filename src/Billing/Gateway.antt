-- ===== src/Billing/Gateway.antt =====
-- billing/gateway.py: one request through the gateway, from its key to its metering. Redis is the
-- state `Live`; the cached or stored record of a key, the weights, the upstream and the list of free
-- paths are those of `Env`. Requests that run at once are the subject of billing/usage.py's counter.
pub mod Metering
pub mod Failed
use Prim.Native.Char.{code}
use geocoder_fwd.Prelude.{
  ℕ, suc, ◌+◌, ◌-◌, ◌*◌, Bool, true, false, not, ◌&&◌, ◌||◌, Option, none, some, List, [], ◌∷◌,
  ◌++◌, String, str_eq, contains, Dict, ◌==◌, leb, ltb, if◌then◌else◌,
}
use geocoder_fwd.Billing.Usage.{Event}
use geocoder_fwd.Billing.Weights.{weight_for, matrix_milli, matrix_endpoint}
use geocoder_fwd.Billing.Weights.Matrix.{non_empty}

-- What `_resolve_key` returns.
pub record Info : Type 0 where
  pub key_id : String
  pub tenant_id : String
  pub key_status : String
  pub tenant_status : String
  pub scopes : List String
  pub quota : ℕ
  pub hard_cap : Bool
  pub rps : ℕ

-- A counter for each pair of names: a tenant or a key, and a period.
abbrev pub Counters : Type 0
Counters = String → String → ℕ

abbrev pub bump : String → String → (ℕ → ℕ) → Counters → Counters
bump name period f counters =
    λ n p. if str_eq n name && str_eq p period then f (counters n p) else counters n p

pub record Live : Type 0 where
  -- By tenant and second.
  pub rps_hits : String → ℕ → ℕ
  pub tenant_live : Counters
  pub key_live : Counters
  pub events : List Event

-- `now_parts()`, and the second.
pub record Now : Type 0 where
  pub period : String
  pub day : String
  pub second : ℕ

pub record Call : Type 0 where
  pub api_key : Option String
  pub path : String
  -- What `matrix_size` gives for the query and the body.
  pub n_sources : ℕ
  pub n_targets : ℕ

-- `client.request` of httpx: a response and its status, an `httpx.HTTPError`, or any other error.
pub data HttpOutcome : Type 0 where
  response : ℕ → HttpOutcome
  http_error : HttpOutcome
  other_error : HttpOutcome

pub record Env : Type 0 where
  pub resolve_key : String → Option Info
  pub is_free_path : String → Bool
  pub weights : Dict ℕ
  -- What the HTTP client does for the call.
  pub request : Call → HttpOutcome

abbrev pub status_from : HttpOutcome → Option ℕ
status_from (response status) = some status
status_from http_error = some 502
status_from other_error = none

-- The status of what `_forward` returns; `none` where it raises, as it catches `httpx.HTTPError` alone.
unfoldable pub forward : Env → Call → Option ℕ
forward env call = status_from (env.request call)

-- The status of the response: of an error of the gateway, or of the upstream's answer. `raised` is an
-- error that leaves `proxy`, for which the server answers 500.
pub data Answer : Type 0 where
  err : ℕ → Answer
  forwarded : ℕ → Answer
  raised : Answer

-- `path.split("/", 1)[0]`
unfoldable pub endpoint_of : String → String
endpoint_of String.[] = String.[]
endpoint_of (String.◌∷◌ c s) =
    let rest = endpoint_of s in if code c == b'/' then String.[] else String.◌∷◌ c rest

abbrev is_nil : List String → Bool
is_nil [] = true
is_nil (s ∷ scopes) = false

-- The checks of step 2, in their order: the status of the first that fails.
unfoldable pub refusal : Info → String → Option ℕ
refusal info endpoint =
    if str_eq info.key_status "disabled"
    then some 403
    else if not (str_eq info.key_status "active")
    then some 401
    else if not (str_eq info.tenant_status "active")
    then some 403
    else if not (is_nil info.scopes) && not (contains endpoint info.scopes)
    then some 403
    else none

-- The count of the second goes up whether the request is allowed or not.
unfoldable pub allow_rps : Now → String → ℕ → Live → Bool × Live
allow_rps now tenant_id rps live =
    let n = suc (live.rps_hits tenant_id now.second) in
    (
      leb n rps,
      record live {
        rps_hits = λ t s.
            if str_eq t tenant_id && (s == now.second)
            then suc (live.rps_hits t s)
            else live.rps_hits t s;
      },
    )

abbrev pub with_tenant : Counters → Live → Live
with_tenant counters live = record live { tenant_live = counters }

unfoldable pub exceeds : ℕ → ℕ → ℕ → Bool
exceeds cap_milli milli count = not (cap_milli == 0) && ltb cap_milli (count + milli)

-- Without other requests in between, the transaction takes place at its first try.
unfoldable pub incr_tenant_if_allowed : String → String → ℕ → ℕ → Live → Option Live
incr_tenant_if_allowed tenant_id period cap_milli milli live =
    if exceeds cap_milli milli (live.tenant_live tenant_id period)
    then none
    else some (with_tenant (bump tenant_id period (λ n. n + milli) live.tenant_live) live)

unfoldable pub decr_tenant : String → String → ℕ → Live → Live
decr_tenant tenant_id period milli live =
    with_tenant (bump tenant_id period (λ n. n - milli) live.tenant_live) live

unfoldable pub milli_of : Env → Call → ℕ
milli_of env call =
    if str_eq (endpoint_of call.path) matrix_endpoint
    then matrix_milli env.weights call.n_sources call.n_targets
    else weight_for env.weights (endpoint_of call.path)

-- `quota * 1000 if info.get("hard_cap") else 0`
abbrev pub cap_of : Info → ℕ
cap_of info = if info.hard_cap then info.quota * 1000 else 0

-- Steps 4 and 5: the upstream's answer, then the refund, or the meter; an error of `_forward` comes
-- before both.
unfoldable pub serve : Env → Now → Info → Call → Live → Answer × Live
unfolding decr_tenant milli_of forward
serve env now info call live =
    let milli = milli_of env call in
    elim (forward env call) [
      | none ↦ (raised, live)
      | some status ↦
          if leb 400 status
          then (forwarded status, decr_tenant info.tenant_id now.period milli live)
          else (
            forwarded status,
            record live {
              key_live = bump info.key_id now.period (λ n. n + milli) live.key_live;
              events =
                  live.events
                  ++ (record {
                    tenant_id = info.tenant_id;
                    key_id = info.key_id;
                    period = now.period;
                    day = now.day;
                    endpoint = some (endpoint_of call.path);
                    milli = some milli;
                  }
                      ∷ []);
            },
          )
    ]

-- Step 3, the quota, and what follows.
unfoldable pub charge : Env → Now → Info → Call → Live → Answer × Live
charge env now info call live =
    elim (incr_tenant_if_allowed info.tenant_id now.period (cap_of info) (milli_of env call) live) [
      | none ↦ (err 429, live)
      | some charged ↦ serve env now info call charged
    ]

-- Step 3, the requests per second; 0 stands for no limit.
unfoldable pub limited : Env → Now → Info → Call → Live → Answer × Live
limited env now info call live =
    if info.rps == 0
    then charge env now info call live
    else (let (allowed, live') = allow_rps now info.tenant_id info.rps live in
        if allowed then charge env now info call live' else (err 429, live'))

-- The answer on a free path, which `_forward` gives alone.
abbrev pub free_answer : Option ℕ → Answer
free_answer none = raised
free_answer (some status) = forwarded status

unfoldable pub authorized : Env → Now → Info → Call → Live → Answer × Live
authorized env now info call live = elim (refusal info (endpoint_of call.path)) [
  | some status ↦ (err status, live)
  | none ↦
      if env.is_free_path call.path
      then (free_answer (forward env call), live)
      else limited env now info call live
]

unfoldable pub resolved : Env → Now → Call → Option Info → Live → Answer × Live
resolved env now call none live = (err 401, live)
resolved env now call (some info) live = authorized env now info call live

unfoldable pub proxy : Env → Now → Call → Live → Answer × Live
proxy env now call live = elim (non_empty call.api_key) [
  | none ↦ (err 401, live)
  | some api_key ↦ resolved env now call (env.resolve_key api_key) live
]
