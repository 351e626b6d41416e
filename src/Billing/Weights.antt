-- ===== src/Billing/Weights.antt =====
-- billing/weights.py: what a request costs, in milli-credits. A weight is never negative
-- (`CHECK (milli_credits >= 0)`), so it is a natural number. `Cap` is about the request cap,
-- `Cache` about the per-process copy of the table.
pub mod Cap
pub mod Matrix
pub mod Cache
use geocoder_fwd.Prelude.{
  ℕ, ◌+◌, ◌*◌, ◌/◌, Bool, true, false, not, Option, none, some, List, [], ◌∷◌, String, Dict, lookup,
  get_or, str_eq, min, max, ◌==◌, leb, ltb, if◌then◌else◌, ◌||◌,
}

abbrev pub milli_per_credit : ℕ
milli_per_credit = 1000

abbrev pub default_weight_milli : ℕ
default_weight_milli = 1000

abbrev pub matrix_endpoint : String
matrix_endpoint = "sources_to_targets"

abbrev pub matrix_element_key : String
matrix_element_key = "sources_to_targets_element"

abbrev pub default_matrix_element_milli : ℕ
default_matrix_element_milli = 100

abbrev pub default_weights : Dict ℕ
default_weights =
    ("autocomplete", 250)
    ∷ ("geocode", 1000)
    ∷ ("reverse", 1000)
    ∷ ("nearby", 1000)
    ∷ ("deep", 3000)
    ∷ ("route", 5000)
    ∷ ("optimized_route", 5000)
    ∷ ("sources_to_targets", 5000)
    ∷ ("isochrone", 5000)
    ∷ ("locate", 5000)
    ∷ ("describe", 25000)
    ∷ (matrix_element_key, default_matrix_element_milli)
    ∷ []

unfoldable pub weight_for : Dict ℕ → String → ℕ
weight_for weights endpoint = get_or default_weight_milli (lookup endpoint weights)

-- `[v for k, v in weights.items() if k != MATRIX_ELEMENT_KEY]`
unfoldable pub endpoint_vals : Dict ℕ → List ℕ
endpoint_vals [] = []
endpoint_vals ((k, v) ∷ weights) =
    let rest = endpoint_vals weights in if str_eq k matrix_element_key then rest else v ∷ rest

-- `min(vals, default=...)`
unfoldable pub min_of : ℕ → List ℕ → ℕ
min_of default [] = default
min_of default (v ∷ []) = v
min_of default (v ∷ w ∷ vals) = min v (min_of default (w ∷ vals))

unfoldable pub min_weight : Dict ℕ → ℕ
min_weight weights = min_of default_weight_milli (endpoint_vals weights)

unfoldable pub matrix_milli : Dict ℕ → ℕ → ℕ → ℕ
matrix_milli weights n_sources n_targets =
    let floor = weight_for weights matrix_endpoint in
    let per_element = get_or default_matrix_element_milli (lookup matrix_element_key weights) in
    if n_sources == 0 || n_targets == 0
    then floor
    else max floor (n_sources * n_targets * per_element)

unfoldable pub projected_request_cap : Dict ℕ → ℕ → ℕ
projected_request_cap weights quota_credits =
    quota_credits * milli_per_credit / max 1 (min_weight weights)

-- What a list of requests costs at the weights of their endpoints.
unfoldable pub cost : Dict ℕ → List String → ℕ
cost weights [] = 0
cost weights (endpoint ∷ requests) = weight_for weights endpoint + cost weights requests
