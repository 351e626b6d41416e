-- ===== src/Billing/Weights/Cap.antt =====
-- The request cap projected into the gateway, against the credit quota that it stands for.
use geocoder_fwd.Prelude.{
  ℕ, zero, suc, ◌*◌, ◌≤◌, ◌<◌, ◌≡◌, ◌≢◌, false, none, some, List, [], ◌∷◌, String, Dict, lookup,
  str_eq, eq_iff, max, All, length, arith, Bool-cases, Option-cases, replicate, inl, inr, ◌⊎◌,
}
use geocoder_fwd.Billing.Weights.{
  matrix_element_key, default_weight_milli, weight_for, endpoint_vals, min_of, min_weight,
  projected_request_cap, cost,
}
use native.Mathlib.Nat.{le-div_iff_mul-le, div-lt_iff_lt-mul}

abbrev In : ℕ → List ℕ → Type 0
In v [] = ⊥
In v (x ∷ xs) = (x ≡ v) ⊎ In v xs

min_of-In : (d v : ℕ) (vals : List ℕ) → In v vals → min_of d vals ≤ v
unfolding min_of
min_of-In d v [] h = absurd h
min_of-In d v (x ∷ []) (inl e) = omega arith
min_of-In d v (x ∷ []) (inr h) = absurd h
min_of-In d v (x ∷ y ∷ vals) (inl e) = omega arith
min_of-In d v (x ∷ y ∷ vals) (inr h) = omega (arith, min_of-In d v (y ∷ vals) h)

endpoint_vals-In :
    (weights : Dict ℕ) (endpoint : String) (v : ℕ)
    → endpoint ≢ matrix_element_key
    → lookup endpoint weights ≡ some v
    → In v (endpoint_vals weights)
unfolding lookup endpoint_vals
endpoint_vals-In [] endpoint v h e = cc
endpoint_vals-In ((k, w) ∷ weights) endpoint v h e = elim (Bool-cases (str_eq k endpoint)) [
  | inl here ↦
      let other : str_eq k matrix_element_key ≡ false =
        ground (arith, eq_iff k endpoint, eq_iff k matrix_element_key) in
      rw (other, endpoint_vals) (inl (ground arith))
  | inr later ↦
      let found : lookup endpoint weights ≡ some v = rw later at e in
      let rest = endpoint_vals-In weights endpoint v h found in
      elim (Bool-cases (str_eq k matrix_element_key)) [
        | inl rate ↦ rw (rate, endpoint_vals) rest
        | inr price ↦ rw (price, endpoint_vals) (inr rest)
      ]
]

-- A request that the cap has to leave room for: it is charged, and its endpoint is either listed or
-- no dearer by default than the cheapest listed one.
abbrev pub IsPriced : Dict ℕ → String → Type 0
IsPriced weights endpoint =
    (0 < weight_for weights endpoint)
    × (endpoint ≢ matrix_element_key)
    × ((lookup endpoint weights ≢ none) ⊎ (min_weight weights ≤ default_weight_milli))

IsPriced-le :
    (weights : Dict ℕ) (endpoint : String)
    → IsPriced weights endpoint
    → max 1 (min_weight weights) ≤ weight_for weights endpoint
unfolding weight_for min_weight
IsPriced-le weights endpoint (charged, other, listed) =
    elim (Option-cases (lookup endpoint weights)) [
      | inl missing ↦ ground arith
      | inr (v, e) ↦ ground (
        arith,
        min_of-In default_weight_milli v (endpoint_vals weights)
            (endpoint_vals-In weights endpoint v other e),
      )
    ]

cost_at_least :
    (weights : Dict ℕ) (requests : List String)
    → All (IsPriced weights) requests
    → length requests * max 1 (min_weight weights) ≤ cost weights requests
unfolding cost
cost_at_least weights [] h = omega arith
cost_at_least weights (e ∷ requests) (p, h) =
    omega (arith, cost_at_least weights requests h, IsPriced-le weights e p)

-- A sequence of charged requests that stays within the credit quota stays within the request cap, if
-- each endpoint is listed in the table or the cheapest listed one costs a credit at most.
cap_admits_quota :
    (weights : Dict ℕ) (quota : ℕ) (requests : List String)
    → All (IsPriced weights) requests
    → cost weights requests ≤ quota * 1000
    → length requests ≤ projected_request_cap weights quota
unfolding projected_request_cap
cap_admits_quota weights quota requests h k =
    (le-div_iff_mul-le (omega arith)).1 (omega (arith, cost_at_least weights requests h))

unlisted_cost :
    (weights : Dict ℕ) (endpoint : String)
    → lookup endpoint weights ≡ none
    → (n : ℕ) → cost weights (replicate n endpoint) ≡ n * 1000
unfolding cost weight_for
unlisted_cost weights endpoint missing zero = omega arith
unlisted_cost weights endpoint missing (suc n) =
    rw missing (omega (arith, unlisted_cost weights endpoint missing n))

-- If every listed endpoint costs more than a credit, the cap is below what the quota buys: as many
-- requests to an unlisted endpoint as there are credits cost exactly the quota and are not admitted.
cap_below_quota :
    (weights : Dict ℕ) (quota : ℕ) (endpoint : String)
    → lookup endpoint weights ≡ none
    → default_weight_milli < min_weight weights
    → 0 < quota
    → (cost weights (replicate quota endpoint) ≡ quota * 1000)
      × (projected_request_cap weights quota < quota)
unfolding projected_request_cap
cap_below_quota weights quota endpoint missing dear h =
    let m : ℕ = max 1 (min_weight weights) in
    (
      unlisted_cost weights endpoint missing quota,
      (div-lt_iff_lt-mul (omega arith)).1 (grind arith),
    )
