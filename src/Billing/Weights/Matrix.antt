-- ===== src/Billing/Weights/Matrix.antt =====
-- `matrix_size` and `matrix_milli` of billing/weights.py: a matrix call is charged by its size. The
-- JSON decoder and the query parser are the standard library's, and stand as parameters.
use geocoder_fwd.Prelude.{
  ◌>>=◌, ℕ, zero, suc, ◌||◌, ◌*◌, ◌≤◌, ◌≡◌, Option, none, some, String, Dict, lookup, get_or,
  str_eq, max, arith, if◌then◌else◌, Option-cases, inl, inr, ◌==◌,
}
use geocoder_fwd.Billing.Weights.{
  matrix_endpoint, matrix_element_key, default_matrix_element_milli, weight_for, matrix_milli,
}

-- A decoded value, as `len` sees it: a list, a text or an object has a size, other values have none.
pub data Value : Type 0 where
  scalar : Value
  sized : ℕ → Value

-- A decoded request: an object by its keys, or something that `req["sources"]` raises on.
pub data Json : Type 0 where
  other : Json
  object : Dict Value → Json

-- `len(req[key])`; `none` is the `KeyError` or the `TypeError`.
unfoldable pub len_of : Json → String → Option ℕ
len_of other key = none
len_of (object fields) key = elim (lookup key fields) [
  | none ↦ none
  | some v ↦ elim v [ scalar ↦ none | sized n ↦ some n ]
]

-- The `try` of `matrix_size`.
unfoldable pub parsed_size : Option Json → Option (ℕ × ℕ)
parsed_size decoded = do
  req ← decoded
  n_sources ← len_of req "sources"
  n_targets ← len_of req "targets"
  some (n_sources, n_targets)

-- An empty text is false, as `None` is.
unfoldable pub non_empty : Option String → Option String
non_empty none = none
non_empty (some s) = if str_eq s "" then none else some s

module _ (loads : String → Option Json) (json_param : String → Option String) where
  -- The text to decode: the body, else the first `json` parameter of the query.
  unfoldable pub raw_request : Option String → Option String → Option String
  raw_request query body = elim (non_empty body) [
    | some b ↦ some b
    | none ↦ non_empty (non_empty query >>= json_param)
  ]

  unfoldable pub matrix_size : Option String → Option String → ℕ × ℕ
  matrix_size query body = get_or (0, 0) (raw_request query body >>= λ raw. parsed_size (loads raw))

-- An empty side makes the product 0.
split :
    (s t rate floor : ℕ)
    → (if s == 0 || t == 0 then floor else max floor (s * t * rate)) ≡ max floor (s * t * rate)
split zero t rate floor = grind arith
split (suc s) zero rate floor = grind arith
split (suc s) (suc t) rate floor = grind arith

area_mono : (s t s' t' : ℕ) → s ≤ s' → t ≤ t' → s * t ≤ s' * t'
area_mono s t s' t' h k = grind arith

times_mono : (a b rate : ℕ) → a ≤ b → a * rate ≤ b * rate
times_mono a b rate h = grind arith

product_mono : (s t s' t' rate : ℕ) → s ≤ s' → t ≤ t' → s * t * rate ≤ s' * t' * rate
product_mono s t s' t' rate h k = times_mono (s * t) (s' * t') rate (area_mono s t s' t' h k)

-- The charge is the flat weight or the size times the element rate, whichever is more; the test for
-- an empty side changes nothing.
matrix_milli_lem :
    (weights : Dict ℕ) (n_sources n_targets : ℕ)
    → matrix_milli weights n_sources n_targets
      ≡ max (weight_for weights matrix_endpoint) (
          n_sources
          * n_targets
          * get_or default_matrix_element_milli (lookup matrix_element_key weights))
unfolding matrix_milli
matrix_milli_lem weights n_sources n_targets =
    split n_sources n_targets
      (get_or default_matrix_element_milli (lookup matrix_element_key weights))
      (weight_for weights matrix_endpoint)

-- A larger matrix is never cheaper, and no matrix is cheaper than the flat weight.
pub matrix_milli_mono :
    (weights : Dict ℕ) (s t s' t' : ℕ)
    → s ≤ s'
    → t ≤ t'
    → (weight_for weights matrix_endpoint ≤ matrix_milli weights s t)
      × (matrix_milli weights s t ≤ matrix_milli weights s' t')
matrix_milli_mono weights s t s' t' h k =
    let rate : ℕ = get_or default_matrix_element_milli (lookup matrix_element_key weights) in
    rw (matrix_milli_lem weights s t)
      (rw (matrix_milli_lem weights s' t') (omega (arith, product_mono s t s' t' rate h k)))

-- A request without a body and without a `json` parameter, and one that does not decode to an object
-- with both sides, is charged the flat weight.
pub matrix_size_unknown :
    (loads : String → Option Json) (json_param : String → Option String) (weights : Dict ℕ)
    (query body : Option String)
    → ((raw : String)
        → raw_request loads json_param query body ≡ some raw
        → parsed_size (loads raw) ≡ none)
    → let (s, t) = matrix_size loads json_param query body in
      matrix_milli weights s t ≡ weight_for weights matrix_endpoint
unfolding matrix_milli matrix_size
matrix_size_unknown loads json_param weights query body h =
    elim (Option-cases (raw_request loads json_param query body)) [
      | inl nothing ↦ rw (nothing, ◌>>=◌)
      | inr (raw, e) ↦ rw (e, ◌>>=◌) (rw (h raw e))
    ]
