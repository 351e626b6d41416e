-- ===== src/Billing/Usage/ByKey.antt =====
-- `usage_by_key_for_period` of billing/repo.py, beside the totals of the period.
use geocoder_fwd.Prelude.{
  ℕ, ◌+◌, ◌≡◌, refl, ◌&&◌, List, [], ◌∷◌, String, str_eq, if◌then◌else◌, arith, Bool-cases, inl,
  inr,
}
use geocoder_fwd.Billing.Usage.{Row, usage_totals_for_period}

-- A key with its milli-credits and its requests.
abbrev pub KeyUsage : Type 0
KeyUsage = String × ℕ × ℕ

-- One row more in its group.
abbrev pub add_usage : String → ℕ → ℕ → List KeyUsage → List KeyUsage
add_usage key_id count requests [] = (key_id, count, requests) ∷ []
add_usage key_id count requests ((k, milli, n) ∷ groups) =
    let rest = add_usage key_id count requests groups in
    if str_eq k key_id then (k, milli + count, n + requests) ∷ groups else (k, milli, n) ∷ rest

-- `GROUP BY key_id`; the groups come in no special order.
unfoldable pub usage_by_key_for_period : String → String → List Row → List KeyUsage
usage_by_key_for_period tenant_id period [] = []
usage_by_key_for_period tenant_id period (r ∷ rows) =
    let groups = usage_by_key_for_period tenant_id period rows in
    if str_eq r.tenant_id tenant_id && str_eq r.period period
    then add_usage r.key_id r.count r.requests groups
    else groups

abbrev pub sum_milli : List KeyUsage → ℕ
sum_milli [] = 0
sum_milli ((k, milli, n) ∷ groups) = milli + sum_milli groups

abbrev pub sum_requests : List KeyUsage → ℕ
sum_requests [] = 0
sum_requests ((k, milli, n) ∷ groups) = n + sum_requests groups

add_usage-sum :
    (key_id : String) (count requests : ℕ) (groups : List KeyUsage)
    → (sum_milli (add_usage key_id count requests groups) ≡ count + sum_milli groups)
      × (sum_requests (add_usage key_id count requests groups) ≡ requests + sum_requests groups)
add_usage-sum key_id count requests [] = (refl, refl)
add_usage-sum key_id count requests ((k, milli, n) ∷ groups) =
    let (rest_milli, rest_requests) = add_usage-sum key_id count requests groups in
    elim (Bool-cases (str_eq k key_id)) [
      | inl e ↦ rw e (omega arith, omega arith)
      | inr e ↦ rw e (omega (arith, rest_milli), omega (arith, rest_requests))
    ]

-- The milli-credits and the requests of a tenant's keys in a period add up to the totals of the tenant
-- in that period, which the invoice charges.
pub usage_by_key_for_period-usage_totals_for_period :
    (tenant_id period : String) (rows : List Row)
    → (sum_milli (usage_by_key_for_period tenant_id period rows)
        ≡ (usage_totals_for_period tenant_id period rows).0)
      × (sum_requests (usage_by_key_for_period tenant_id period rows)
          ≡ (usage_totals_for_period tenant_id period rows).1)
unfolding usage_by_key_for_period usage_totals_for_period
usage_by_key_for_period-usage_totals_for_period tenant_id period [] = (refl, refl)
usage_by_key_for_period-usage_totals_for_period tenant_id period (r ∷ rows) =
    let (milli, requests) = usage_by_key_for_period-usage_totals_for_period tenant_id period rows in
    let groups = usage_by_key_for_period tenant_id period rows in
    let (sum_m, sum_r) = add_usage-sum r.key_id r.count r.requests groups in
    elim (Bool-cases (str_eq r.tenant_id tenant_id && str_eq r.period period)) [
      | inl e ↦ rw e (omega (arith, milli, sum_m), omega (arith, requests, sum_r))
      | inr e ↦ rw e (milli, requests)
    ]
