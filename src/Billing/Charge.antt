-- ===== src/Billing/Charge.antt =====
-- `compute_charge` of billing/billing_engine.py. Prices, quotas and counters are never negative
-- (`ge=0` in billing/models.py); counters stay below 2^53, where `overage_milli / 1000` is exact
-- enough for its ceiling.
pub mod Laws
use geocoder_fwd.Prelude.{
  ℕ, ◌+◌, ◌-◌, ◌*◌, ◌/◌, ◌≤◌, Bool, true, false, ◌&&◌, List, [], ◌∷◌, ltb, if◌then◌else◌,
}

-- The price of a credit over the quota is a float: whether it is positive, and
-- `math.ceil(n * float(price))`. Multiplication of floats and the ceiling are monotone.
pub record OveragePrice : Type 0 where
  pub is_positive : Bool
  pub ceil_times : ℕ → ℕ
  pub ceil_times_mono : (m n : ℕ) → m ≤ n → ceil_times m ≤ ceil_times n

-- A line of an invoice, with what its description shows.
pub data LineItem : Type 0 where
  base_subscription : ℕ → LineItem
  overage : ℕ → ℕ → ℕ → LineItem
  included_credits : ℕ → ℕ → LineItem

abbrev pub amount_cents : LineItem → ℕ
amount_cents (base_subscription cents) = cents
amount_cents (overage credits included cents) = cents
amount_cents (included_credits used_milli included) = 0

-- `math.ceil(overage_milli / 1000)`
unfoldable pub ceil_credits : ℕ → ℕ
ceil_credits milli = (milli + 999) / 1000

unfoldable pub compute_charge : ℕ → ℕ → OveragePrice → ℕ → ℕ × List LineItem
unfolding ceil_credits
compute_charge total_milli_credits base_price_cents price monthly_quota_credits =
    let overage_milli = total_milli_credits - monthly_quota_credits * 1000 in
    let overage_credits = ceil_credits overage_milli in
    let overage_cents = price.ceil_times overage_credits in
    if ltb 0 overage_credits && price.is_positive
    then (
      base_price_cents + overage_cents,
      base_subscription base_price_cents
          ∷ overage overage_credits monthly_quota_credits overage_cents
          ∷ [],
    )
    else (
      base_price_cents,
      base_subscription base_price_cents
          ∷ included_credits total_milli_credits monthly_quota_credits
          ∷ [],
    )
