-- ===== src/Billing/Charge/Laws.antt =====
-- What a tenant pays for a period.
use geocoder_fwd.Prelude.{ℕ, ◌+◌, ◌-◌, ◌*◌, ◌≤◌, ◌<◌, ◌≡◌, true, List, [], ◌∷◌, arith}
use geocoder_fwd.Billing.Charge.{OveragePrice, LineItem, amount_cents, ceil_credits, compute_charge}

abbrev pub items_total : List LineItem → ℕ
items_total [] = 0
items_total (item ∷ items) = amount_cents item + items_total items

-- The lines of an invoice add up to its amount.
compute_charge_adds_up :
    (total base : ℕ) (price : OveragePrice) (quota : ℕ)
    → let (amount, items) = compute_charge total base price quota in items_total items ≡ amount
unfolding compute_charge
compute_charge_adds_up total base price quota = ground arith

-- Within the quota a tenant pays the base price.
compute_charge_within :
    (total base : ℕ) (price : OveragePrice) (quota : ℕ)
    → total ≤ quota * 1000
    → (compute_charge total base price quota).0 ≡ base
unfolding compute_charge
compute_charge_within total base price quota h = ground arith

-- Over the quota, at a positive price, a tenant pays the base price and the price of the overage in
-- whole credits: the least number of credits that covers the usage together with the quota.
compute_charge_over :
    (total base : ℕ) (price : OveragePrice) (quota : ℕ)
    → quota * 1000 < total
    → price.is_positive ≡ true
    → (credits : ℕ) × ((compute_charge total base price quota).0 ≡ base + price.ceil_times credits)
      × (total ≤ (quota + credits) * 1000)
      × ((quota + credits) * 1000 < total + 1000)
unfolding compute_charge ceil_credits
compute_charge_over total base price quota h p =
    (ceil_credits (total - quota * 1000), ground arith, omega arith, omega arith)

-- More usage never costs less.
compute_charge_mono :
    (total total' base : ℕ) (price : OveragePrice) (quota : ℕ)
    → total ≤ total'
    → (compute_charge total base price quota).0 ≤ (compute_charge total' base price quota).0
unfolding compute_charge
compute_charge_mono total total' base price quota h = ground (
  arith,
  price.ceil_times_mono (ceil_credits (total - quota * 1000))
      (ceil_credits (total' - quota * 1000)),
)
