-- ===== src/Billing/Invoices.antt =====
-- The invoices: `upsert_invoice` and `mark_invoice_paid` of billing/repo.py, and
-- `generate_invoice_for_tenant` and `run_billing` of billing/billing_engine.py. The table is a list
-- of rows in the order of insertion, and each SQL statement one function on it.
pub mod Laws
pub mod Runs
use geocoder_fwd.Prelude.{
  ℕ, Bool, true, false, ◌&&◌, Option, none, some, List, [], ◌∷◌, String, str_eq, if◌then◌else◌,
}
use geocoder_fwd.Billing.Charge.{OveragePrice, LineItem, compute_charge}

-- A row of `invoices`, less its time stamps.
pub record Invoice : Type 0 where
  pub id : String
  pub tenant_id : String
  pub period : String
  pub total_requests : ℕ
  pub total_milli_credits : ℕ
  pub amount_cents : ℕ
  pub line_items : List LineItem
  pub paid : Bool

abbrev pub Table : Type 0
Table = List Invoice

-- The unique key `(tenant_id, period)`.
abbrev pub has_key : String → String → Invoice → Bool
has_key tenant_id period i = str_eq i.tenant_id tenant_id && str_eq i.period period

unfoldable pub find_invoice : String → String → Table → Option Invoice
find_invoice tenant_id period [] = none
find_invoice tenant_id period (i ∷ table) =
    if has_key tenant_id period i then some i else find_invoice tenant_id period table

-- `SET ... = EXCLUDED...`: the row keeps its id and stays pending.
abbrev pub refreshed : Invoice → Invoice → Invoice
refreshed new old = record new { id = old.id; paid = false }

-- `INSERT ... ON CONFLICT (tenant_id, period) DO UPDATE ... WHERE status = 'pending'`, and the
-- `SELECT` that answers the old row where nothing was written.
unfoldable pub upsert_invoice : Invoice → Table → Invoice × Table
upsert_invoice new [] = (new, new ∷ [])
upsert_invoice new (i ∷ table) =
    let (row, table') = upsert_invoice new table in
    if has_key new.tenant_id new.period i
    then if i.paid then (i, i ∷ table) else (refreshed new i, refreshed new i ∷ table)
    else (row, i ∷ table')

pub data PayResult : Type 0 where
  marked : Invoice → PayResult
  not_found already_paid : PayResult

-- `UPDATE ... WHERE id=$1 AND status='pending'`, and the look at what stands there if no row matched.
unfoldable pub mark_invoice_paid : String → Table → PayResult × Table
mark_invoice_paid id [] = (not_found, [])
mark_invoice_paid id (i ∷ table) =
    let (result, table') = mark_invoice_paid id table in
    if str_eq i.id id
    then if i.paid
      then (already_paid, i ∷ table)
      else (marked (record i { paid = true }), record i { paid = true } ∷ table)
    else (result, i ∷ table')

-- A tenant with its plan; the SQL's nulls are 0.
pub record Tenant : Type 0 where
  pub tenant_id : String
  pub base_price_cents : ℕ
  pub overage_price : OveragePrice
  pub monthly_quota : ℕ

-- The totals of a tenant for a period, and a new id for a row.
unfoldable pub new_invoice : Tenant → String → ℕ × ℕ → String → Invoice
new_invoice tenant period (milli, requests) id =
    let (amount, line_items) =
      compute_charge milli tenant.base_price_cents tenant.overage_price tenant.monthly_quota in
    record {
      id = id;
      tenant_id = tenant.tenant_id;
      period = period;
      total_requests = requests;
      total_milli_credits = milli;
      amount_cents = amount;
      line_items = line_items;
      paid = false;
    }

module _ (totals : String → String → ℕ × ℕ) where
  unfoldable pub generate_invoice_for_tenant : Tenant → String → String → Table → Invoice × Table
  generate_invoice_for_tenant tenant period id table =
      upsert_invoice (new_invoice tenant period (totals tenant.tenant_id period) id) table

  -- One id for each tenant, used if a row is inserted.
  unfoldable pub run_billing : String → List (Tenant × String) → Table → List Invoice × Table
  run_billing period [] table = ([], table)
  run_billing period ((tenant, id) ∷ tenants) table =
      let (row, table') = generate_invoice_for_tenant tenant period id table in
      let (rows, table'') = run_billing period tenants table' in (row ∷ rows, table'')
