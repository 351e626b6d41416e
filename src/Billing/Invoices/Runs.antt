-- ===== src/Billing/Invoices/Runs.antt =====
-- A second billing run for the same usage.
use geocoder_fwd.Prelude.{ℕ, ◌≡◌, ◌≢◌, refl, ap, sym, List, [], ◌∷◌, String, map, All}
use geocoder_fwd.Billing.Invoices.{
  Invoice, Table, upsert_invoice, Tenant, new_invoice, generate_invoice_for_tenant, run_billing,
}
use geocoder_fwd.Billing.Invoices.Laws.{
  IsSettled, upsert_settled, upsert-IsSettled, IsSettled-upsert,
}

-- No tenant is billed twice in one run: the tenants come from a query by primary key.
abbrev pub IsDistinct : List (Tenant × String) → Type 0
IsDistinct [] = Unit
IsDistinct ((tenant, _) ∷ tenants) =
    All (λ p. p.0.tenant_id ≢ tenant.tenant_id) tenants × IsDistinct tenants

module _ (totals : String → String → ℕ × ℕ) (period : String) where
  abbrev invoice_of : Tenant → String → Invoice
  invoice_of tenant id = new_invoice tenant period (totals tenant.tenant_id period) id

  -- Each tenant's row stands in the table, and a new invoice would not change it.
  abbrev AllSettled : List (Tenant × String) → List Invoice → Table → Type 0
  AllSettled [] rows table = rows ≡ []
  AllSettled ((tenant, id) ∷ tenants) [] table = ⊥
  AllSettled ((tenant, id) ∷ tenants) (row ∷ rows) table =
      IsSettled (invoice_of tenant id) table row × AllSettled tenants rows table

  run_billing-IsSettled :
      (tenants : List (Tenant × String)) (table : Table) (tenant : Tenant) (id : String)
      (row : Invoice)
      → All (λ p. p.0.tenant_id ≢ tenant.tenant_id) tenants
      → IsSettled (invoice_of tenant id) table row
      → IsSettled (invoice_of tenant id) (run_billing totals period tenants table).1 row
  unfolding run_billing generate_invoice_for_tenant new_invoice
  run_billing-IsSettled [] table tenant id row apart h = h
  run_billing-IsSettled ((other, id') ∷ tenants) table tenant id row (ne, apart) h =
      run_billing-IsSettled tenants (upsert_invoice (invoice_of other id') table).1 tenant id row
        apart (IsSettled-upsert (invoice_of tenant id) (invoice_of other id') table row ne h)

  run_billing-AllSettled :
      (tenants : List (Tenant × String)) (table : Table)
      → IsDistinct tenants
      → AllSettled tenants
          (run_billing totals period tenants table).0
          (run_billing totals period tenants table).1
  unfolding run_billing generate_invoice_for_tenant new_invoice
  run_billing-AllSettled [] table d = refl
  run_billing-AllSettled ((tenant, id) ∷ tenants) table (apart, d) =
      let new = invoice_of tenant id in
      (
        run_billing-IsSettled tenants (upsert_invoice new table).1 tenant id
            (upsert_invoice new table).0 apart (upsert-IsSettled new refl table),
        run_billing-AllSettled tenants (upsert_invoice new table).1 d,
      )

  run_billing_settled :
      (fresh : Tenant → String) (tenants : List (Tenant × String)) (rows : List Invoice)
      (table : Table)
      → AllSettled tenants rows table
      → run_billing totals period (map (λ p. (p.0, fresh p.0)) tenants) table ≡ (rows, table)
  unfolding run_billing generate_invoice_for_tenant new_invoice
  run_billing_settled fresh [] rows table h = ap (λ r. (r, table)) (sym h)
  run_billing_settled fresh ((tenant, id) ∷ tenants) [] table h = absurd h
  run_billing_settled fresh ((tenant, id) ∷ tenants) (row ∷ rows) table ((found, k), h) =
      let first = upsert_settled (invoice_of tenant (fresh tenant)) table row found k in
      rw first (ap (λ r. (row ∷ r.0, r.1)) (run_billing_settled fresh tenants rows table h))

-- Billing a period again, for the same usage and whatever new ids are at hand, answers the same
-- invoices and leaves the table as the first run left it: pending rows are written with the same
-- values, and paid rows stay.
pub run_billing_twice :
    (totals : String → String → ℕ × ℕ) (period : String) (tenants : List (Tenant × String))
    (fresh : Tenant → String) (table : Table)
    → IsDistinct tenants
    → run_billing totals period
        (map (λ p. (p.0, fresh p.0)) tenants)
        (run_billing totals period tenants table).1
      ≡ run_billing totals period tenants table
run_billing_twice totals period tenants fresh table d =
    run_billing_settled totals period fresh tenants (run_billing totals period tenants table).0
      (run_billing totals period tenants table).1
      (run_billing-AllSettled totals period tenants table d)
