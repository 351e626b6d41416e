-- ===== src/Billing/Tests/Charges.antt =====
-- billing/billing_engine.py and billing/repo.py: the results at a concrete tenant and its invoice.
use geocoder_fwd.Prelude.{
  ℕ, ◌*◌, ◌≡◌, ◌≢◌, refl, true, false, some, List, [], ◌∷◌, map, String, arith,
}
use geocoder_fwd.Billing.Charge.{OveragePrice}
use geocoder_fwd.Billing.Invoices.{
  Invoice, find_invoice, mark_invoice_paid, not_found, marked, Tenant, run_billing,
}
use geocoder_fwd.Billing.Invoices.Runs.{run_billing_twice}

-- Two cents for a credit.
abbrev two_cents : OveragePrice
two_cents = record {
  is_positive = true;
  ceil_times = λ n. 2 * n;
  ceil_times_mono = λ m n h. omega (arith, h);
}

abbrev paid_invoice : Invoice
paid_invoice = record {
  id = "1";
  tenant_id = "t";
  period = "2024-01";
  total_requests = 3;
  total_milli_credits = 3000;
  amount_cents = 500;
  line_items = [];
  paid = true;
}

abbrev late_invoice : Invoice
late_invoice = record paid_invoice { id = "2"; amount_cents = 700; paid = false }

paid_found : find_invoice "t" "2024-01" (paid_invoice ∷ []) ≡ some paid_invoice
unfolding find_invoice
paid_found = refl

marked_now :
    (mark_invoice_paid "2" (late_invoice ∷ [])).0 ≡ marked (record late_invoice { paid = true })
unfolding mark_invoice_paid
marked_now = refl

known : (mark_invoice_paid "2" (late_invoice ∷ [])).0 ≢ not_found
known e = cc (marked_now, e)

abbrev tenant : Tenant
tenant = record {
  tenant_id = "t";
  base_price_cents = 500;
  overage_price = two_cents;
  monthly_quota = 10;
}

abbrev billed : List (Tenant × String)
billed = (tenant, "7") ∷ []

abbrev usage : String → String → ℕ × ℕ
usage tenant_id period = (12500, 9)

run_billing_twice_example :
    run_billing usage "2024-01"
      (map (λ p. (p.0, "8")) billed)
      (run_billing usage "2024-01" billed []).1
    ≡ run_billing usage "2024-01" billed []
run_billing_twice_example = run_billing_twice usage "2024-01" billed (λ t. "8") [] (tt, tt)
