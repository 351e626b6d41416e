-- ===== src/Billing.antt =====
-- Credit billing: billing/weights.py, billing/billing_engine.py, billing/usage.py,
-- billing/gateway.py and the SQL of billing/repo.py that they run.
pub mod Weights
pub mod Charge
pub mod Invoices
pub mod Usage
pub mod Meter
pub mod Gateway
pub mod Accounts
pub mod ControlPlane
mod Tests
