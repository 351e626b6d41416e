-- ===== src/Ledger.antt =====
-- shared/processed.py: the ledger of the source files that have been imported.
pub mod Rows
pub mod Files
mod Tests
