-- ===== src/Accounting.antt =====
-- src/torq_cli/safety/accounting_registry.py: the signed journals of a run's entitlements.
pub mod Record
pub mod Lines
pub mod Journal
pub mod Ledger
pub mod Enrollment
