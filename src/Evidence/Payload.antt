-- ===== src/Evidence/Payload.antt =====
-- src/torq_cli/domain/run_evidence.py, `validate_receipt_payload` and its helpers, for receipts of
-- the current schema (`legacy=False`): one module for each group of transitions.
pub mod Shape
pub mod Floor
pub mod Attempts
pub mod Plans
pub mod Actions
pub mod Commands
pub mod Decisions
pub mod Validate
