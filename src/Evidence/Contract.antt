-- ===== src/Evidence/Contract.antt =====
-- src/torq_cli/domain/run_evidence.py, `validate_v2_receipt_contract`: the lifecycle that the
-- receipts of one run follow, for the current schema (`legacy=False`). The loop's local variables
-- are the record `State`; each branch of the loop is a function of its own. A branch goes on with
-- a new state, or stops with the finding it returns.
pub mod State
pub mod Outcome
pub mod Commands
pub mod Attempts
pub mod Actions
pub mod Decisions
pub mod Frames
pub mod Run
pub mod Whole
mod Tests
