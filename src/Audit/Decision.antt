-- ===== src/Audit/Decision.antt =====
-- src/torq_cli/domain/candidate_decision_evidence.py: an operator's review of a candidate, and
-- its application to the primary tree.
pub mod Review
pub mod Apply
pub mod Contract
