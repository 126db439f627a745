-- ===== src/Audit.antt =====
-- The contracts that ride on `audit` receipts: the task that turns a goal into a candidate
-- (src/torq_cli/domain/task_evidence.py), and the operator's review and application of the
-- candidate (candidate_decision_evidence.py).
pub mod Shape
pub mod Task
pub mod Decision
