-- ===== src/Engine.antt =====
-- src/torq_cli/core: the execution graph and the retry of provider calls.
pub mod Graph
pub mod Retry
