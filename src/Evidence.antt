-- ===== src/Evidence.antt =====
-- Receipts of a governed run, schema version 2: who may write what, what a payload holds, and
-- the lifecycle that the receipts of one run follow.
pub mod Names
pub mod Finding
pub mod Rules
pub mod World
pub mod Payload
pub mod Contract
mod Tests
