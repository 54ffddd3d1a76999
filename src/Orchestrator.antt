-- ===== src/Orchestrator.antt =====
-- services/orchestrator.
pub mod Dispatch
pub mod Recovery
pub mod Scorer
pub mod StateMachine
