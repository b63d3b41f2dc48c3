-- ===== src/Saga.antt =====
-- src/saga of the order service: the saga's states, contracts and orchestrator.
pub mod State
pub mod Contracts
pub mod Orchestrator
