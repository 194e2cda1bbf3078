-- ===== src/Reliability.antt =====
-- Retry, reconciliation and circuit breaking (factory/reliability/): contracts, the decision
-- engine, the durable store and the controller.
pub mod Contracts
pub mod Engine
pub mod Store
pub mod Controller
pub mod Recovery
mod Tests
