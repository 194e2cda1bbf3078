-- ===== src/ControlPlane.antt =====
-- The deterministic control plane (factory/control_plane/): task states, dependency graph, audit
-- ledger and mission runner.
pub mod State
pub mod Ledger
pub mod Graph
pub mod Runner
pub mod Orchestration
pub mod Policy
pub mod Records
mod Tests
