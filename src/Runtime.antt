-- ===== src/Runtime.antt =====
-- The runtime (factory/runtime/): incident response, and the catalog of agents, artifacts, budgets and
-- approvals.
pub mod Incidents
pub mod Catalog
pub mod Approved
pub mod Audit
pub mod Missions
pub mod Scoped
mod Tests
