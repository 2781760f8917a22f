-- ===== src/Health.antt =====
-- pkg/health and pkg/controller/health: what it takes for an object to be healthy.
pub mod Types
pub mod Checks
pub mod Managed
pub mod Criteria
pub mod Dispatch
pub mod Reconciler
