-- ===== src/Tests.antt =====
-- The theorems at concrete inputs.
pub mod Data
pub mod Conditions
pub mod Classes
pub mod Indexes
pub mod Merging
pub mod Clients
pub mod Checks
pub mod Reconciling
pub mod Runs
pub mod Events
pub mod Concurrency
pub mod Settling
pub mod Commands
pub mod Building
pub mod Applies
pub mod Sorts
pub mod Starting
