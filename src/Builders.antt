-- ===== src/Builders.antt =====
-- pkg/manager: builders with which other programs make ManagedResources and their secrets.
pub mod Storage
pub mod Resources
pub mod Secrets
pub mod Laws
