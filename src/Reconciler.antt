-- ===== src/Reconciler.antt =====
-- pkg/controller/managedresource: the reconciler of ManagedResources.
pub mod Annotations
pub mod Scaling
pub mod Labels
pub mod Cleaner
pub mod Cleaning
pub mod Applying
pub mod Control
pub mod Decoding
pub mod Steps
pub mod Run
