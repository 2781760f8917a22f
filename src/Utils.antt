-- ===== src/Utils.antt =====
-- pkg/controller/utils/utils.go: finalizers and updates with retries.
pub mod Backoff
pub mod Update
pub mod Finalizers
pub mod CreateOrUpdate
