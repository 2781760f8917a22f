-- ===== src/Api.antt =====
-- The API group resources.gardener.cloud/v1alpha1: its types, and the helpers on conditions.
pub mod Types
pub mod Conditions
